-- ===== src/Parser/Mpeg12/Slices.antt =====
-- The loops over start codes in `mpv_parse` (src/media/parser_mpeg12.c).
use feng.Base.{
  ℕ, zero, suc, ◌+◌, ◌-◌, ◌*◌, ◌/◌, ◌%◌, ◌^◌, ◌≤◌, ◌<◌, ◌≡◌, refl, sym, ap, ◌∙◌, inl, inr, Bool,
  true, false, ◌||◌, List, Outcome, ok, ◌>>=◌, ltb, ltb→lt, ◌==◌, Bool-cases, length, arith,
}
use feng.Parser.Mpeg12.{
  find_start_code, is_code, Picture, forward, backward, read_header, read_headers, pick_slices,
  no_state,
}
use feng.Parser.Mpeg12.StartCode.{nth, IsBytes, byte_at-nth}
use feng.Parser.Mpeg12.Found.{IsFound, code_found, nothing_found, find_start_code_lem}

-- What the loops need of a search: it returns, and what it finds stands further on.
progress :
    (mem : List ℕ) (p end : ℕ)
    → IsBytes mem
    → end ≤ length mem
    → (f : ℕ × ℕ) × (find_start_code mem p end no_state ≡ ok f)
      × (is_code f.1 ≡ true → (p < f.0) × (f.0 ≤ end))
progress mem p end h l = let (f, e, s) = find_start_code_lem mem p end h l in (f, e, further f s)
  where
    further : (f : ℕ × ℕ) → IsFound mem p end f → is_code f.1 ≡ true → (p < f.0) × (f.0 ≤ end)
    further f (code_found c a b x w n) t = (omega arith, b)
    further f (nothing_found c n) t = cc (sym c ∙ t)

forward-ok :
    (mem : List ℕ) (r : ℕ) (pic : Picture)
    → r + 4 < length mem
    → (pic' : Picture) × (forward mem r pic ≡ ok pic')
forward-ok mem r pic l = elim (Bool-cases (pic.frame_type == 2 || pic.frame_type == 3)) [
  | inl e ↦
      rw (e, byte_at-nth mem (r + 3) (omega arith), byte_at-nth mem (r + 4) (omega arith)) (_, refl)
  | inr e ↦ rw e (pic, refl)
]

backward-ok :
    (mem : List ℕ) (r : ℕ) (pic : Picture)
    → r + 4 < length mem
    → (pic' : Picture) × (backward mem r pic ≡ ok pic')
backward-ok mem r pic l = elim (Bool-cases (pic.frame_type == 3)) [
  | inl e ↦ rw (e, byte_at-nth mem (r + 4) (omega arith)) (_, refl)
  | inr e ↦ rw e (pic, refl)
]

read_header-ok :
    (mem : List ℕ) (r code : ℕ) (pic : Picture)
    → r + 4 < length mem
    → (pic' : Picture) × (read_header mem r code pic ≡ ok pic')
unfolding read_header
read_header-ok mem r code pic l = elim (Bool-cases (code == 256)) [
  | inl e ↦
      let pic₁ : Picture = record pic {
        frame_type = nth mem (r + 1) / 2 ^ 3 % 2 ^ 3;
        temporal_reference = nth mem r * 2 ^ 2 + nth mem (r + 1) / 2 ^ 6;
      } in
      let (pic₂, f) = forward-ok mem r pic₁ l in
      let (pic₃, b) = backward-ok mem r pic₂ l in
      (
        pic₃,
        rw (e, byte_at-nth mem (r + 1) (omega arith), byte_at-nth mem r (omega arith))
            (ap (λ (m : Outcome Picture). m >>= λ pic'. backward mem r pic') f ∙ b),
      )
  | inr e ↦ elim (Bool-cases (code == 435)) [
    | inl k ↦ rw (e, k) (_, refl)
    | inr k ↦ rw (e, k) (pic, refl)
  ]
]

pub read_headers-ok :
    (fuel : ℕ) (mem : List ℕ) (r1 end : ℕ) (pic : Picture)
    → IsBytes mem
    → end + 5 ≤ length mem
    → r1 ≤ end
    → end < fuel + r1
    → (pic' : Picture) × (read_headers fuel mem r1 end pic ≡ ok pic')
unfolding read_headers
read_headers-ok zero mem r1 end pic h l a k = absurd (omega arith)
read_headers-ok (suc fuel) mem r1 end pic h l a k =
    let (f, e, g) = progress mem r1 end h (omega arith) in
    elim (Bool-cases (is_code f.1)) [
      | inr t ↦ rw (e, t) (pic, refl)
      | inl t ↦
          let (less, most) = g t in
          let (pic₁, c) = read_header-ok mem f.0 f.1 pic (omega (arith, most)) in
          let (pic₂, d) = read_headers-ok fuel mem f.0 end pic₁ h l most (omega (arith, less)) in
          rw (e, t, c) (pic₂, d)
    ]

-- The loop over the slices returns a payload that fits a packet.
pub pick_slices-fits :
    (fuel : ℕ) (mem : List ℕ) (start r1 end : ℕ) (b : Bool)
    → IsBytes mem
    → end ≤ length mem
    → r1 ≤ end
    → r1 < start + 1436
    → end < fuel + r1
    → (c : ℕ × Bool) × (pick_slices fuel mem start r1 end b ≡ ok c) × (c.0 ≤ 1436)
unfolding pick_slices
pick_slices-fits zero mem start r1 end b h l a d k = absurd (omega arith)
pick_slices-fits (suc fuel) mem start r1 end b h l a d k =
    let (f, e, g) = progress mem r1 end h l in
    elim (Bool-cases (is_code f.1)) [
      | inr t ↦ rw (e, t) ((1436, false), refl, omega arith)
      | inl t ↦ elim (Bool-cases (ltb (f.0 - start) 1436)) [
        | inl s ↦ elim (Bool-cases b) [
          | inl y ↦
              let (less, most) = g t in
              let (c, r, m) =
                pick_slices-fits fuel mem start f.0 end b h l most
                  (omega (arith, ltb→lt (f.0 - start) 1436 s)) (omega (arith, less)) in
              (c, rw (e, t, s, y) (rw y at r), m)
          | inr y ↦
              rw (e, t, s, y)
                ((f.0 - start - 4, true), refl, omega (arith, ltb→lt (f.0 - start) 1436 s))
        ]
        | inr s ↦ elim (Bool-cases (ltb (f.0 - r1) 1440)) [
          | inl y ↦ rw (e, t, s, y) ((r1 - start - 4, true), refl, omega arith)
          | inr y ↦ rw (e, t, s, y) ((1436, false), refl, omega arith)
        ]
      ]
    ]
