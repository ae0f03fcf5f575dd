-- ===== src/Parser/Mpeg12/Found.antt =====
-- What `find_start_code` (src/media/parser_mpeg12.c) finds.
use feng.Base.{
  ℕ, ◌+◌, ◌-◌, ◌*◌, ◌/◌, ◌%◌, ◌^◌, ◌≤◌, ◌<◌, ◌≡◌, refl, ◌⊎◌, inl, inr, Bool, true, false, List, min,
  ok, ◌>>=◌, leb, leb→gt, leb→le, ◌==◌, if◌then◌else◌, Bool-cases, length, arith,
}
use feng.Parser.Mpeg12.{first_bytes, scan, word_at, last_word, find_start_code, is_code, no_state}
use feng.Parser.Mpeg12.StartCode.{
  nth, IsBytes, byte_at-nth, nth-lt, IsPrefix, NoneBefore, Scanned, scan-Scanned,
}

-- The first three rounds return only at the end.
abbrev Started : ℕ → ℕ → Bool × ℕ × ℕ → Type 0
Started p end t =
    ((t.0 ≡ true) × (is_code t.2 ≡ false) × (end ≤ p + 3))
    ⊎ ((t.0 ≡ false) × (t.1 ≡ p + 3) × (p + 3 < end))

first_state : (x : ℕ) → x < 256 → (4294967040 ≤ (4294967040 + x) % 2 ^ 32)
first_state x h = omega arith

second_shift : (s : ℕ) → 4294967040 ≤ s → s < 2 ^ 32 → 4294901760 ≤ s * 2 ^ 8 % 2 ^ 32
second_shift s h l = omega arith

second_state :
    (s x : ℕ)
    → 4294967040 ≤ s
    → s < 2 ^ 32
    → x < 256
    → 4294901760 ≤ (s * 2 ^ 8 % 2 ^ 32 + x) % 2 ^ 32
second_state s x h l k = omega arith

third_shift : (s : ℕ) → 4294901760 ≤ s → s < 2 ^ 32 → 4278190080 ≤ s * 2 ^ 8 % 2 ^ 32
third_shift s h l = omega arith

third_state :
    (s x : ℕ)
    → 4294901760 ≤ s
    → s < 2 ^ 32
    → x < 256
    → 4278190080 ≤ (s * 2 ^ 8 % 2 ^ 32 + x) % 2 ^ 32
third_state s x h l k = omega arith

no_code : (s : ℕ) → 4278190080 ≤ s → is_code s ≡ false
no_code s h = ground arith

not_256 : (s : ℕ) → 4278190080 ≤ s → (s == 256) ≡ false
not_256 s h = ground arith

first_bytes-Started :
    (mem : List ℕ) (p end : ℕ)
    → IsBytes mem
    → p < end
    → end ≤ length mem
    → (t : Bool × ℕ × ℕ) × (first_bytes 3 mem p end no_state ≡ ok t) × Started p end t
unfolding first_bytes
first_bytes-Started mem p end h l k =
    let x = nth mem p in
    let a1 = first_state x (nth-lt mem p h) in
    let s1 = (4294967040 + x) % 2 ^ 32 in
    let b1 : s1 < 2 ^ 32 = omega arith in
    rw (byte_at-nth mem p (omega arith)) (elim (Bool-cases (p + 1 == end)) [
      | inl e ↦
          rw e ((true, p + 1, s1), refl, inl (refl, no_code s1 (omega (arith, a1)), ground arith))
      | inr e ↦
          let y = nth mem (p + 1) in
          let a2 = second_state s1 y a1 b1 (nth-lt mem (p + 1) h) in
          let s2 = (s1 * 2 ^ 8 % 2 ^ 32 + y) % 2 ^ 32 in
          let b2 : s2 < 2 ^ 32 = omega arith in
          let l1 : p + 1 < end = ground arith in
          rw
            (
              e,
              byte_at-nth mem (p + 1) (omega arith),
              not_256 (s1 * 2 ^ 8 % 2 ^ 32) (omega (arith, second_shift s1 a1 b1)),
            )
            (elim (Bool-cases (p + 1 + 1 == end)) [
              | inl g ↦ rw g (
                (true, p + 1 + 1, s2),
                refl,
                inl (refl, no_code s2 (omega (arith, a2)), ground arith),
              )
              | inr g ↦
                  let z = nth mem (p + 1 + 1) in
                  let a3 = third_state s2 z a2 b2 (nth-lt mem (p + 1 + 1) h) in
                  let s3 = (s2 * 2 ^ 8 % 2 ^ 32 + z) % 2 ^ 32 in
                  let l2 : p + 1 + 1 < end = ground arith in
                  rw
                    (
                      g,
                      byte_at-nth mem (p + 1 + 1) (omega arith),
                      not_256 (s2 * 2 ^ 8 % 2 ^ 32) (omega (arith, third_shift s2 a2 b2)),
                    )
                    (elim (Bool-cases (p + 1 + 1 + 1 == end)) [
                      | inl j ↦
                          rw j (
                            (true, p + 1 + 1 + 1, s3),
                            refl,
                            inl (refl, no_code s3 a3, ground arith),
                          )
                      | inr j ↦
                          rw j (
                            (false, p + 1 + 1 + 1, s3),
                            refl,
                            inr (refl, omega arith, ground arith),
                          )
                    ])
            ])
    ])

-- What was found: the first prefix from `p` on that has a byte behind it before `end`, with `r`
-- behind that byte; or that there is none.
pub data IsFound (mem : List ℕ) (p end : ℕ) (f : ℕ × ℕ) : Type 0 where
  code_found :
      is_code f.1 ≡ true
      → p + 4 ≤ f.0
      → f.0 ≤ end
      → IsPrefix mem (f.0 - 4)
      → f.1 ≡ 256 + nth mem (f.0 - 1)
      → NoneBefore mem p (f.0 - 2)
      → IsFound mem p end f
  nothing_found : is_code f.1 ≡ false → NoneBefore mem p (end - 1) → IsFound mem p end f

word_of : List ℕ → ℕ → ℕ
word_of mem i =
    nth mem i * 2 ^ 24 + nth mem (i + 1) * 2 ^ 16 + nth mem (i + 2) * 2 ^ 8 + nth mem (i + 3)

word_at-word_of : (mem : List ℕ) (i : ℕ) → i + 3 < length mem → word_at mem i ≡ ok (word_of mem i)
unfolding word_of
word_at-word_of mem i h =
    rw
      (
        byte_at-nth mem i (omega arith),
        byte_at-nth mem (i + 1) (omega arith),
        byte_at-nth mem (i + 2) (omega arith),
        byte_at-nth mem (i + 3) (omega arith),
      )
      refl

word_of-prefix :
    (mem : List ℕ) (i : ℕ) → IsBytes mem → is_code (word_of mem i) ≡ true → IsPrefix mem i
unfolding word_of
word_of-prefix mem i h e =
    let a = nth-lt mem (i + 3) h in
    let d : word_of mem i / 2 ^ 8 ≡ 1 = ground arith in
    let b = nth-lt mem (i + 2) h in
    (omega (arith, a, b, d), omega (arith, a, b, d), omega (arith, a, b, d))

last_word-Found :
    (mem : List ℕ) (p end r : ℕ)
    → IsBytes mem
    → p + 3 < end
    → end ≤ length mem
    → Scanned mem p end r
    → (f : ℕ × ℕ) × (last_word mem end r ≡ ok f) × IsFound mem p end f
unfolding last_word word_of
last_word-Found mem p end r h l k (inl (a, n)) =
    let m : min r end ≡ end = omega arith in
    rw (m, word_at-word_of mem (end - 4) (omega arith))
      (
        (end - 4 + 4, word_of mem (end - 4)),
        refl,
        nothing_found
            (elim (Bool-cases (is_code (word_of mem (end - 4)))) [
              | inl e ↦
                  absurd
                    (n (end - 4) (omega arith) (omega arith) (word_of-prefix mem (end - 4) h e))
              | inr e ↦ e
            ])
            n,
      )
last_word-Found mem p end r h l k (inr (a, b, x, n)) =
    let m : min r end ≡ r = omega arith in
    let i : r - 4 + 3 ≡ r - 1 = omega arith in
    let j : r - 4 + 4 ≡ r = omega arith in
    let w : word_of mem (r - 4) ≡ 256 + nth mem (r - 1) = rw (x.0, x.1, x.2, i) refl in
    rw (m, word_at-word_of mem (r - 4) (omega arith), j)
      (
        (r, word_of mem (r - 4)),
        refl,
        code_found (rw w (coded (nth mem (r - 1)) (nth-lt mem (r - 1) h))) a b x w n,
      )
  where
    coded : (y : ℕ) → y < 256 → is_code (256 + y) ≡ true
    coded y l' = ground arith

-- On bytes, and with -1 as its state, `find_start_code` always returns; it finds the first prefix
-- 0, 0, 1 from `p` on that has a byte behind it before `end`, returns the place behind that byte,
-- and its state is 256 and that byte; or there is no such prefix, and its state says so.
pub find_start_code_lem :
    (mem : List ℕ) (p end : ℕ)
    → IsBytes mem
    → end ≤ length mem
    → (f : ℕ × ℕ) × (find_start_code mem p end (2 ^ 32 - 1) ≡ ok f) × IsFound mem p end f
unfolding find_start_code
find_start_code_lem mem p end h l = elim (Bool-cases (leb end p)) [
  | inl e ↦
      rw e ((end, 2 ^ 32 - 1), refl, nothing_found refl (λ q a b x. omega (arith, leb→le end p e)))
  | inr e ↦
      let less = leb→gt end p e in
      let (t, k, s) = first_bytes-Started mem p end h less l in rw (e, k) (go less t s)
]
  where
    go :
        p < end
        → (t : Bool × ℕ × ℕ) → Started p end t
        → (f : ℕ × ℕ) × ((if t.0
              then ok (t.1, t.2)
              else scan (end + 1) mem t.1 end >>= λ q. last_word mem end q)
            ≡ ok f)
          × IsFound mem p end f
    go less t (inl (y, c, d)) =
        rw y ((t.1, t.2), refl, nothing_found c (λ q a b x. omega (arith, d)))
    go less t (inr (y, c, d)) =
        let (r, e, s) =
          scan-Scanned (end + 1) mem p (p + 3) end (omega arith) (omega (arith, d)) l (omega arith)
            (λ q a b x. omega arith) in
        let g = last_word-Found mem p end r h d l s in rw (y, c, e) g
