-- ===== src/Rtcp/Reading.antt =====
-- How far `rtcp_handle` of src/network/rtcp.c reads.
use feng.Base.{
  ℕ, zero, suc, ◌+◌, ◌-◌, ◌*◌, ◌%◌, ◌^◌, ◌<◌, ◌≤◌, ◌≡◌, refl, ap, ◌∙◌, true, false, List, [], ◌∷◌,
  ◌||◌, inl, inr, ok, crash, ltb, ◌==◌, length, drop, arith, lt→ltb, ge→ltb, ltb→lt, ltb→ge,
  length-drop, Bool-cases,
}
use feng.Base.Bytes.{of_be16}
use feng.Rtcp.{
  touch, report_blocks, parse_receiver_report, handle_type, Log, handle_loop, rtcp_handle,
}

touch-ok : (n : ℕ) (mem : List ℕ) → n ≤ length mem → touch n mem ≡ ok tt
unfolding touch
touch-ok zero mem h = refl
touch-ok (suc n) [] h = absurd (omega arith)
touch-ok (suc n) (x ∷ mem) h = touch-ok n mem (omega arith)

touch-crash : (n : ℕ) (mem : List ℕ) → length mem < n → touch n mem ≡ crash
unfolding touch
touch-crash zero mem h = absurd (omega arith)
touch-crash (suc n) [] h = refl
touch-crash (suc n) (x ∷ mem) h = touch-crash n mem (omega arith)

blocks-ok : (count : ℕ) (mem : List ℕ) → 24 * count ≤ length mem → report_blocks count mem ≡ ok tt
unfolding report_blocks
blocks-ok zero mem h = refl
blocks-ok (suc count) mem h =
    rw (touch-ok 24 mem (omega arith))
      (blocks-ok count (drop 24 mem) (omega (arith, length-drop 24 mem)))

blocks-crash :
    (count : ℕ) (mem : List ℕ) → length mem < 24 * count → report_blocks count mem ≡ crash
unfolding report_blocks
blocks-crash zero mem h = absurd (omega arith)
blocks-crash (suc count) mem h = elim (Bool-cases (ltb (length mem) 24)) [
  | inl l ↦ rw (touch-crash 24 mem (ltb→lt (length mem) 24 l))
  | inr g ↦
      let e : 24 ≤ length mem = ltb→ge (length mem) 24 g in
      rw (touch-ok 24 mem e) (blocks-crash count (drop 24 mem) (omega (arith, length-drop 24 mem)))
]

report-ok :
    (count : ℕ) (mem : List ℕ)
    → 4 + 24 * count ≤ length mem
    → parse_receiver_report mem count ≡ ok tt
unfolding parse_receiver_report
report-ok count mem h =
    rw (touch-ok 4 mem (omega arith))
      (blocks-ok count (drop 4 mem) (omega (arith, length-drop 4 mem)))

type-ok :
    (type count : ℕ) (mem : List ℕ)
    → 8 + 24 * count ≤ length mem
    → handle_type type count mem ≡ ok tt
type-ok type count mem h =
    let e : parse_receiver_report (drop 4 mem) count ≡ ok tt =
      report-ok count (drop 4 mem) (omega (arith, length-drop 4 mem)) in
    elim (Bool-cases ((type == 200) || (type == 201))) [ inl t ↦ rw (t, e) | inr t ↦ rw t ]

loop-ok :
    (fuel : ℕ) (mem : List ℕ) (len : ℕ)
    → len < fuel
    → len + 752 ≤ length mem
    → (l : Log) × (handle_loop fuel mem len ≡ ok l)
unfolding handle_loop
loop-ok zero mem len f h = absurd (omega arith)
loop-ok (suc fuel) [] len f h = absurd (omega arith)
loop-ok (suc fuel) (_ ∷ []) len f h = absurd (omega arith)
loop-ok (suc fuel) (_ ∷ _ ∷ []) len f h = absurd (omega arith)
loop-ok (suc fuel) (_ ∷ _ ∷ _ ∷ []) len f h = absurd (omega arith)
loop-ok (suc fuel) (a ∷ type ∷ b ∷ c ∷ mem) len f h =
    let size = (of_be16 b c + 1) * 4 in
    let m : List ℕ = a ∷ type ∷ b ∷ c ∷ mem in
    elim (Bool-cases (ltb 4 len)) [
      | inr done ↦ (([], false), rw done)
      | inl more ↦ elim (Bool-cases (ltb len size)) [
        | inl bad ↦ (([], true), rw (more, bad))
        | inr good ↦
            let fits : size ≤ len = ltb→ge len size good in
            let (l, e) =
              loop-ok fuel (drop size m) (len - size) (omega arith)
                (omega (arith, length-drop size m)) in
            (
              ((type, size) ∷ l.0, l.1),
              rw (more, good, type-ok type (a % 2 ^ 5) m (omega arith), e),
            )
      ]
    ]

-- `rtcp_handle` returns, whatever the packet holds, if 752 bytes behind it can be read: a header,
-- a source and 31 report blocks.
pub rtcp_handle_lem :
    (mem : List ℕ) (len : ℕ) → len + 752 ≤ length mem → (l : Log) × (rtcp_handle mem len ≡ ok l)
unfolding rtcp_handle
rtcp_handle_lem mem len h = loop-ok (len + 1) mem len (omega arith) h

-- `rtcp_handle` of a receiver report of its full length, whose count asks for more report blocks
-- than it holds, reads behind the packet.
pub rtcp_handle-overreads :
    (a b c : ℕ) (mem : List ℕ)
    → 4 ≤ length mem
    → length mem + 4 ≡ (of_be16 b c + 1) * 4
    → length mem < 4 + 24 * (a % 2 ^ 5)
    → rtcp_handle (a ∷ 201 ∷ b ∷ c ∷ mem) (length mem + 4) ≡ crash
unfolding rtcp_handle handle_loop parse_receiver_report
rtcp_handle-overreads a b c mem h e l =
    ap (λ f. handle_loop f (a ∷ 201 ∷ b ∷ c ∷ mem) (length mem + 4)) {y = suc (length mem + 4)}
      (omega arith)
    ∙ rw (
      lt→ltb 4 (length mem + 4) (omega arith),
      ge→ltb (length mem + 4) ((of_be16 b c + 1) * 4) (omega arith),
      touch-ok 4 mem h,
      blocks-crash (a % 2 ^ 5) (drop 4 mem) (omega (arith, length-drop 4 mem)),
    )
