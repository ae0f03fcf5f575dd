-- ===== src/Parser/Mpeg12/StartCode.antt =====
-- How `find_start_code` (src/media/parser_mpeg12.c) goes on in a frame.
use mathlib.Core.Path.{subst}
use feng.Base.{
  ℕ, zero, suc, ◌+◌, ◌-◌, ◌≤◌, ◌<◌, ◌≡◌, refl, sym, ap, ◌∙◌, ◌⊎◌, inl, inr, true, false, not, ◌&&◌,
  Option, none, some, List, [], ◌∷◌, Outcome, ok, ltb, ltb→lt, ltb→ge, ◌==◌, Bool-cases, length,
  All, arith,
}
use feng.Parser.Mpeg12.{byte_at, skip, scan}

-- The byte at a place, 0 behind the end.
abbrev pub nth : List ℕ → ℕ → ℕ
nth [] i = 0
nth (x ∷ mem) zero = x
nth (x ∷ mem) (suc i) = nth mem i

abbrev pub IsBytes : List ℕ → Type 0
IsBytes mem = All (λ (x : ℕ). x < 256) mem

pub byte_at-nth : (mem : List ℕ) (i : ℕ) → i < length mem → byte_at mem i ≡ ok (nth mem i)
byte_at-nth [] i h = absurd (omega arith)
byte_at-nth (x ∷ mem) zero h = refl
byte_at-nth (x ∷ mem) (suc i) h = byte_at-nth mem i (omega arith)

pub nth-lt : (mem : List ℕ) (i : ℕ) → IsBytes mem → nth mem i < 256
nth-lt [] i h = omega arith
nth-lt (x ∷ mem) zero (h, hs) = h
nth-lt (x ∷ mem) (suc i) (h, hs) = nth-lt mem i hs

-- The bytes 0, 0, 1 of a start code, the last of them at `q + 2`.
abbrev pub IsPrefix : List ℕ → ℕ → Type 0
IsPrefix mem q = (nth mem q ≡ 0) × (nth mem (q + 1) ≡ 0) × (nth mem (q + 2) ≡ 1)

-- No prefix starts from `p` on whose last byte stands before `to`.
abbrev pub NoneBefore : List ℕ → ℕ → ℕ → Type 0
NoneBefore mem p to = (q : ℕ) → p ≤ q → q + 2 < to → IsPrefix mem q → ⊥

-- The loop breaks at the end, or behind the last byte of a prefix; it passed none.
abbrev pub Scanned : List ℕ → ℕ → ℕ → ℕ → Type 0
Scanned mem p₀ end r =
    ((end ≤ r) × NoneBefore mem p₀ (end - 1))
    ⊎ ((p₀ + 4 ≤ r) × (r ≤ end) × IsPrefix mem (r - 4) × NoneBefore mem p₀ (r - 2))

-- One round of the second loop.
abbrev pub Skips : List ℕ → ℕ → ℕ → Option ℕ → Type 0
Skips mem p₀ p none = IsPrefix mem (p - 3)
Skips mem p₀ p (some n) = (0 < n) × (n ≤ 3) × NoneBefore mem p₀ (p + n - 1)

pub low_byte : (mem : List ℕ) (q j : ℕ) → IsPrefix mem q → q ≤ j → j ≤ q + 2 → nth mem j ≤ 1
low_byte mem q j (a, b, c) h l = elim (Bool-cases (j == q)) [
  | inl e ↦ let i : j ≡ q = ground arith in rw i (omega arith)
  | inr e ↦ elim (Bool-cases (j == q + 1)) [
    | inl k ↦ let i : j ≡ q + 1 = ground arith in rw i (omega arith)
    | inr k ↦ let i : j ≡ q + 2 = ground arith in rw i (omega arith)
  ]
]

zero_byte : (mem : List ℕ) (q j : ℕ) → IsPrefix mem q → q ≤ j → j ≤ q + 1 → nth mem j ≡ 0
zero_byte mem q j (a, b, c) h l = elim (Bool-cases (j == q)) [
  | inl e ↦ let i : j ≡ q = ground arith in rw i a
  | inr e ↦ let i : j ≡ q + 1 = ground arith in rw i b
]

pub NoneBefore-more :
    (mem : List ℕ) (p m m' : ℕ)
    → NoneBefore mem p m
    → ((q : ℕ) → m ≤ q + 2 → q + 2 < m' → IsPrefix mem q → ⊥)
    → NoneBefore mem p m'
NoneBefore-more mem p m m' n more q a b x = elim (Bool-cases (ltb (q + 2) m)) [
  | inl t ↦ n q a (ltb→lt (q + 2) m t) x
  | inr t ↦ more q (ltb→ge (q + 2) m t) b x
]

pub skip-Skips :
    (mem : List ℕ) (p₀ p : ℕ)
    → p₀ + 3 ≤ p
    → p < length mem
    → NoneBefore mem p₀ (p - 1)
    → (s : Option ℕ) × (skip mem p ≡ ok s) × Skips mem p₀ p s
unfolding skip
skip-Skips mem p₀ p h l n =
    rw
      (
        byte_at-nth mem (p - 1) (omega arith),
        byte_at-nth mem (p - 2) (omega arith),
        byte_at-nth mem (p - 3) (omega arith),
      )
      (elim (Bool-cases (ltb 1 (nth mem (p - 1)))) [
        | inl e ↦ rw e (some 3, refl, (omega arith, omega arith, three e))
        | inr e ↦ elim (Bool-cases (not (nth mem (p - 2) == 0))) [
          | inl k ↦ rw (e, k) (some 2, refl, (omega arith, omega arith, two k))
          | inr k ↦ elim (Bool-cases (nth mem (p - 3) == 0 && nth mem (p - 1) == 1)) [
            | inl j ↦ rw (e, k, j) (none, refl, found e k j)
            | inr j ↦ rw (e, k, j) (some 1, refl, (omega arith, omega arith, one j))
          ]
        ]
      ])
  where
    three : ltb 1 (nth mem (p - 1)) ≡ true → NoneBefore mem p₀ (p + 3 - 1)
    three e = NoneBefore-more mem p₀ (p - 1) (p + 3 - 1) n λ q a b x. absurd (
        omega (
          arith,
          ltb→lt 1 (nth mem (p - 1)) e,
          low_byte mem q (p - 1) x (omega arith) (omega arith),
        ))

    two : not (nth mem (p - 2) == 0) ≡ true → NoneBefore mem p₀ (p + 2 - 1)
    two k =
        NoneBefore-more mem p₀ (p - 1) (p + 2 - 1) n
          λ q a b x. let z = zero_byte mem q (p - 2) x (omega arith) (omega arith) in ground arith

    one : nth mem (p - 3) == 0 && nth mem (p - 1) == 1 ≡ false → NoneBefore mem p₀ (p + 1 - 1)
    one j = NoneBefore-more mem p₀ (p - 1) (p + 1 - 1) n λ q a b x.
        let i : q ≡ p - 3 = omega arith in
        let i' : q + 2 ≡ p - 1 = omega arith in
        let y : nth mem (p - 3) ≡ 0 = ap (nth mem) (sym i) ∙ x.0 in
        let z : nth mem (p - 1) ≡ 1 = ap (nth mem) (sym i') ∙ x.2 in ground arith

    found :
        ltb 1 (nth mem (p - 1)) ≡ false
        → not (nth mem (p - 2) == 0) ≡ false
        → nth mem (p - 3) == 0 && nth mem (p - 1) == 1 ≡ true
        → IsPrefix mem (p - 3)
    found e k j =
        let i : p - 3 + 1 ≡ p - 2 = omega arith in
        let i' : p - 3 + 2 ≡ p - 1 = omega arith in
        (ground arith, rw i (ground arith), rw i' (ground arith))

NoneBefore-less : (mem : List ℕ) (p m m' : ℕ) → NoneBefore mem p m → m' ≤ m → NoneBefore mem p m'
NoneBefore-less mem p m m' n h q a b x = n q a (omega arith) x

pub scan-Scanned :
    (fuel : ℕ) (mem : List ℕ) (p₀ p end : ℕ)
    → p₀ + 3 ≤ p
    → p ≤ end + 2
    → end ≤ length mem
    → end + 2 < fuel + p
    → NoneBefore mem p₀ (p - 1)
    → (r : ℕ) × (scan fuel mem p end ≡ ok r) × Scanned mem p₀ end r
unfolding scan
scan-Scanned zero mem p₀ p end h i l f n = absurd (omega arith)
scan-Scanned (suc fuel) mem p₀ p end h i l f n = elim (Bool-cases (ltb p end)) [
  | inr t ↦ rw t (
    p,
    refl,
    inl (
      ltb→ge p end t,
      NoneBefore-less mem p₀ (p - 1) (end - 1) n (omega (arith, ltb→ge p end t)),
    ),
  )
  | inl t ↦
      let less = ltb→lt p end t in
      let (s, e, k) = skip-Skips mem p₀ p h (omega (arith, less)) n in
      rw (t, e)
        (go less
          (λ m a b k'.
            scan-Scanned fuel mem p₀ (p + m) end (omega arith) (omega arith) l (omega arith) k')
          s k)
]
  where
    go :
        p < end
        → ((m : ℕ)
            → 0 < m
            → m ≤ 3
            → NoneBefore mem p₀ (p + m - 1)
            → (r : ℕ) × (scan fuel mem (p + m) end ≡ ok r) × Scanned mem p₀ end r)
        → (s : Option ℕ) → Skips mem p₀ p s
        → (r : ℕ) × ((elim s as (λ x. Outcome ℕ) [
          | none ↦ ok (p + 1)
          | some m ↦ scan fuel mem (p + m) end
        ])
            ≡ ok r)
          × Scanned mem p₀ end r
    go less on none k =
        let j : p + 1 - 4 ≡ p - 3 = omega arith in
        (
          p + 1,
          refl,
          inr (
            omega arith,
            omega arith,
            subst (IsPrefix mem) (sym j) k,
            NoneBefore-less mem p₀ (p - 1) (p + 1 - 2) n (omega arith),
          ),
        )
    go less on (some m) (a, b, k) = on m a b k
