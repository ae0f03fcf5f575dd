-- ===== src/Track/Reached.antt =====
-- What a pointer at an element that a consumer has had says of the queue up to it.
use feng.Base.{ℕ, ◌≤◌, ◌<◌, ◌≡◌, ap, inl, inr, Option, some, List, [], ◌∷◌, arith, ok}
use feng.Track.{MParserBuffer, Node, deref}
use feng.Track.Chain.{Chain, Good, deref-cons}
use feng.Track.Pointers.{HasAt}
use feng.Track.Unread.{Passed, Through, Through-Chain}

-- A pointer at an element that the consumer has had.
pub Through-at :
    (o : ℕ → ℕ) (p : Option ℕ) (k last : ℕ) (q : List Node) (a : ℕ) (e : MParserBuffer)
    (next : Option ℕ)
    → Good o p k q
    → deref a q ≡ ok (e, next)
    → e.seq_no ≤ last
    → Passed last (some a) q
    → Through last a q
unfolding deref
Through-at o p k last [] a e next g h l t = tt
Through-at o p k last (n ∷ q) a e next g h l t = elim (deref-cons n q a e next h) [
  | inl (i, j, r) ↦ (
    λ b. omega (arith, l, ap (λ (x : MParserBuffer). x.seq_no) j),
    Through-Chain o p last a n q (omega (arith, i)) g.1,
  )
  | inr (i, j) ↦ (λ b. t.0 (omega arith), go n q g.1 j t.1)
]
  where
    go :
        (prev : Node) (q : List Node)
        → Chain o p prev q
        → deref a q ≡ ok (e, next)
        → Passed last (some a) q
        → Through last a q
    go prev [] c h t = tt
    go prev (n ∷ q) c h t = elim (deref-cons n q a e next h) [
      | inl (i, j, r) ↦ (
        λ b. omega (arith, l, ap (λ (x : MParserBuffer). x.seq_no) j),
        Through-Chain o p last a n q (omega (arith, i)) c.3,
      )
      | inr (i, j) ↦ (λ b. t.0 (omega arith), go n q c.3 j t.1)
    ]

Chain-HasAt :
    (o : ℕ → ℕ) (p : Option ℕ) (prev : Node) (q : List Node) (a s : ℕ)
    → Chain o p prev q
    → HasAt a s q
    → (prev.addr < a) × (prev.elem.seq_no < s)
Chain-HasAt o p prev [] a s c h = absurd h
Chain-HasAt o p prev (n ∷ q) a s c (inl h) = (omega (arith, c.0, h.0), omega (arith, c.1, h.1))
Chain-HasAt o p prev (n ∷ q) a s c (inr h) =
    let r = Chain-HasAt o p n q a s c.3 h in (omega (arith, r.0, c.0), omega (arith, r.1, c.1))

Through-HasAt_behind :
    (o : ℕ → ℕ) (p : Option ℕ) (prev : Node) (q : List Node) (a s : ℕ)
    → Chain o p prev q
    → HasAt a s q
    → Through s a q
Through-HasAt_behind o p prev [] a s c h = absurd h
Through-HasAt_behind o p prev (n ∷ q) a s c (inl h) =
    (λ b. omega (arith, h.1), Through-Chain o p s a n q (omega (arith, h.0)) c.3)
Through-HasAt_behind o p prev (n ∷ q) a s c (inr h) =
    let r = Chain-HasAt o p n q a s c.3 h in
    (λ b. omega (arith, r.1), Through-HasAt_behind o p n q a s c.3 h)

-- Up to the last element that the consumer has had, there is nothing that it has not had.
pub Through-HasAt :
    (o : ℕ → ℕ) (p : Option ℕ) (k : ℕ) (q : List Node) (a s : ℕ)
    → Good o p k q
    → HasAt a s q
    → Through s a q
Through-HasAt o p k [] a s g h = absurd h
Through-HasAt o p k (n ∷ q) a s g (inl h) =
    (λ b. omega (arith, h.1), Through-Chain o p s a n q (omega (arith, h.0)) g.1)
Through-HasAt o p k (n ∷ q) a s g (inr h) =
    let r = Chain-HasAt o p n q a s g.1 h in
    (λ b. omega (arith, r.1), Through-HasAt_behind o p n q a s g.1 h)

-- A pointer leads to the number that it is known to have.
HasAt-deref_behind :
    (o : ℕ → ℕ) (p : Option ℕ) (prev : Node) (q : List Node) (a s : ℕ) (e : MParserBuffer)
    (next : Option ℕ)
    → Chain o p prev q
    → HasAt a s q
    → deref a q ≡ ok (e, next)
    → e.seq_no ≡ s
HasAt-deref_behind o p prev [] a s e next c h d = absurd h
HasAt-deref_behind o p prev (n ∷ q) a s e next c h d = elim (deref-cons n q a e next d) [
  | inl (i, j, r) ↦ elim h [
    | inl x ↦ omega (arith, x.1, ap (λ (y : MParserBuffer). y.seq_no) j)
    | inr x ↦ absurd (omega (arith, (Chain-HasAt o p n q a s c.3 x).0, i))
  ]
  | inr (i, j) ↦ elim h [
    | inl x ↦ absurd (i x.0)
    | inr x ↦ HasAt-deref_behind o p n q a s e next c.3 x j
  ]
]

pub HasAt-deref :
    (o : ℕ → ℕ) (p : Option ℕ) (k : ℕ) (q : List Node) (a s : ℕ) (e : MParserBuffer)
    (next : Option ℕ)
    → Good o p k q
    → HasAt a s q
    → deref a q ≡ ok (e, next)
    → e.seq_no ≡ s
HasAt-deref o p k [] a s e next g h d = absurd h
HasAt-deref o p k (n ∷ q) a s e next g h d = elim (deref-cons n q a e next d) [
  | inl (i, j, r) ↦ elim h [
    | inl x ↦ omega (arith, x.1, ap (λ (y : MParserBuffer). y.seq_no) j)
    | inr x ↦ absurd (omega (arith, (Chain-HasAt o p n q a s g.1 x).0, i))
  ]
  | inr (i, j) ↦ elim h [
    | inl x ↦ absurd (i x.0)
    | inr x ↦ HasAt-deref_behind o p n q a s e next g.1 x j
  ]
]
