-- ===== src/Track/Unread.antt =====
-- What of a producer's queue a consumer has not had yet.
use mathlib.Core.Path.{subst}
use feng.Base.{
  ℕ, ◌≤◌, ◌<◌, ◌≡◌, refl, inl, inr, Option, none, some, List, [], ◌∷◌, arith, ok, ◌==◌, leb, le→leb,
  gt→leb, if◌then◌else◌, Bool-cases, All,
}
use feng.Track.{MParserBuffer, Node, deref, set_seen, head_addr}
use feng.Track.Chain.{Chain, Good, deref-cons, deref-lt}

-- An element, less how often it was seen.
abbrev pub plain : MParserBuffer → MParserBuffer
plain e = record e { seen = 0 }

-- The first element with a number above `last`, and its address.
abbrev pub first_unread : ℕ → List Node → Option (ℕ × MParserBuffer)
first_unread last [] = none
first_unread last (n ∷ q) =
    if leb n.elem.seq_no last then first_unread last q else some (n.addr, plain n.elem)

abbrev IsBefore : ℕ → Option ℕ → Type 0
IsBefore x none = Unit
IsBefore x (some a) = x < a

-- What stands before a pointer, or all where it is NULL, has no number above `last`.
abbrev pub Passed : ℕ → Option ℕ → List Node → Type 0
Passed last p = All (λ (n : Node). IsBefore n.addr p → n.elem.seq_no ≤ last)

-- So it is for what stands up to an address.
abbrev pub Through : ℕ → ℕ → List Node → Type 0
Through last a = All (λ (n : Node). n.addr ≤ a → n.elem.seq_no ≤ last)

pub first_unread-set_seen :
    (last a s : ℕ) (q : List Node) → first_unread last (set_seen a s q) ≡ first_unread last q
unfolding set_seen
first_unread-set_seen last a s [] = refl
first_unread-set_seen last a s (n ∷ q) = elim (Bool-cases (n.addr == a)) [
  | inl e ↦ rw e
  | inr e ↦ rw (e, first_unread-set_seen last a s q)
]

pub Passed-set_seen :
    (last : ℕ) (p : Option ℕ) (a s : ℕ) (q : List Node)
    → Passed last p q
    → Passed last p (set_seen a s q)
unfolding set_seen
Passed-set_seen last p a s [] h = tt
Passed-set_seen last p a s (n ∷ q) h = elim (Bool-cases (n.addr == a)) [
  | inl e ↦ rw e h
  | inr e ↦ rw e (h.0, Passed-set_seen last p a s q h.1)
]

-- Nothing stands before an address up to that of `prev`.
Passed-Chain :
    (o : ℕ → ℕ) (p : Option ℕ) (last a : ℕ) (prev : Node) (q : List Node)
    → a ≤ prev.addr
    → Chain o p prev q
    → Passed last (some a) q
Passed-Chain o p last a prev [] l c = tt
Passed-Chain o p last a prev (n ∷ q) l c =
    (λ b. absurd (omega (arith, b, c.0)), Passed-Chain o p last a n q (omega (arith, c.0)) c.3)

pub Through-Chain :
    (o : ℕ → ℕ) (p : Option ℕ) (last a : ℕ) (prev : Node) (q : List Node)
    → a ≤ prev.addr
    → Chain o p prev q
    → Through last a q
Through-Chain o p last a prev [] l c = tt
Through-Chain o p last a prev (n ∷ q) l c =
    (λ b. absurd (omega (arith, b, c.0)), Through-Chain o p last a n q (omega (arith, c.0)) c.3)

pub Passed-head :
    (o : ℕ → ℕ) (p : Option ℕ) (k last : ℕ) (q : List Node)
    → Good o p k q
    → Passed last (head_addr q) q
Passed-head o p k last [] g = tt
Passed-head o p k last (n ∷ q) g =
    (λ b. absurd (omega (arith, b)), Passed-Chain o p last n.addr n q (omega arith) g.1)

Passed-head_behind :
    (o : ℕ → ℕ) (p : Option ℕ) (last : ℕ) (prev : Node) (q : List Node)
    → Chain o p prev q
    → Passed last (head_addr q) q
Passed-head_behind o p last prev [] c = tt
Passed-head_behind o p last prev (n ∷ q) c =
    (λ b. absurd (omega (arith, b)), Passed-Chain o p last n.addr n q (omega arith) c.3)

-- One element further.
pub Passed-next :
    (o : ℕ → ℕ) (p : Option ℕ) (last : ℕ) (n : Node) (q : List Node) (a : ℕ) (e : MParserBuffer)
    (next : Option ℕ)
    → Chain o p n q
    → deref a (n ∷ q) ≡ ok (e, next)
    → Through last a (n ∷ q)
    → Passed last next (n ∷ q)
unfolding deref
Passed-next o p last n [] a e next c h t = elim (deref-cons n [] a e next h) [
  | inl (i, j, k) ↦ (λ b. t.0 (omega arith), tt)
  | inr (i, j) ↦ cc
]
Passed-next o p last n (m ∷ q) a e next c h t = elim (deref-cons n (m ∷ q) a e next h) [
  | inl (i, j, k) ↦ (
    λ b. t.0 (omega arith),
    subst (λ x. Passed last x (m ∷ q)) k (Passed-head_behind o p last n (m ∷ q) c),
  )
  | inr (i, j) ↦
      let d = deref-lt o p n (m ∷ q) a e next c j in
      (λ b. t.0 (omega (arith, d.0)), Passed-next o p last m q a e next c.3 j t.1)
]

-- Where a pointer that passed all that was had stands: at the first element that was not, or at the
-- end, where there is none.
pub first_unread-end : (last : ℕ) (q : List Node) → Passed last none q → first_unread last q ≡ none
first_unread-end last [] h = refl
first_unread-end last (n ∷ q) h =
    rw (le→leb n.elem.seq_no last (h.0 tt)) (first_unread-end last q h.1)

first_unread_at :
    {last : ℕ} (n : Node) (q : List Node) (a : ℕ) (e : MParserBuffer)
    → n.addr ≡ a
    → n.elem ≡ e
    → last < e.seq_no
    → first_unread last (n ∷ q) ≡ some (a, plain e)
first_unread_at {last = last} n q a e i j l = rw (j, i, gt→leb e.seq_no last l) refl

first_unread-deref_behind :
    (o : ℕ → ℕ) (p : Option ℕ) (last : ℕ) (prev : Node) (q : List Node) (a : ℕ) (e : MParserBuffer)
    (next : Option ℕ)
    → Chain o p prev q
    → Passed last (some a) q
    → deref a q ≡ ok (e, next)
    → last < e.seq_no
    → first_unread last q ≡ some (a, plain e)
unfolding deref
first_unread-deref_behind o p last prev [] a e next c t d l = cc
first_unread-deref_behind o p last prev (n ∷ q) a e next c t d l =
    elim (deref-cons n q a e next d) [
      | inl (i, j, r) ↦ first_unread_at n q a e i j l
      | inr (i, j) ↦
          let b = deref-lt o p n q a e next c.3 j in
          rw (le→leb n.elem.seq_no last (t.0 b.0))
            (first_unread-deref_behind o p last n q a e next c.3 t.1 j l)
    ]

pub first_unread-deref :
    (o : ℕ → ℕ) (p : Option ℕ) (k last : ℕ) (q : List Node) (a : ℕ) (e : MParserBuffer)
    (next : Option ℕ)
    → Good o p k q
    → Passed last (some a) q
    → deref a q ≡ ok (e, next)
    → last < e.seq_no
    → first_unread last q ≡ some (a, plain e)
unfolding deref
first_unread-deref o p k last [] a e next g t d l = cc
first_unread-deref o p k last (n ∷ q) a e next g t d l = elim (deref-cons n q a e next d) [
  | inl (i, j, r) ↦ first_unread_at n q a e i j l
  | inr (i, j) ↦
      let b = deref-lt o p n q a e next g.1 j in
      rw (le→leb n.elem.seq_no last (t.0 b.0))
        (first_unread-deref_behind o p last n q a e next g.1 t.1 j l)
]

pub first_unread-tail :
    (last : ℕ) (n : Node) (q : List Node)
    → n.elem.seq_no ≤ last
    → first_unread last (n ∷ q) ≡ first_unread last q
first_unread-tail last n q l = rw (le→leb n.elem.seq_no last l)
