-- ===== src/Track/Pointers.antt =====
-- Pointers into a producer's queue: live ones, the nodes that they have before them, and what a
-- consumer's stored pointer and serial numbers say of the queue.
use feng.Base.{
  ℕ, ◌+◌, ◌≤◌, ◌<◌, ◌≡◌, refl, ap, ◌∙◌, ◌≢◌, ◌⊎◌, inl, inr, Option, none, some, List, [], ◌∷◌,
  arith, ok, length, eq→==, ne→==,
}
use mathlib.Core.Path.{subst}
use native.Mathlib.Decide.{ℕ_discrete}
use feng.Track.{MParserBuffer, Node, deref, set_seen, head_addr}
use feng.Track.Chain.{
  Chain, IsLive, span, Beyond, Beyond-le, with_seen, head_addr-Beyond, deref-cons, deref-lt,
  set_seen_later, set_seen_at, set_seen_nil,
}

pub IsLive-head : (q : List Node) → IsLive (head_addr q) q
unfolding deref
IsLive-head [] = tt
IsLive-head (n ∷ q) = (n.elem, head_addr q, ground arith)

pub IsLive-cons :
    (p : Option ℕ) (n : Node) (q : List Node) → Beyond n.addr p → IsLive p q → IsLive p (n ∷ q)
unfolding deref
IsLive-cons none n q b l = tt
IsLive-cons (some a) n q b l = (l.0, l.1, ground (arith, l.2))

-- The pointer after a live one is NULL or live.
pub IsLive-next :
    (o : ℕ → ℕ) (p : Option ℕ) (prev : Node) (q : List Node) (a : ℕ) (e : MParserBuffer)
    (next : Option ℕ)
    → Chain o p prev q
    → deref a q ≡ ok (e, next)
    → IsLive next q
unfolding deref
IsLive-next o p prev [] a e next c h = cc
IsLive-next o p prev (n ∷ q) a e next c h = elim (deref-cons n q a e next h) [
  | inl (i, j, k) ↦
      subst (λ x. IsLive x (n ∷ q)) k
        (IsLive-cons (head_addr q) n q (head_addr-Beyond o p n q c.3) (IsLive-head q))
  | inr (i, j) ↦
      let l = deref-lt o p n q a e next c.3 j in
      IsLive-cons next n q (Beyond-le n.addr a next (omega arith) l.1)
        (IsLive-next o p n q a e next c.3 j)
]

head_addr-set_seen : (a s : ℕ) (q : List Node) → head_addr (set_seen a s q) ≡ head_addr q
unfolding set_seen
head_addr-set_seen a s [] = refl
head_addr-set_seen a s (n ∷ q) = ground arith

deref_here :
    (n : Node) (q : List Node) (a : ℕ) → n.addr ≡ a → deref a (n ∷ q) ≡ ok (n.elem, head_addr q)
unfolding deref
deref_here n q a h = ground arith

deref_later : (n : Node) (q : List Node) (a : ℕ) → n.addr ≢ a → deref a (n ∷ q) ≡ deref a q
unfolding deref
deref_later n q a h = ground arith

set_seen_cases :
    (a s : ℕ) (n : Node) (q : List Node)
    → ((n.addr ≡ a) × (set_seen a s (n ∷ q) ≡ with_seen n s ∷ q))
      ⊎ ((n.addr ≢ a) × (set_seen a s (n ∷ q) ≡ n ∷ set_seen a s q))
set_seen_cases a s n q = elim (ℕ_discrete n.addr a) [
  | yes e ↦ inl (e, set_seen_at n q a s e)
  | no e ↦ inr (e, set_seen_later n q a s e)
]

-- Counting changes neither the nodes nor their order.
pub IsLive-set_seen :
    (p : Option ℕ) (a s : ℕ) (q : List Node) → IsLive p q → IsLive p (set_seen a s q)
IsLive-set_seen none a s q l = tt
IsLive-set_seen (some b) a s [] l = rw set_seen_nil l
IsLive-set_seen (some b) a s (n ∷ q) l = elim (deref-cons n q b l.0 l.1 l.2) [
  | inl (i, j, k) ↦ elim (set_seen_cases a s n q) [
    | inl (d, r) ↦ rw r (_, _, deref_here (with_seen n s) q b i)
    | inr (d, r) ↦ rw r (_, _, deref_here n (set_seen a s q) b i)
  ]
  | inr (i, j) ↦ elim (set_seen_cases a s n q) [
    | inl (d, r) ↦ rw r (_, _, deref_later (with_seen n s) q b i ∙ j)
    | inr (d, r) ↦
        let m = IsLive-set_seen (some b) a s q (l.0, l.1, j) in
        rw r (m.0, m.1, deref_later n (set_seen a s q) b i ∙ m.2)
  ]
]

pub length-set_seen : (a s : ℕ) (q : List Node) → length (set_seen a s q) ≡ length q
unfolding set_seen
length-set_seen a s [] = refl
length-set_seen a s (n ∷ q) = ground (arith, length-set_seen a s q)

pub span-set_seen : (p : Option ℕ) (a s : ℕ) (q : List Node) → span p (set_seen a s q) ≡ span p q
unfolding set_seen
span-set_seen none a s q = refl
span-set_seen (some b) a s [] = refl
span-set_seen (some b) a s (n ∷ q) =
    ground (arith, span-set_seen (some b) a s q, length-set_seen a s q)

pub span-cons :
    (p : Option ℕ) (n : Node) (q : List Node) → Beyond n.addr p → span p (n ∷ q) ≡ span p q
span-cons none n q b = refl
span-cons (some a) n q b = rw (ne→== n.addr a (omega arith))

pub span-head : (q : List Node) → span (head_addr q) q ≡ length q
span-head [] = refl
span-head (n ∷ q) = rw (eq→== n.addr n.addr refl)

pub span-le_length : (p : Option ℕ) (q : List Node) → span p q ≤ length q
span-le_length none q = omega arith
span-le_length (some a) [] = omega arith
span-le_length (some a) (n ∷ q) = ground (arith, span-le_length (some a) q)

-- One round of a walk leaves one node fewer.
pub span-next :
    (o : ℕ → ℕ) (p : Option ℕ) (prev : Node) (q : List Node) (a : ℕ) (e : MParserBuffer)
    (next : Option ℕ)
    → Chain o p prev q
    → deref a q ≡ ok (e, next)
    → span next q + 1 ≡ span (some a) q
unfolding deref
span-next o p prev [] a e next c h = cc
span-next o p prev (n ∷ q) a e next c h = elim (deref-cons n q a e next h) [
  | inl (i, j, k) ↦
      rw (eq→== n.addr a i, ← k, span-cons (head_addr q) n q (head_addr-Beyond o p n q c.3))
        (omega (arith, span-head q))
  | inr (i, j) ↦
      let l = deref-lt o p n q a e next c.3 j in
      rw (ne→== n.addr a i, span-cons next n q (Beyond-le n.addr a next (omega arith) l.1))
        (span-next o p n q a e next c.3 j)
]

-- Some node has this address and this sequence number.
abbrev pub HasAt : ℕ → ℕ → List Node → Type 0
HasAt a seq [] = ⊥
HasAt a seq (n ∷ q) = ((n.addr ≡ a) × (n.elem.seq_no ≡ seq)) ⊎ HasAt a seq q

-- A pointer to a node with this sequence number is live, or the head has a later one.
abbrev pub Reaches : ℕ → ℕ → List Node → Type 0
Reaches a seq [] = ⊥
Reaches a seq (n ∷ q) = (seq < n.elem.seq_no) ⊎ HasAt a seq (n ∷ q)

HasAt-set_seen : (a seq b s : ℕ) (q : List Node) → HasAt a seq q → HasAt a seq (set_seen b s q)
HasAt-set_seen a seq b s [] h = absurd h
HasAt-set_seen a seq b s (n ∷ q) h = elim (set_seen_cases b s n q) [
  | inl (d, r) ↦ rw r (elim h [ inl x ↦ inl x | inr y ↦ inr y ])
  | inr (d, r) ↦ rw r (elim h [ inl x ↦ inl x | inr y ↦ inr (HasAt-set_seen a seq b s q y) ])
]

pub Reaches-set_seen :
    (a seq b s : ℕ) (q : List Node) → Reaches a seq q → Reaches a seq (set_seen b s q)
Reaches-set_seen a seq b s [] h = absurd h
Reaches-set_seen a seq b s (n ∷ q) (inl l) = elim (set_seen_cases b s n q) [
  | inl (d, r) ↦ rw r (inl l)
  | inr (d, r) ↦ rw r (inl l)
]
Reaches-set_seen a seq b s (n ∷ q) (inr h) = elim (set_seen_cases b s n q) [
  | inl (d, r) ↦ rw r (inr (elim h [ inl x ↦ inl x | inr y ↦ inr y ]))
  | inr (d, r) ↦ rw r (inr (elim h [ inl x ↦ inl x | inr y ↦ inr (HasAt-set_seen a seq b s q y) ]))
]

-- A node that leaves at the head takes no pointer with it that the serial numbers do not show.
pub Reaches-pop :
    (a seq : ℕ) (n m : Node) (q : List Node)
    → n.elem.seq_no < m.elem.seq_no
    → Reaches a seq (n ∷ m ∷ q)
    → Reaches a seq (m ∷ q)
Reaches-pop a seq n m q l (inl h) = inl (omega arith)
Reaches-pop a seq n m q l (inr (inl h)) = inl (omega arith)
Reaches-pop a seq n m q l (inr (inr h)) = inr h

pub HasAt→IsLive : (a seq : ℕ) (q : List Node) → HasAt a seq q → IsLive (some a) q
HasAt→IsLive a seq [] h = absurd h
HasAt→IsLive a seq (n ∷ q) h = elim (ℕ_discrete n.addr a) [
  | yes e ↦ (_, _, deref_here n q a e)
  | no e ↦ elim h [
    | inl x ↦ absurd (e x.0)
    | inr y ↦ let l = HasAt→IsLive a seq q y in (l.0, l.1, deref_later n q a e ∙ l.2)
  ]
]

pub deref→HasAt :
    (q : List Node) (a : ℕ) (e : MParserBuffer) (next : Option ℕ)
    → deref a q ≡ ok (e, next)
    → HasAt a e.seq_no q
unfolding deref
deref→HasAt [] a e next h = cc
deref→HasAt (n ∷ q) a e next h = elim (deref-cons n q a e next h) [
  | inl (i, j, k) ↦ inl (i, ap (λ (x : MParserBuffer). x.seq_no) j)
  | inr (i, j) ↦ inr (deref→HasAt q a e next j)
]
