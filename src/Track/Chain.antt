-- ===== src/Track/Chain.antt =====
-- The shape of a producer's queue: what addresses, sequence numbers and seen counts satisfy, given
-- where one consumer's pointer stands (`p`) and how many others stand at an address (`o`).
use feng.Base.{
  ℕ, suc, ◌+◌, ◌≤◌, ◌<◌, ◌≡◌, refl, sym, ◌≢◌, ◌⊎◌, inl, inr, Option, none, some, List, [], ◌∷◌,
  arith, ok, crash, ◌==◌, if◌then◌else◌, length, Bool-cases, eq→==, ne→==, All,
}
use mathlib.Core.Path.{subst}
use feng.Track.{MParserBuffer, Node, deref, set_seen, head_addr}

abbrev pub points : Option ℕ → ℕ → ℕ
points none x = 0
points (some b) x = if b == x then 1 else 0

-- Behind a node: addresses and sequence numbers grow, and the seen counts fall by at least the
-- number of consumers whose pointer is at the later node.
abbrev pub Chain : (ℕ → ℕ) → Option ℕ → Node → List Node → Type 0
Chain o p prev [] = Unit
Chain o p prev (n ∷ q) =
    (prev.addr < n.addr)
    × (prev.elem.seq_no < n.elem.seq_no)
    × (n.elem.seen + points p n.addr + o n.addr ≤ prev.elem.seen)
    × Chain o p n q

-- A whole queue, for a number of consumers.
abbrev pub Good : (ℕ → ℕ) → Option ℕ → ℕ → List Node → Type 0
Good o p k [] = Unit
Good o p k (n ∷ q) = (n.elem.seen < k) × Chain o p n q

-- A pointer is NULL, or some live node has its address.
abbrev pub IsLive : Option ℕ → List Node → Type 0
IsLive none q = Unit
IsLive (some a) q = (e : MParserBuffer) × (next : Option ℕ) × (deref a q ≡ ok (e, next))

-- The nodes from an address on.
abbrev pub span : Option ℕ → List Node → ℕ
span none q = 0
span (some a) [] = 0
span (some a) (n ∷ q) = if n.addr == a then suc (length q) else span (some a) q

-- Nothing behind the node `prev` changes if the pointers differ at no later address.
pub Chain-weaken :
    (o : ℕ → ℕ) (p p' : Option ℕ) (prev : Node) (q : List Node)
    → ((x : ℕ) → prev.addr < x → points p' x ≤ points p x)
    → Chain o p prev q
    → Chain o p' prev q
Chain-weaken o p p' prev [] h c = tt
Chain-weaken o p p' prev (n ∷ q) h c = (
  c.0,
  c.1,
  omega (arith, h n.addr c.0),
  Chain-weaken o p p' n q (λ x l. h x (omega (arith, c.0))) c.3,
)

pub points-none_le : (p : Option ℕ) (x : ℕ) → points none x ≤ points p x
points-none_le p x = omega arith

pub points_other : (b x : ℕ) → b ≢ x → points (some b) x ≡ 0
points_other b x h = ground arith

pub points_here : (b x : ℕ) → b ≡ x → points (some x) b ≡ 1
points_here b x h = ground arith

pub points_self : (b : ℕ) → points (some b) b ≡ 1
points_self b = ground arith

-- Only the address and the sequence number of `prev` count, and a seen count that is no lower.
pub Chain-raise :
    (o : ℕ → ℕ) (p : Option ℕ) (prev prev' : Node) (q : List Node)
    → prev'.addr ≡ prev.addr
    → prev'.elem.seq_no ≡ prev.elem.seq_no
    → prev.elem.seen ≤ prev'.elem.seen
    → Chain o p prev q
    → Chain o p prev' q
Chain-raise o p prev prev' [] a s h c = tt
Chain-raise o p prev prev' (n ∷ q) a s h c = (omega arith, omega arith, omega arith, c.3)

-- A pointer that is NULL or leads behind an address.
abbrev pub Beyond : ℕ → Option ℕ → Type 0
Beyond a none = Unit
Beyond a (some b) = a < b

pub points-Beyond : (a : ℕ) (p : Option ℕ) (x : ℕ) → Beyond a p → x ≤ a → points p x ≡ 0
points-Beyond a none x h l = refl
points-Beyond a (some b) x h l = ground arith

pub Beyond-le : (x a : ℕ) (p : Option ℕ) → x ≤ a → Beyond a p → Beyond x p
Beyond-le x a none l h = tt
Beyond-le x a (some b) l h = omega arith

pub deref-cons :
    (n : Node) (q : List Node) (a : ℕ) (e : MParserBuffer) (next : Option ℕ)
    → deref a (n ∷ q) ≡ ok (e, next)
    → ((n.addr ≡ a) × (n.elem ≡ e) × (head_addr q ≡ next))
      ⊎ ((n.addr ≢ a) × (deref a q ≡ ok (e, next)))
unfolding deref
deref-cons n q a e next h = elim (Bool-cases (n.addr == a)) [
  | inl here ↦ inl (ground arith, cc (rw here at h), cc (rw here at h))
  | inr later ↦ inr (ground arith, rw later at h)
]

pub head_addr-Beyond :
    (o : ℕ → ℕ) (p : Option ℕ) (prev : Node) (q : List Node)
    → Chain o p prev q
    → Beyond prev.addr (head_addr q)
head_addr-Beyond o p prev [] c = tt
head_addr-Beyond o p prev (n ∷ q) c = c.0

-- A live pointer behind `prev` has a higher address, and the one after it a higher one still.
pub deref-lt :
    (o : ℕ → ℕ) (p : Option ℕ) (prev : Node) (q : List Node) (a : ℕ) (e : MParserBuffer)
    (next : Option ℕ)
    → Chain o p prev q
    → deref a q ≡ ok (e, next)
    → (prev.addr < a) × Beyond a next
unfolding deref
deref-lt o p prev [] a e next c h = cc
deref-lt o p prev (n ∷ q) a e next c h = elim (deref-cons n q a e next h) [
  | inl (i, j, k) ↦ (rw (← i) (c.0), rw (← i, ← k) (head_addr-Beyond o p n q c.3))
  | inr (i, j) ↦ let r = deref-lt o p n q a e next c.3 j in (omega arith, r.1)
]

-- No node behind `prev` is at an address up to that of `prev`.
pub deref-old :
    (o : ℕ → ℕ) (p : Option ℕ) (prev : Node) (q : List Node) (a : ℕ)
    → Chain o p prev q
    → a ≤ prev.addr
    → deref a q ≡ crash
unfolding deref
deref-old o p prev [] a c h = refl
deref-old o p prev (n ∷ q) a c h = ground (arith, deref-old o p n q a)

abbrev pub with_seen : Node → ℕ → Node
with_seen n s = record n { elem = record (n.elem) { seen = s } }

pub set_seen_nil : (a s : ℕ) → set_seen a s [] ≡ []
unfolding set_seen
set_seen_nil a s = refl

pub set_seen_here :
    (n : Node) (q : List Node) (s : ℕ) → set_seen n.addr s (n ∷ q) ≡ with_seen n s ∷ q
unfolding set_seen
set_seen_here n q s = ground arith

pub set_seen_at :
    (n : Node) (q : List Node) (a s : ℕ) → n.addr ≡ a → set_seen a s (n ∷ q) ≡ with_seen n s ∷ q
unfolding set_seen
set_seen_at n q a s h = ground arith

pub set_seen_later :
    (n : Node) (q : List Node) (a s : ℕ) → n.addr ≢ a → set_seen a s (n ∷ q) ≡ n ∷ set_seen a s q
unfolding set_seen
set_seen_later n q a s h = ground arith

-- With the pointer gone on from `prev`, the count of `prev` has room for one more.
pass-Chain :
    (o : ℕ → ℕ) (prev : Node) (q : List Node)
    → Chain o (some prev.addr) prev q
    → Chain o (head_addr q) (with_seen prev (prev.elem.seen + 1)) q
pass-Chain o prev [] c = tt
pass-Chain o prev (n ∷ q) c = (
  c.0,
  c.1,
  omega (arith, points_self n.addr, c.2),
  Chain-weaken o (some prev.addr) (some n.addr) n q (λ x l. omega (arith, points_other n.addr x))
      c.3,
)

-- Counting an element as seen moves the pointer from it to the next one.
pub set_seen-Chain :
    (o : ℕ → ℕ) (prev : Node) (q : List Node) (a : ℕ) (e : MParserBuffer) (next : Option ℕ)
    → Chain o (some a) prev q
    → deref a q ≡ ok (e, next)
    → Chain o next prev (set_seen a (e.seen + 1) q)
set_seen-Chain o prev [] a e next c h = rw set_seen_nil tt
set_seen-Chain o prev (n ∷ q) a e next c h = elim (deref-cons n q a e next h) [
  | inl (i, j, k) ↦
      rw (← i, ← j, ← k, set_seen_here)
        (
          c.0,
          c.1,
          omega (
            arith,
            c.2,
            points_here n.addr a i,
            points-Beyond n.addr (head_addr q) n.addr (head_addr-Beyond o (some a) n q c.3),
          ),
          pass-Chain o n q (subst (λ x. Chain o (some x) n q) (sym i) c.3),
        )
  | inr (i, j) ↦ rw (set_seen_later n q a (e.seen + 1) i) (
    c.0,
    c.1,
    omega (
      arith,
      c.2,
      points-Beyond a next n.addr (deref-lt o (some a) n q a e next c.3 j).1,
      deref-lt o (some a) n q a e next c.3 j,
    ),
    set_seen-Chain o n q a e next c.3 j,
  )
]

-- An element behind `prev` at which the pointer stands was seen less often.
deref-seen :
    (o : ℕ → ℕ) (prev : Node) (q : List Node) (a : ℕ) (e : MParserBuffer) (next : Option ℕ)
    → Chain o (some a) prev q
    → deref a q ≡ ok (e, next)
    → e.seen < prev.elem.seen
unfolding deref
deref-seen o prev [] a e next c h = cc
deref-seen o prev (n ∷ q) a e next c h = elim (deref-cons n q a e next h) [
  | inl (i, j, k) ↦ rw (← j) (omega (arith, c.2, points_here n.addr a i))
  | inr (i, j) ↦ omega (arith, c.2, deref-seen o n q a e next c.3 j)
]

Good-tail :
    (o : ℕ → ℕ) (p : Option ℕ) (k : ℕ) (n : Node) (q : List Node)
    → n.elem.seen < k
    → Chain o p (with_seen n (n.elem.seen + 1)) q
    → Chain o (some n.addr) n q
    → Good o p k q
Good-tail o p k n [] h c d = tt
Good-tail o p k n (m ∷ q) h c d = (omega (arith, d.2), c.3)

-- What counting an element as seen makes of a whole queue: either it is the head, which may be
-- full by then, or it is a later one, which is not.
pub data Counted (o : ℕ → ℕ) (k : ℕ) (n : Node) (q : List Node) (a : ℕ) (e : MParserBuffer)
    (next : Option ℕ) : Type 0 where
  at_head :
      n.addr ≡ a
      → n.elem ≡ e
      → head_addr q ≡ next
      → Chain o next (with_seen n (n.elem.seen + 1)) q
      → Good o next k q
      → Counted o k n q a e next
  behind :
      e.seen + 1 < k
      → n.addr ≢ a
      → deref a q ≡ ok (e, next)
      → Good o next k (n ∷ set_seen a (e.seen + 1) q)
      → Counted o k n q a e next

pub set_seen-Counted :
    (o : ℕ → ℕ) (k : ℕ) (n : Node) (q : List Node) (a : ℕ) (e : MParserBuffer) (next : Option ℕ)
    → Good o (some a) k (n ∷ q)
    → deref a (n ∷ q) ≡ ok (e, next)
    → Counted o k n q a e next
set_seen-Counted o k n q a e next c h = elim (deref-cons n q a e next h) [
  | inl (i, j, l) ↦
      let d : Chain o (some n.addr) n q = subst (λ x. Chain o (some x) n q) (sym i) c.1 in
      let d' : Chain o (head_addr q) (with_seen n (n.elem.seen + 1)) q = pass-Chain o n q d in
      Counted.at_head i j l (rw (← l) d') (rw (← l) (Good-tail o (head_addr q) k n q c.0 d' d))
  | inr (i, j) ↦
      Counted.behind (omega (arith, deref-seen o n q a e next c.1 j, c.0)) i j
        (c.0, set_seen-Chain o n q a e next c.1 j)
]

-- Every element has been counted at least once.
abbrev pub IsSeen : List Node → Type 0
IsSeen = All (λ (n : Node). 0 < n.elem.seen)

abbrev LastSeen : List Node → Type 0
LastSeen [] = Unit
LastSeen (n ∷ []) = 0 < n.elem.seen
LastSeen (n ∷ m ∷ q) = LastSeen (m ∷ q)

pub IsSeen-head_none : (q : List Node) → head_addr q ≡ none → IsSeen q
IsSeen-head_none [] h = tt
IsSeen-head_none (n ∷ q) h = cc

Chain-LastSeen :
    (o : ℕ → ℕ) (p : Option ℕ) (n : Node) (q : List Node)
    → Chain o p n q
    → LastSeen (n ∷ q)
    → IsSeen (n ∷ q)
Chain-LastSeen o p n [] c h = (h, tt)
Chain-LastSeen o p n (m ∷ q) c h =
    let r = Chain-LastSeen o p m q c.3 h in (omega (arith, c.2, r.0), r)

Good-LastSeen :
    (o : ℕ → ℕ) (p : Option ℕ) (k : ℕ) (q : List Node) → Good o p k q → LastSeen q → IsSeen q
Good-LastSeen o p k [] c h = tt
Good-LastSeen o p k (n ∷ q) c h = Chain-LastSeen o p n q c.1 h

LastSeen-set_seen :
    (a s : ℕ) (q : List Node) (e : MParserBuffer)
    → deref a q ≡ ok (e, none)
    → LastSeen (set_seen a (s + 1) q)
unfolding deref set_seen
LastSeen-set_seen a s [] e h = cc
LastSeen-set_seen a s (n ∷ []) e h = elim (deref-cons n [] a e none h) [
  | inl (i, j, k) ↦ rw (eq→== n.addr a i) (omega arith)
  | inr (i, j) ↦ cc
]
LastSeen-set_seen a s (n ∷ m ∷ q) e h = elim (deref-cons n (m ∷ q) a e none h) [
  | inl (i, j, k) ↦ cc
  | inr (i, j) ↦ rw (ne→== n.addr a i) (under (LastSeen-set_seen a s (m ∷ q) e j))
]
  where
    under : LastSeen (set_seen a (s + 1) (m ∷ q)) → LastSeen (n ∷ set_seen a (s + 1) (m ∷ q))
    under t = elim (Bool-cases (m.addr == a)) [
      | inl x ↦ rw x (rw x at t)
      | inr x ↦ rw x (rw x at t)
    ]

pub IsSeen-count :
    (o : ℕ → ℕ) (p : Option ℕ) (k a s : ℕ) (q : List Node) (e : MParserBuffer)
    → deref a q ≡ ok (e, none)
    → Good o p k (set_seen a (s + 1) q)
    → IsSeen (set_seen a (s + 1) q)
IsSeen-count o p k a s q e h g =
    Good-LastSeen o p k (set_seen a (s + 1) q) g (LastSeen-set_seen a s q e h)
