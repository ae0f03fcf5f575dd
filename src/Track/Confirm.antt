-- ===== src/Track/Confirm.antt =====
-- `bq_consumer_confirm_pointer` on a sound state, and what a pointer is worth.
use feng.Base.{
  ℕ, ◌+◌, ◌^◌, ◌≤◌, ◌<◌, ◌≡◌, refl, inl, inr, false, not, ◌||◌, Option, none, some, List, [], ◌∷◌,
  arith, ◌==◌, Bool-cases, ltb→ge, length,
}
use mathlib.Core.Path.{subst}
use feng.Track.{Node, Track, Consumer, head_addr, before_head, confirm}
use feng.Track.Chain.{Good, points_other, Chain-weaken, points-none_le}
use feng.Track.Pointers.{HasAt, Reaches, HasAt→IsLive}
use feng.Track.State.{IsBelow, potential, HeldAt, Held, Flight, later}

-- A track, one of its consumers, and the others' pointers.
pub record Sound (o : ℕ → ℕ) (tr : Track) (c : Consumer) : Type 0 where
  pub good : Good o c.current_element_pointer tr.consumers tr.queue
  pub below : IsBelow tr.next_addr tr.next_serial tr.queue
  pub room : potential tr.queue_serial tr.queue < 2 ^ 64
  pub few : tr.consumers < 2 ^ 64
  pub held : Held tr c

some_inj : {a b : ℕ} → some a ≡ some b → a ≡ b
some_inj e = cc

Good-none : (o : ℕ → ℕ) (p : Option ℕ) (k : ℕ) (q : List Node) → Good o p k q → Good o none k q
Good-none o p k [] g = tt
Good-none o p k (n ∷ q) g = (g.0, Chain-weaken o p none n q (λ x l. points-none_le p x) g.1)

pub Good-head : (o : ℕ → ℕ) (k : ℕ) (q : List Node) → Good o none k q → Good o (head_addr q) k q
Good-head o k [] g = tt
Good-head o k (n ∷ q) g =
    (g.0, Chain-weaken o none (some n.addr) n q (λ x l. omega (arith, points_other n.addr x)) g.1)

Reaches→HasAt :
    (a last : ℕ) (q : List Node) → Reaches a last q → before_head last q ≡ false → HasAt a last q
unfolding before_head
Reaches→HasAt a last [] r b = absurd r
Reaches→HasAt a last (n ∷ q) (inl l) b = absurd (omega (arith, ltb→ge last n.elem.seq_no b))
Reaches→HasAt a last (n ∷ q) (inr h) b = h

-- What the confirmed pointer is good for.
pub record Confirmed (o : ℕ → ℕ) (tr : Track) (c : Consumer) (r : Consumer × Option ℕ)
    : Type 0 where
  pub pointer : r.0.current_element_pointer ≡ r.1
  pub last : r.0.last_element_serial ≡ c.last_element_serial
  pub flight : Flight o r.1 tr
  pub held : Held tr r.0
  pub known : (a : ℕ) → r.1 ≡ some a → HasAt a c.last_element_serial tr.queue
  pub same : (a : ℕ) → r.1 ≡ some a → r.0.queue_serial ≡ tr.queue_serial

pub confirm-Confirmed :
    (o : ℕ → ℕ) (tr : Track) (c : Consumer) (p : Option ℕ)
    → c.current_element_pointer ≡ p
    → Sound o tr c
    → Confirmed o tr c (confirm tr c p)
unfolding confirm
confirm-Confirmed o tr c none e s = record {
  pointer = e;
  last = refl;
  flight = record {
    good = Good-none o c.current_element_pointer tr.consumers tr.queue s.good;
    live = tt;
    below = s.below;
    room = s.room;
    few = s.few;
  };
  held = s.held;
  known = λ b x. cc;
  same = λ b x. cc;
}
confirm-Confirmed o tr c (some a) e s =
    elim (Bool-cases
      (not (tr.queue_serial == c.queue_serial) || before_head c.last_element_serial tr.queue)) [
        | inl b ↦ rw b (record {
          pointer = refl;
          last = refl;
          flight = record {
            good = Good-none o c.current_element_pointer tr.consumers tr.queue s.good;
            live = tt;
            below = s.below;
            room = s.room;
            few = s.few;
          };
          held = tt;
          known = λ b x. cc;
          same = λ b x. cc;
        })
        | inr b ↦ rw b (record {
          pointer = e;
          last = refl;
          flight = record {
            good = subst (λ x. Good o x tr.consumers tr.queue) e s.good;
            live = HasAt→IsLive a c.last_element_serial tr.queue (known a e b);
            below = s.below;
            room = s.room;
            few = s.few;
          };
          held = s.held;
          known =
              λ d x. subst (λ y. HasAt y c.last_element_serial tr.queue) (some_inj x) (known a e b);
          same = λ d x. ground arith;
        })
      ]
  where
    known :
        (a : ℕ)
        → c.current_element_pointer ≡ some a
        → not (tr.queue_serial == c.queue_serial) || before_head c.last_element_serial tr.queue
          ≡ false
        → HasAt a c.last_element_serial tr.queue
    known a e b =
        let h = subst (HeldAt tr c.queue_serial c.last_element_serial) e s.held in
        Reaches→HasAt a c.last_element_serial tr.queue (h.2 (ground arith)) (ground arith)

pub HasAt→Reaches : (a last : ℕ) (q : List Node) → HasAt a last q → Reaches a last q
HasAt→Reaches a last [] h = h
HasAt→Reaches a last (n ∷ q) h = inr h

pub HasAt-addr :
    (a last addr serial : ℕ) (q : List Node) → IsBelow addr serial q → HasAt a last q → a < addr
HasAt-addr a last addr serial [] b h = absurd h
HasAt-addr a last addr serial (n ∷ q) b (inl h) = omega (arith, b.0, h.0)
HasAt-addr a last addr serial (n ∷ q) b (inr h) = HasAt-addr a last addr serial q b.1 h

later_mono : (s last : ℕ) (q : List Node) → last ≤ s → later s q ≤ later last q
later_mono s last [] h = omega arith
later_mono s last (n ∷ q) h = ground (arith, later_mono s last q h)

-- An element that a consumer goes forward to was among those that it had not had.
pub later-HasAt :
    (a seq last : ℕ) (q : List Node) → HasAt a seq q → last < seq → later seq q + 1 ≤ later last q
later-HasAt a seq last [] h l = absurd h
later-HasAt a seq last (n ∷ q) (inl h) l = ground (arith, later_mono seq last q (omega arith), h.1)
later-HasAt a seq last (n ∷ q) (inr h) l = ground (arith, later-HasAt a seq last q h l)

pub later-le_length : (last : ℕ) (q : List Node) → later last q ≤ length q
later-le_length last [] = omega arith
later-le_length last (n ∷ q) = ground (arith, later-le_length last q)
