-- ===== src/Track/State.antt =====
-- The state of a track between two steps of a consumer: what must hold for the steps to be safe,
-- and what they keep.
use feng.Base.{
  ℕ, ◌+◌, ◌^◌, ◌≤◌, ◌<◌, ◌≡◌, refl, ap, ◌∙◌, inl, inr, Option, none, some, List, [], ◌∷◌, arith,
  ◌==◌, ltb, if◌then◌else◌, Bool-cases, All,
}
use feng.Track.{Node, Track, Consumer, set_seen, is_empty, gulong}
use feng.Track.Chain.{Chain, Good, IsLive}
use feng.Track.Pointers.{Reaches, Reaches-set_seen, Reaches-pop}

-- Addresses and sequence numbers that the track has given out.
abbrev pub IsBelow : ℕ → ℕ → List Node → Type 0
IsBelow addr serial = All (λ (n : Node). (n.addr < addr) × (n.elem.seq_no < serial))

-- The serial number that the queue has once it runs empty.
abbrev pub potential : ℕ → List Node → ℕ
potential serial [] = serial
potential serial (n ∷ q) = serial + 1

-- How many elements a consumer has not had.
abbrev pub later : ℕ → List Node → ℕ
later last [] = 0
later last (n ∷ q) = (if ltb last n.elem.seq_no then 1 else 0) + later last q

-- A stored pointer with its queue's serial number: old, or one that the queue knows.
abbrev pub HeldAt : Track → ℕ → ℕ → Option ℕ → Type 0
HeldAt tr serial last none = Unit
HeldAt tr serial last (some a) =
    (a < tr.next_addr)
    × (serial ≤ tr.queue_serial)
    × (serial ≡ tr.queue_serial → Reaches a last tr.queue)

abbrev pub Held : Track → Consumer → Type 0
Held tr c = HeldAt tr c.queue_serial c.last_element_serial c.current_element_pointer

-- A track while a consumer's walk stands at `p`, with `o` other pointers at each address.
pub record Flight (o : ℕ → ℕ) (p : Option ℕ) (tr : Track) : Type 0 where
  pub good : Good o p tr.consumers tr.queue
  pub live : IsLive p tr.queue
  pub below : IsBelow tr.next_addr tr.next_serial tr.queue
  pub room : potential tr.queue_serial tr.queue < 2 ^ 64
  pub few : tr.consumers < 2 ^ 64

-- What a walk leaves as it was, and what it keeps for every consumer.
pub record Evolves (tr tr' : Track) : Type 0 where
  pub consumers : tr'.consumers ≡ tr.consumers
  pub next_addr : tr'.next_addr ≡ tr.next_addr
  pub next_serial : tr'.next_serial ≡ tr.next_serial
  pub stopped : tr'.stopped ≡ tr.stopped
  pub serial : tr.queue_serial ≤ tr'.queue_serial
  pub spent : potential tr'.queue_serial tr'.queue ≤ potential tr.queue_serial tr.queue
  pub fewer : (last : ℕ) → later last tr'.queue ≤ later last tr.queue
  pub held : (s last : ℕ) (p : Option ℕ) → HeldAt tr s last p → HeldAt tr' s last p

abbrev pub with_queue : Track → List Node → Track
with_queue tr q = record tr { queue = q }

abbrev pub popped : Track → List Node → Track
popped tr q = record tr {
  queue = q;
  queue_serial = if is_empty q then gulong (tr.queue_serial + 1) else tr.queue_serial;
}

pub IsBelow-set_seen :
    (addr serial a s : ℕ) (q : List Node)
    → IsBelow addr serial q
    → IsBelow addr serial (set_seen a s q)
unfolding set_seen
IsBelow-set_seen addr serial a s [] h = tt
IsBelow-set_seen addr serial a s (n ∷ q) h = elim (Bool-cases (n.addr == a)) [
  | inl e ↦ rw e h
  | inr e ↦ rw e (h.0, IsBelow-set_seen addr serial a s q h.1)
]

pub potential-set_seen :
    (serial a s : ℕ) (q : List Node) → potential serial (set_seen a s q) ≡ potential serial q
unfolding set_seen
potential-set_seen serial a s [] = refl
potential-set_seen serial a s (n ∷ q) = elim (Bool-cases (n.addr == a)) [
  | inl e ↦ rw e
  | inr e ↦ rw e
]

later-set_seen : (last a s : ℕ) (q : List Node) → later last (set_seen a s q) ≡ later last q
unfolding set_seen
later-set_seen last a s [] = refl
later-set_seen last a s (n ∷ q) = elim (Bool-cases (n.addr == a)) [
  | inl e ↦ rw e
  | inr e ↦
      rw e (ap (λ t. (if ltb last n.elem.seq_no then 1 else 0) + t) (later-set_seen last a s q))
]

pub count-Evolves : (tr : Track) (a s : ℕ) → Evolves tr (with_queue tr (set_seen a s tr.queue))
count-Evolves tr a s = record {
  consumers = refl;
  next_addr = refl;
  next_serial = refl;
  stopped = refl;
  serial = omega arith;
  spent = omega (arith, potential-set_seen tr.queue_serial a s tr.queue);
  fewer = λ last. omega (arith, later-set_seen last a s tr.queue);
  held = held;
}
  where
    held :
        (s' last : ℕ) (p : Option ℕ)
        → HeldAt tr s' last p
        → HeldAt (with_queue tr (set_seen a s tr.queue)) s' last p
    held s' last none h = tt
    held s' last (some b) h = (h.0, h.1, λ e. Reaches-set_seen b last a s tr.queue (h.2 e))

pub pop-Evolves :
    (o : ℕ → ℕ) (p : Option ℕ) (tr : Track) (n : Node) (q : List Node)
    → tr.queue_serial + 1 < 2 ^ 64
    → Chain o p n q
    → Evolves (with_queue tr (n ∷ q)) (popped tr q)
pop-Evolves o p tr n [] r c = record {
  consumers = refl;
  next_addr = refl;
  next_serial = refl;
  stopped = refl;
  serial = omega arith;
  spent = omega arith;
  fewer = λ last. omega arith;
  held = held;
}
  where
    held :
        (s' last : ℕ) (p : Option ℕ)
        → HeldAt (with_queue tr (n ∷ [])) s' last p
        → HeldAt (popped tr []) s' last p
    held s' last none h = tt
    held s' last (some b) h = (h.0, omega arith, λ e. absurd (omega arith))
pop-Evolves o p tr n (m ∷ q) r c = record {
  consumers = refl;
  next_addr = refl;
  next_serial = refl;
  stopped = refl;
  serial = omega arith;
  spent = omega arith;
  fewer = λ last. omega arith;
  held = held;
}
  where
    held :
        (s' last : ℕ) (p : Option ℕ)
        → HeldAt (with_queue tr (n ∷ m ∷ q)) s' last p
        → HeldAt (popped tr (m ∷ q)) s' last p
    held s' last none h = tt
    held s' last (some b) h = (h.0, h.1, λ e. Reaches-pop b last n m q c.1 (h.2 e))

pub Evolves-trans : (t u v : Track) → Evolves t u → Evolves u v → Evolves t v
Evolves-trans t u v f g = record {
  consumers = g.consumers ∙ f.consumers;
  next_addr = g.next_addr ∙ f.next_addr;
  next_serial = g.next_serial ∙ f.next_serial;
  stopped = g.stopped ∙ f.stopped;
  serial = omega (arith, f.serial, g.serial);
  spent = omega (arith, f.spent, g.spent);
  fewer = λ last. omega (arith, f.fewer last, g.fewer last);
  held = λ s last p h. g.held s last p (f.held s last p h);
}

pub Evolves-refl : (t : Track) → Evolves t t
Evolves-refl t = record {
  consumers = refl;
  next_addr = refl;
  next_serial = refl;
  stopped = refl;
  serial = omega arith;
  spent = omega arith;
  fewer = λ last. omega arith;
  held = λ s last p h. h;
}
