-- ===== src/Track/System/Producer.antt =====
-- The producer's calls and the registration of a session keep the invariant.
use mathlib.Core.Path.{subst}
use feng.Base.{
  ℕ, ◌+◌, ◌^◌, ◌≤◌, ◌<◌, ◌≡◌, refl, ap, inl, inr, Bool, false, not, Option, none, some, List, [],
  ◌∷◌, ◌++◌, arith, ok, ◌>>=◌, if◌then◌else◌, All, max, eq→==, assert,
}
use feng.Track.{
  MParserBuffer, Node, Track, Consumer, enqueue, bq_producer_reset_queue_internal,
  register_consumer, track_write, track_reset_queue, u16,
}
use feng.Track.Chain.{Chain, Good, points, points_other}
use feng.Track.Pointers.{HasAt, Reaches}
use feng.Track.State.{IsBelow, potential, HeldAt, Held}
use feng.Track.System.{System, write, reset, join, step, pointing, All-weaken, Good-split}
use feng.Track.System.Safety.{Inv, IsFresh, Steps}

-- A new element goes behind the last one, with no pointer at it and a count of zero.
append-Chain :
    (o : ℕ → ℕ) (prev : Node) (q : List Node) (n : Node)
    → prev.addr < n.addr
    → prev.elem.seq_no < n.elem.seq_no
    → IsBelow n.addr n.elem.seq_no q
    → n.elem.seen + o n.addr ≡ 0
    → Chain o none prev q
    → Chain o none prev (q ++ n ∷ [])
append-Chain o prev [] n a s b z c = (a, s, omega arith, tt)
append-Chain o prev (m ∷ q) n a s b z c =
    (c.0, c.1, c.2, append-Chain o m q n b.0.0 b.0.1 b.1 z c.3)

append-Good :
    (o : ℕ → ℕ) (k : ℕ) (q : List Node) (n : Node)
    → 0 < k
    → IsBelow n.addr n.elem.seq_no q
    → n.elem.seen + o n.addr ≡ 0
    → Good o none k q
    → Good o none k (q ++ n ∷ [])
append-Good o k [] n l b z g = (omega arith, tt)
append-Good o k (m ∷ q) n l b z g = (g.0, append-Chain o m q n b.0.0 b.0.1 b.1 z g.1)

append-IsBelow :
    (a s : ℕ) (q : List Node) (n : Node)
    → IsBelow a s q
    → n.addr ≡ a
    → n.elem.seq_no ≡ s
    → IsBelow (a + 1) (s + 1) (q ++ n ∷ [])
append-IsBelow a s [] n b i j = ((omega arith, omega arith), tt)
append-IsBelow a s (m ∷ q) n b i j =
    ((omega (arith, b.0), omega (arith, b.0)), append-IsBelow a s q n b.1 i j)

append-potential :
    (s : ℕ) (q : List Node) (n : Node) → potential s (q ++ n ∷ []) ≤ potential s q + 1
append-potential s [] n = omega arith
append-potential s (m ∷ q) n = omega arith

append-HasAt : (a s : ℕ) (q : List Node) (n : Node) → HasAt a s q → HasAt a s (q ++ n ∷ [])
append-HasAt a s [] n h = absurd h
append-HasAt a s (m ∷ q) n (inl h) = inl h
append-HasAt a s (m ∷ q) n (inr h) = inr (append-HasAt a s q n h)

append-Reaches : (a s : ℕ) (q : List Node) (n : Node) → Reaches a s q → Reaches a s (q ++ n ∷ [])
append-Reaches a s [] n h = absurd h
append-Reaches a s (m ∷ q) n (inl h) = inl h
append-Reaches a s (m ∷ q) n (inr h) = inr (append-HasAt a s (m ∷ q) n h)

-- No session points at an address that was never given out.
pointing-fresh : (tr : Track) (cs : List Consumer) → All (Held tr) cs → pointing cs tr.next_addr ≡ 0
pointing-fresh tr [] h = refl
pointing-fresh tr (c ∷ cs) h =
    omega (arith, one c.current_element_pointer c h.0, pointing-fresh tr cs h.1)
  where
    one :
        (p : Option ℕ) (c : Consumer)
        → HeldAt tr c.queue_serial c.last_element_serial p
        → points p tr.next_addr ≡ 0
    one none c h = refl
    one (some a) c h = points_other a tr.next_addr (omega (arith, h.0))

-- The node that `track_write` appends for a buffer of the parsers.
abbrev pub fresh_node : Track → MParserBuffer → Node
fresh_node tr b = record { addr = tr.next_addr; elem = record b { seq_no = tr.next_serial } }

abbrev pub appended : Track → MParserBuffer → Track
appended tr b = record tr {
  queue = tr.queue ++ fresh_node tr b ∷ [];
  next_addr = tr.next_addr + 1;
  next_serial = u16 (tr.next_serial + 1);
}

pub enqueue_fresh : (tr : Track) (b : MParserBuffer) → b.seq_no ≡ 0 → enqueue tr b ≡ appended tr b
unfolding enqueue
enqueue_fresh tr b h =
    ap
      (λ (x : ℕ). record tr {
        queue = tr.queue ++ (record { addr = tr.next_addr; elem = record b { seq_no = x } }) ∷ [];
        next_addr = tr.next_addr + 1;
        next_serial = u16 (x + 1);
      })
      (ap (λ (t : Bool). if t then tr.next_serial else b.seq_no) (eq→== b.seq_no 0 h))

-- What a session holds stays valid where the queue only grows, and where it is replaced.
append-Held :
    (tr : Track) (n : Node) (serial s last : ℕ) (p : Option ℕ)
    → HeldAt tr s last p
    → HeldAt
        (record tr {
          queue = tr.queue ++ n ∷ [];
          next_addr = tr.next_addr + 1;
          next_serial = serial;
        })
        s
        last
        p
append-Held tr n serial s last none h = tt
append-Held tr n serial s last (some a) h =
    (omega (arith, h.0), h.1, λ e. append-Reaches a last tr.queue n (h.2 e))

reset-Held :
    (tr : Track) (s last : ℕ) (p : Option ℕ)
    → tr.queue_serial + 1 < 2 ^ 64
    → HeldAt tr s last p
    → HeldAt (bq_producer_reset_queue_internal tr) s last p
unfolding bq_producer_reset_queue_internal
reset-Held tr s last none r h = tt
reset-Held tr s last (some a) r h = (h.0, omega (arith, h.1), λ e. absurd (omega (arith, h.1)))

join-Held :
    (tr : Track) (k s last : ℕ) (p : Option ℕ)
    → HeldAt tr s last p
    → HeldAt (record tr { consumers = k }) s last p
join-Held tr k s last none h = tt
join-Held tr k s last (some a) h = h

potential-ge : (s : ℕ) (q : List Node) → s ≤ potential s q
potential-ge s [] = omega arith
potential-ge s (n ∷ q) = omega arith

write-Inv :
    (k : ℕ) (s : System) (b : MParserBuffer)
    → Inv k s
    → k < 65535
    → IsFresh b
    → Inv (k + 1) (record s { track = enqueue s.track b })
write-Inv k s b v l f =
    let n = fresh_node s.track b in
    rw (enqueue_fresh s.track b f.1) (record {
      good =
          append-Good (pointing s.sessions) (max 1 s.track.consumers) s.track.queue n (omega arith)
            v.below (omega (arith, f.0, pointing-fresh s.track s.sessions v.held)) v.good;
      below =
          subst (λ (x : ℕ). IsBelow (s.track.next_addr + 1) x (s.track.queue ++ n ∷ []))
            (omega (arith, v.serials))
            (append-IsBelow s.track.next_addr s.track.next_serial s.track.queue n v.below refl
              refl);
      held =
          All-weaken (Held s.track) (Held (appended s.track b))
            (λ c h.
              append-Held s.track n (u16 (s.track.next_serial + 1)) c.queue_serial
                c.last_element_serial c.current_element_pointer h)
            s.sessions v.held;
      registered = v.registered;
      started = v.started;
      serials = omega (arith, v.serials);
      queues = omega (arith, v.queues, append-potential s.track.queue_serial s.track.queue n);
      few = omega (arith, v.few);
    })

write-runs :
    (tr : Track) (b : MParserBuffer) → tr.stopped ≡ false → track_write tr b ≡ ok (enqueue tr b)
unfolding track_write
write-runs tr b h = ap (λ t. assert (not t) >>= λ _. ok (enqueue tr b)) h

pub write-Steps :
    (k : ℕ) (s : System) (b : MParserBuffer)
    → Inv k s
    → k < 65535
    → IsFresh b
    → Steps (k + 1) s (write b)
unfolding step
write-Steps k s b v l f = (
  record s { track = enqueue s.track b },
  rw (write-runs s.track b v.started),
  write-Inv k s b v l f,
)

reset-runs :
    (tr : Track)
    → tr.stopped ≡ false
    → track_reset_queue tr ≡ ok (bq_producer_reset_queue_internal tr)
unfolding track_reset_queue
reset-runs tr h = ap (λ t. assert (not t) >>= λ _. ok (bq_producer_reset_queue_internal tr)) h

pub reset-Steps : (k : ℕ) (s : System) → Inv k s → k < 65535 → Steps (k + 1) s reset
unfolding step bq_producer_reset_queue_internal
reset-Steps k s v l = (
  record s { track = bq_producer_reset_queue_internal s.track },
  rw (reset-runs s.track v.started),
  record {
    good = tt;
    below = tt;
    held =
        All-weaken (Held s.track) (Held (bq_producer_reset_queue_internal s.track))
          (λ c h.
            reset-Held s.track c.queue_serial c.last_element_serial c.current_element_pointer
              (omega (arith, v.queues, potential-ge s.track.queue_serial s.track.queue)) h)
          s.sessions v.held;
    registered = v.registered;
    started = v.started;
    serials = omega (arith, v.serials);
    queues = omega (arith, v.queues, potential-ge s.track.queue_serial s.track.queue);
    few = omega (arith, v.few);
  },
)

-- A new session points nowhere.
pub join-Steps : (k : ℕ) (s : System) → Inv k s → k < 65535 → Steps (k + 1) s join
unfolding step register_consumer
join-Steps k s v l = (
  record {
    track = record (s.track) { consumers = s.track.consumers + 1 };
    sessions =
        (record { queue_serial = 0; current_element_pointer = none; last_element_serial = 0 })
        ∷ s.sessions;
  },
  rw v.started,
  record {
    good =
        Good-split (pointing s.sessions)
          (pointing (
            (record { queue_serial = 0; current_element_pointer = none; last_element_serial = 0 })
            ∷ s.sessions))
          none none (max 1 s.track.consumers) (max 1 (s.track.consumers + 1)) s.track.queue
          (λ a. omega arith) (omega arith) v.good;
    below = v.below;
    held = (
      tt,
      All-weaken (Held s.track) (Held (record (s.track) { consumers = s.track.consumers + 1 }))
          (λ c h.
            join-Held s.track (s.track.consumers + 1) c.queue_serial c.last_element_serial
              c.current_element_pointer h)
          s.sessions v.held,
    );
    registered = omega (arith, v.registered);
    started = v.started;
    serials = omega (arith, v.serials);
    queues = omega (arith, v.queues);
    few = omega (arith, v.few);
  },
)
