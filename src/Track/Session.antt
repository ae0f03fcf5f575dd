-- ===== src/Track/Session.antt =====
-- The public calls of a session on a sound state: `bq_consumer_move`, `bq_consumer_get`,
-- `bq_consumer_free`, and what the producer and new sessions do to the state.
use mathlib.Core.Path.{subst}
use feng.Base.{
  ℕ, zero, suc, ◌+◌, ◌-◌, ◌^◌, ◌≤◌, ◌<◌, ◌≡◌, refl, ap, ◌∙◌, inl, inr, true, false, Option, none,
  some, List, [], ◌∷◌, map, arith, ok, Bool-cases, length, lt→ltb,
}
use feng.Track.{
  Node, Track, Consumer, bq_consumer_move_internal, move_all, bq_consumer_free,
  bq_decrement_seen_on_free,
}
use feng.Track.Chain.{Chain, Good, IsSeen}
use feng.Track.Pointers.{HasAt, Reaches}
use feng.Track.State.{IsBelow, potential, HeldAt, Evolves, Evolves-trans, later}
use feng.Track.Confirm.{Sound, later-le_length}
use feng.Track.Move.{move_internal-Moved}

-- All the moves of `bq_consumer_free`.
record Swept (fuel : ℕ) (o : ℕ → ℕ) (tr : Track) (c : Consumer) : Type 0 where
  track : Track
  consumer : Consumer
  runs : move_all fuel tr c ≡ ok (track, consumer)
  sound : Sound o track consumer
  evolves : Evolves tr track
  gone : consumer.current_element_pointer ≡ none
  seen : IsSeen track.queue

sweep_stop :
    (fuel : ℕ) (tr tr' : Track) (c c' : Consumer)
    → bq_consumer_move_internal tr c ≡ ok (tr', c', false)
    → move_all (suc fuel) tr c ≡ ok (tr', c')
unfolding move_all
sweep_stop fuel tr tr' c c' h = rw h

sweep_on :
    (fuel : ℕ) (tr tr' : Track) (c c' : Consumer)
    → bq_consumer_move_internal tr c ≡ ok (tr', c', true)
    → move_all (suc fuel) tr c ≡ move_all fuel tr' c'
unfolding move_all
sweep_on fuel tr tr' c c' h = rw h

move_all-Swept :
    (fuel : ℕ) (o : ℕ → ℕ) (tr : Track) (c : Consumer)
    → Sound o tr c
    → later c.last_element_serial tr.queue < fuel
    → Swept fuel o tr c
move_all-Swept zero o tr c s h = absurd (omega arith)
move_all-Swept (suc fuel) o tr c s h =
    let m = move_internal-Moved o tr c s in
    elim (Bool-cases m.more) [
      | inl more ↦
          let r =
            move_all-Swept fuel o m.track m.consumer m.sound (omega (arith, m.forward more)) in
          record {
            track = r.track;
            consumer = r.consumer;
            runs =
                sweep_on fuel tr m.track c m.consumer
                  (m.runs ∙ ap (λ b. ok (m.track, m.consumer, b)) more)
                ∙ r.runs;
            sound = r.sound;
            evolves = Evolves-trans tr m.track r.track m.evolves r.evolves;
            gone = r.gone;
            seen = r.seen;
          }
      | inr done ↦ record {
        track = m.track;
        consumer = m.consumer;
        runs =
            sweep_stop fuel tr m.track c m.consumer
              (m.runs ∙ ap (λ b. ok (m.track, m.consumer, b)) done);
        sound = m.sound;
        evolves = m.evolves;
        gone = (m.finished done).0;
        seen = (m.finished done).3;
      }
    ]

-- `bq_consumer_free` on a sound state.
pub record Freed (o : ℕ → ℕ) (tr : Track) (c : Consumer) : Type 0 where
  pub track : Track
  pub runs : bq_consumer_free tr c ≡ ok track
  pub consumers : track.consumers + 1 ≡ tr.consumers
  pub good : Good o none track.consumers track.queue
  pub below : IsBelow track.next_addr track.next_serial track.queue
  pub next_addr : track.next_addr ≡ tr.next_addr
  pub next_serial : track.next_serial ≡ tr.next_serial
  pub stopped : track.stopped ≡ tr.stopped
  pub spent : potential track.queue_serial track.queue ≤ potential tr.queue_serial tr.queue
  pub held : (s last : ℕ) (p : Option ℕ) → HeldAt tr s last p → HeldAt track s last p

-- Every count falls by one, and none of them goes below zero.
decrement-Chain :
    (o : ℕ → ℕ) (n : Node) (q : List Node)
    → n.elem.seen < 2 ^ 64
    → 0 < n.elem.seen
    → IsSeen q
    → Chain o none n q
    → Chain o none (bq_decrement_seen_on_free n) (map bq_decrement_seen_on_free q)
unfolding bq_decrement_seen_on_free
decrement-Chain o n [] l z s c = tt
decrement-Chain o n (m ∷ q) l z s c =
    (c.0, c.1, omega (arith, c.2, s.0), decrement-Chain o m q (omega (arith, c.2)) s.0 s.1 c.3)

decrement-Good :
    (o : ℕ → ℕ) (k : ℕ) (q : List Node)
    → k < 2 ^ 64
    → IsSeen q
    → Good o none k q
    → Good o none (k - 1) (map bq_decrement_seen_on_free q)
unfolding bq_decrement_seen_on_free
decrement-Good o k [] l s g = tt
decrement-Good o k (n ∷ q) l s g =
    (omega (arith, g.0, s.0), decrement-Chain o n q (omega (arith, g.0)) s.0 s.1 g.1)

decrement-IsBelow :
    (a s : ℕ) (q : List Node) → IsBelow a s q → IsBelow a s (map bq_decrement_seen_on_free q)
unfolding bq_decrement_seen_on_free
decrement-IsBelow a s [] b = tt
decrement-IsBelow a s (n ∷ q) b = (b.0, decrement-IsBelow a s q b.1)

decrement-potential :
    (s : ℕ) (q : List Node) → potential s (map bq_decrement_seen_on_free q) ≡ potential s q
decrement-potential s [] = refl
decrement-potential s (n ∷ q) = refl

decrement-HasAt :
    (a s : ℕ) (q : List Node) → HasAt a s q → HasAt a s (map bq_decrement_seen_on_free q)
unfolding bq_decrement_seen_on_free
decrement-HasAt a s [] h = absurd h
decrement-HasAt a s (n ∷ q) (inl h) = inl h
decrement-HasAt a s (n ∷ q) (inr h) = inr (decrement-HasAt a s q h)

decrement-Reaches :
    (a s : ℕ) (q : List Node) → Reaches a s q → Reaches a s (map bq_decrement_seen_on_free q)
unfolding bq_decrement_seen_on_free
decrement-Reaches a s [] h = absurd h
decrement-Reaches a s (n ∷ q) (inl h) = inl h
decrement-Reaches a s (n ∷ q) (inr h) = inr (decrement-HasAt a s (n ∷ q) h)

free_runs :
    (tr tr' : Track) (c c' : Consumer)
    → 0 < tr.consumers
    → move_all (length tr.queue + 2) tr c ≡ ok (tr', c')
    → bq_consumer_free tr c
      ≡ ok (record tr' {
        queue = map bq_decrement_seen_on_free tr'.queue;
        consumers = tr'.consumers - 1;
      })
unfolding bq_consumer_free
free_runs tr tr' c c' h e = rw (lt→ltb 0 tr.consumers h, e)

-- `bq_consumer_free` of a session on a sound track that counts a session: its loop ends, no
-- assertion fails, no seen count underflows, one consumer less is counted, and what is left is
-- sound for the other sessions.
pub free-Freed :
    (o : ℕ → ℕ) (tr : Track) (c : Consumer) → Sound o tr c → 0 < tr.consumers → Freed o tr c
free-Freed o tr c s h =
    let w =
      move_all-Swept (length tr.queue + 2) o tr c s
        (omega (arith, later-le_length c.last_element_serial tr.queue)) in
    let v = w.evolves in
    record {
      track = record (w.track) {
        queue = map bq_decrement_seen_on_free w.track.queue;
        consumers = w.track.consumers - 1;
      };
      runs = free_runs tr w.track c w.consumer h w.runs;
      consumers = omega (arith, v.consumers);
      good =
          decrement-Good o w.track.consumers w.track.queue w.sound.few w.seen
            (subst (λ x. Good o x w.track.consumers w.track.queue) w.gone w.sound.good);
      below = decrement-IsBelow w.track.next_addr w.track.next_serial w.track.queue w.sound.below;
      next_addr = v.next_addr;
      next_serial = v.next_serial;
      stopped = v.stopped;
      spent = omega (arith, v.spent, decrement-potential w.track.queue_serial w.track.queue);
      held = λ t last p x. kept w.track t last p (v.held t last p x);
    }
  where
    kept :
        (t : Track) (u last : ℕ) (p : Option ℕ)
        → HeldAt t u last p
        → HeldAt
            (record t {
              queue = map bq_decrement_seen_on_free t.queue;
              consumers = t.consumers - 1;
            })
            u
            last
            p
    kept t u last none x = tt
    kept t u last (some a) x = (x.0, x.1, λ e. decrement-Reaches a last t.queue (x.2 e))
