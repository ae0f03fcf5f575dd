-- ===== src/Track/Walk.antt =====
-- The loop of `bq_consumer_move_internal`, from a pointer on: it ends, does not fail, and stops at
-- the first element that the consumer has not had.
use feng.Base.{
  ℕ, zero, suc, ◌≤◌, ◌<◌, ◌≡◌, refl, ◌∙◌, inl, inr, true, false, Option, none, some, List, arith,
  ok, leb, Bool-cases, leb→gt, leb→le,
}
use feng.Track.{MParserBuffer, Node, Track, deref, skip_seen, bq_consumer_elem_unref}
use feng.Track.Chain.{span, IsSeen}
use feng.Track.State.{Flight, Evolves, Evolves-refl, Evolves-trans}
use feng.Track.Unread.{Passed, first_unread}
use feng.Track.Reached.{Through-at}
use feng.Track.Steps.{elem_unref-Counting}

-- The pointer is NULL, with nothing left to count, or at an element past `last`.
abbrev pub Stops : ℕ → Option ℕ → List Node → Type 0
Stops last none q = IsSeen q
Stops last (some a) q =
    (e : MParserBuffer) × (next : Option ℕ) × (deref a q ≡ ok (e, next)) × (last < e.seq_no)

pub record Walk (fuel : ℕ) (o : ℕ → ℕ) (last : ℕ) (p : Option ℕ) (tr : Track) : Type 0 where
  pub track : Track
  pub next : Option ℕ
  pub runs : skip_seen fuel last tr p ≡ ok (track, next)
  pub flight : Flight o next track
  pub evolves : Evolves tr track
  pub stops : Stops last next track.queue
  pub passed : Passed last next track.queue
  pub unread : first_unread last track.queue ≡ first_unread last tr.queue

skip_stop :
    (fuel last a : ℕ) (tr : Track) (e : MParserBuffer) (next : Option ℕ)
    → deref a tr.queue ≡ ok (e, next)
    → leb e.seq_no last ≡ false
    → skip_seen (suc fuel) last tr (some a) ≡ ok (tr, some a)
unfolding skip_seen
skip_stop fuel last a tr e next h l = rw h (rw l)

skip_on :
    (fuel last a : ℕ) (tr tr' : Track) (e : MParserBuffer) (next next' : Option ℕ)
    → deref a tr.queue ≡ ok (e, next)
    → leb e.seq_no last ≡ true
    → bq_consumer_elem_unref tr a ≡ ok (tr', next')
    → skip_seen (suc fuel) last tr (some a) ≡ skip_seen fuel last tr' next'
unfolding skip_seen
skip_on fuel last a tr tr' e next next' h l u = rw h (rw l (rw u))

-- With fuel for the nodes from the pointer on, the loop comes to its end.
pub skip_seen-Walk :
    (fuel : ℕ) (o : ℕ → ℕ) (last : ℕ) (p : Option ℕ) (tr : Track)
    → Flight o p tr
    → (p ≡ none → IsSeen tr.queue)
    → span p tr.queue ≤ fuel
    → Passed last p tr.queue
    → Walk fuel o last p tr
unfolding skip_seen
skip_seen-Walk zero o last none tr f s h r = record {
  track = tr;
  next = none;
  runs = refl;
  flight = f;
  evolves = Evolves-refl tr;
  stops = s refl;
  passed = r;
  unread = refl;
}
skip_seen-Walk (suc fuel) o last none tr f s h r = record {
  track = tr;
  next = none;
  runs = refl;
  flight = f;
  evolves = Evolves-refl tr;
  stops = s refl;
  passed = r;
  unread = refl;
}
skip_seen-Walk zero o last (some a) tr f s h r =
    let u = elem_unref-Counting o a tr f in absurd (omega (arith, u.shorter))
skip_seen-Walk (suc fuel) o last (some a) tr f s h r =
    let (e, next, d) = f.live in
    let u = elem_unref-Counting o a tr f in
    elim (Bool-cases (leb e.seq_no last)) [
      | inl l ↦
          let v = u.unread last (
            Through-at o (some a) tr.consumers last tr.queue a e next f.good d
              (leb→le e.seq_no last l) r) in
          let w =
            skip_seen-Walk fuel o last u.next u.track u.flight u.tail (omega (arith, u.shorter))
              v.0 in
          record {
            track = w.track;
            next = w.next;
            runs = skip_on fuel last a tr u.track e next u.next d l u.runs ∙ w.runs;
            flight = w.flight;
            evolves = Evolves-trans tr u.track w.track u.evolves w.evolves;
            stops = w.stops;
            passed = w.passed;
            unread = w.unread ∙ v.1;
          }
      | inr l ↦ record {
        track = tr;
        next = some a;
        runs = skip_stop fuel last a tr e next d l;
        flight = f;
        evolves = Evolves-refl tr;
        stops = (e, next, d, leb→gt e.seq_no last l);
        passed = r;
        unread = refl;
      }
    ]
