-- ===== src/Track/Get.antt =====
-- `bq_consumer_get` on a sound state.
use mathlib.Core.Path.{subst}
use feng.Base.{
  ℕ, ◌≡◌, refl, inl, inr, ◌⊎◌, ◌∙◌, Bool-cases, ap, sym, eq→==, Bool, false, Option, none, some, ok,
}
use feng.Track.{
  MParserBuffer, Track, Consumer, deref, confirm, before_head, bq_consumer_confirm_pointer,
  get_moved, object_at, bq_object, bq_consumer_get,
}
use feng.Track.Chain.{Good}
use feng.Track.State.{Evolves, Evolves-refl}
use feng.Track.Confirm.{Sound, Confirmed, confirm-Confirmed}
use feng.Track.Unread.{first_unread, plain}
use feng.Track.Reached.{HasAt-deref}
use feng.Track.Move.{IsAt, Good-before_head, move_internal-Moved}

-- The element that a session gets, if it gets one: the one that its pointer is confirmed to be at,
-- which has the session's last number, with nothing changed; or else the first that has a higher
-- number, to which its pointer goes.
abbrev pub IsGot : Track → Consumer → Track → Consumer → Option MParserBuffer → Type 0
IsGot tr c track consumer none =
    ((bq_consumer_confirm_pointer tr c).1 ≡ none)
    × (first_unread c.last_element_serial tr.queue ≡ none)
IsGot tr c track consumer (some e) =
    (a : ℕ) × (next : Option ℕ) × (deref a track.queue ≡ ok (e, next))
    × (consumer.current_element_pointer ≡ some a)
    × (consumer.last_element_serial ≡ e.seq_no)
    × ((((bq_consumer_confirm_pointer tr c).1 ≡ some a)
          × (c.last_element_serial ≡ e.seq_no)
          × (track ≡ tr))
        ⊎ (((bq_consumer_confirm_pointer tr c).1 ≡ none)
            × (first_unread c.last_element_serial tr.queue ≡ some (a, plain e))))

-- A call of `bq_consumer_get`.
pub record Got (o : ℕ → ℕ) (tr : Track) (c : Consumer) : Type 0 where
  pub track : Track
  pub consumer : Consumer
  pub element : Option MParserBuffer
  pub runs : bq_consumer_get tr c ≡ ok (track, consumer, element)
  pub sound : Sound o track consumer
  pub evolves : Evolves tr track
  pub got : IsGot tr c track consumer element

Confirmed-Sound :
    (o : ℕ → ℕ) (tr : Track) (c : Consumer) (r : Consumer × Option ℕ)
    → Confirmed o tr c r
    → Sound o tr r.0
Confirmed-Sound o tr c r k = record {
  good = subst (λ x. Good o x tr.consumers tr.queue) (sym k.pointer) k.flight.good;
  below = k.flight.below;
  room = k.flight.room;
  few = k.flight.few;
  held = k.held;
}

get_runs :
    (tr tr' : Track) (c c' c'' : Consumer) (b : Bool) (e : Option MParserBuffer)
    → tr.stopped ≡ false
    → let (c₁, p) = bq_consumer_confirm_pointer tr c in
      get_moved tr c₁ p ≡ ok (tr', c', b)
      → bq_object tr' c' ≡ ok (c'', e)
      → bq_consumer_get tr c ≡ ok (tr', c'', e)
unfolding bq_consumer_get
get_runs tr tr' c c' c'' b e h m k = rw (m, k, h)

confirm-IsAt :
    (tr : Track) (c : Consumer) (a : ℕ) (p : Option ℕ)
    → p ≡ some a
    → c.queue_serial ≡ tr.queue_serial
    → before_head c.last_element_serial tr.queue ≡ false
    → confirm tr c p ≡ (c, some a)
unfolding confirm
confirm-IsAt tr c a none e s b = cc
confirm-IsAt tr c a (some d) e s b =
    rw (eq→== tr.queue_serial c.queue_serial (sym s), b) (ap (λ q. (c, q)) e)

confirm_nowhere : (tr : Track) (c : Consumer) (p : Option ℕ) → p ≡ none → confirm tr c p ≡ (c, none)
unfolding confirm
confirm_nowhere tr c none e = refl
confirm_nowhere tr c (some a) e = cc

bq_object_nowhere :
    (tr : Track) (c : Consumer) → c.current_element_pointer ≡ none → bq_object tr c ≡ ok (c, none)
unfolding bq_object object_at bq_consumer_confirm_pointer
bq_object_nowhere tr c h = rw (confirm_nowhere tr c c.current_element_pointer h)

bq_object_at :
    (tr : Track) (c : Consumer) (a : ℕ) (e : MParserBuffer) (next : Option ℕ)
    → c.current_element_pointer ≡ some a
    → c.queue_serial ≡ tr.queue_serial
    → before_head c.last_element_serial tr.queue ≡ false
    → deref a tr.queue ≡ ok (e, next)
    → bq_object tr c ≡ ok (c, some e)
unfolding bq_object object_at bq_consumer_confirm_pointer
bq_object_at tr c a e next p s b d = rw (confirm-IsAt tr c a c.current_element_pointer p s b, d)

-- The pointer is NULL once it was confirmed, so that the session moves.
Got-next :
    (o : ℕ → ℕ) (tr : Track) (c c' : Consumer)
    → bq_consumer_confirm_pointer tr c ≡ (c', none)
    → Confirmed o tr c (c', none)
    → tr.stopped ≡ false
    → Got o tr c
unfolding get_moved
Got-next o tr c c' q k h =
    let m = move_internal-Moved o tr c' (Confirmed-Sound o tr c (c', none) k) in
    elim (Bool-cases m.more) [
      | inl t ↦
          let (a, e, next, i, j, d, r) = m.at_next t in
          let (a', e', next', i', s, d', b) = m.ready t in
          record {
            track = m.track;
            consumer = m.consumer;
            element = some e;
            runs =
                get_runs tr m.track c m.consumer m.consumer m.more (some e) h (rw q m.runs)
                  (bq_object_at m.track m.consumer a e next i s b d);
            sound = m.sound;
            evolves = m.evolves;
            got = (
              a,
              next,
              d,
              i,
              j,
              inr (
                ap (λ x. x.1) q,
                subst (λ y. first_unread y tr.queue ≡ some (a, plain e)) k.last r,
              ),
            );
          }
      | inr t ↦
          let (i, j, r, s) = m.finished t in
          record {
            track = m.track;
            consumer = m.consumer;
            element = none;
            runs =
                get_runs tr m.track c m.consumer m.consumer m.more none h (rw q m.runs)
                  (bq_object_nowhere m.track m.consumer i);
            sound = m.sound;
            evolves = m.evolves;
            got = (ap (λ x. x.1) q, subst (λ y. first_unread y tr.queue ≡ none) k.last r);
          }
    ]

-- The pointer is confirmed, so that the session stays.
Got-here :
    (o : ℕ → ℕ) (tr : Track) (c c' : Consumer) (a : ℕ)
    → bq_consumer_confirm_pointer tr c ≡ (c', some a)
    → Confirmed o tr c (c', some a)
    → tr.stopped ≡ false
    → Got o tr c
unfolding get_moved
Got-here o tr c c' a q k h =
    let (e, next, d) = k.flight.live in
    let i : e.seq_no ≡ c.last_element_serial =
      HasAt-deref o (some a) tr.consumers tr.queue a c.last_element_serial e next k.flight.good
        (k.known a refl) d in
    let b : before_head c'.last_element_serial tr.queue ≡ false =
      subst (λ y. before_head y tr.queue ≡ false) (sym k.last)
        (Good-before_head o (some a) tr.consumers tr.queue a c.last_element_serial k.flight.good
          (k.known a refl)) in
    record {
      track = tr;
      consumer = c';
      element = some e;
      runs =
          get_runs tr tr c c' c' false (some e) h (rw q refl)
            (bq_object_at tr c' a e next k.pointer (k.same a refl) b d);
      sound = Confirmed-Sound o tr c (c', some a) k;
      evolves = Evolves-refl tr;
      got = (a, next, d, k.pointer, k.last ∙ sym i, inl (ap (λ x. x.1) q, sym i, refl));
    }

Got-from :
    (o : ℕ → ℕ) (tr : Track) (c c' : Consumer) (p : Option ℕ)
    → bq_consumer_confirm_pointer tr c ≡ (c', p)
    → Confirmed o tr c (c', p)
    → tr.stopped ≡ false
    → Got o tr c
Got-from o tr c c' none q k h = Got-next o tr c c' q k h
Got-from o tr c c' (some a) q k h = Got-here o tr c c' a q k h

pub get-Got :
    (o : ℕ → ℕ) (tr : Track) (c : Consumer) → Sound o tr c → tr.stopped ≡ false → Got o tr c
unfolding bq_consumer_confirm_pointer
get-Got o tr c s h =
    let k = confirm-Confirmed o tr c c.current_element_pointer refl s in
    let r = confirm tr c c.current_element_pointer in Got-from o tr c r.0 r.1 refl k h

-- Where a move has just put the pointer, `bq_consumer_get` gives the element there, and changes
-- nothing.
pub get-IsAt :
    (tr : Track) (c : Consumer)
    → tr.stopped ≡ false
    → IsAt tr c
    → (e : MParserBuffer) × (bq_consumer_get tr c ≡ ok (tr, c, some e))
unfolding bq_object object_at get_moved bq_consumer_confirm_pointer
get-IsAt tr c h (a, e, next, p, s, d, b) =
    let k : bq_consumer_confirm_pointer tr c ≡ (c, some a) =
      confirm-IsAt tr c a c.current_element_pointer p s b in
    let m : get_moved tr (bq_consumer_confirm_pointer tr c).0 (bq_consumer_confirm_pointer tr c).1
        ≡ ok (tr, c, false) =
      rw k refl in
    let n : bq_object tr c ≡ ok (c, some e) = rw (k, d) in
    (e, get_runs tr tr c c c false (some e) h m n)
