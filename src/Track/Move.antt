-- ===== src/Track/Move.antt =====
-- `bq_consumer_move_internal` on a sound state: it returns, the state stays sound, and the
-- consumer goes forward.
use feng.Base.{
  ℕ, ◌+◌, ◌≤◌, ◌<◌, ◌≡◌, refl, sym, ◌∙◌, inl, inr, Bool, true, false, Option, none, some, List, [],
  ◌∷◌, arith, ok, ge→ltb, length,
}
use mathlib.Core.Path.{subst}
use native.Mathlib.Nat.{le_trans}
use feng.Track.{
  Node, Track, Consumer, MParserBuffer, deref, head_addr, before_head, first_next, select_next,
  skip_seen, confirm, bq_consumer_confirm_pointer, bq_consumer_move_internal,
}
use feng.Track.Chain.{Chain, Good, IsSeen, span}
use feng.Track.Pointers.{HasAt, deref→HasAt, IsLive-head, span-le_length}
use feng.Track.State.{Flight, Evolves, Evolves-refl, Evolves-trans, later}
use feng.Track.Steps.{elem_unref-Counting}
use feng.Track.Unread.{
  first_unread, plain, Passed, Passed-head, first_unread-end, first_unread-deref,
}
use feng.Track.Reached.{Through-HasAt}
use feng.Track.Walk.{Stops, skip_seen-Walk}
use feng.Track.Confirm.{Sound, Good-head, confirm-Confirmed, HasAt→Reaches, HasAt-addr, later-HasAt}

-- The consumer's pointer is at a live element, and will be confirmed.
abbrev pub IsAt : Track → Consumer → Type 0
IsAt tr c =
    (a : ℕ) × (e : MParserBuffer) × (next : Option ℕ) × (c.current_element_pointer ≡ some a)
    × (c.queue_serial ≡ tr.queue_serial)
    × (deref a tr.queue ≡ ok (e, next))
    × (before_head c.last_element_serial tr.queue ≡ false)

Chain-HasAt :
    (o : ℕ → ℕ) (p : Option ℕ) (prev : Node) (q : List Node) (a s : ℕ)
    → Chain o p prev q
    → HasAt a s q
    → prev.elem.seq_no < s
Chain-HasAt o p prev [] a s c h = absurd h
Chain-HasAt o p prev (n ∷ q) a s c (inl h) = omega (arith, c.1, h.1)
Chain-HasAt o p prev (n ∷ q) a s c (inr h) = omega (arith, Chain-HasAt o p n q a s c.3 h, c.1)

pub Good-before_head :
    (o : ℕ → ℕ) (p : Option ℕ) (k : ℕ) (q : List Node) (a s : ℕ)
    → Good o p k q
    → HasAt a s q
    → before_head s q ≡ false
unfolding before_head
Good-before_head o p k [] a s g h = refl
Good-before_head o p k (n ∷ q) a s g (inl h) = ge→ltb s n.elem.seq_no (omega (arith, h.1))
Good-before_head o p k (n ∷ q) a s g (inr h) =
    ge→ltb s n.elem.seq_no (omega (arith, Chain-HasAt o p n q a s g.1 h))

-- The element that the consumer's pointer is at is the first that it had not had.
abbrev pub IsNext : List Node → ℕ → Track → Consumer → Type 0
IsNext q last tr c =
    (a : ℕ) × (e : MParserBuffer) × (next : Option ℕ) × (c.current_element_pointer ≡ some a)
    × (c.last_element_serial ≡ e.seq_no)
    × (deref a tr.queue ≡ ok (e, next))
    × (first_unread last q ≡ some (a, plain e))

-- A call of `bq_consumer_move_internal` on a sound state.
pub record Moved (o : ℕ → ℕ) (tr : Track) (c : Consumer) : Type 0 where
  pub track : Track
  pub consumer : Consumer
  pub more : Bool
  pub runs : bq_consumer_move_internal tr c ≡ ok (track, consumer, more)
  pub sound : Sound o track consumer
  pub evolves : Evolves tr track
  pub forward :
      more ≡ true
      → (c.last_element_serial < consumer.last_element_serial)
        × (later consumer.last_element_serial track.queue + 1
            ≤ later c.last_element_serial tr.queue)
  pub ready : more ≡ true → IsAt track consumer
  pub at_next : more ≡ true → IsNext tr.queue c.last_element_serial track consumer
  pub finished :
      more ≡ false
      → (consumer.current_element_pointer ≡ none)
        × (consumer.last_element_serial ≡ c.last_element_serial)
        × (first_unread c.last_element_serial tr.queue ≡ none)
        × IsSeen track.queue

-- The element that the loop begins at.
record AtStart (o : ℕ → ℕ) (last : ℕ) (tr : Track) (p : Option ℕ) : Type 0 where
  track : Track
  next : Option ℕ
  runs : first_next tr p ≡ ok (track, next)
  flight : Flight o next track
  evolves : Evolves tr track
  tail : next ≡ none → IsSeen track.queue
  short : span next track.queue ≤ length tr.queue
  passed : Passed last next track.queue
  unread : first_unread last track.queue ≡ first_unread last tr.queue

head-IsSeen : (q : List Node) → head_addr q ≡ none → IsSeen q
head-IsSeen [] h = tt
head-IsSeen (n ∷ q) h = cc

first_next-AtStart :
    (o : ℕ → ℕ) (last : ℕ) (tr : Track) (p : Option ℕ)
    → ((a : ℕ) → p ≡ some a → HasAt a last tr.queue)
    → Flight o p tr
    → AtStart o last tr p
unfolding first_next
first_next-AtStart o last tr none r f = record {
  track = tr;
  next = head_addr tr.queue;
  runs = refl;
  flight = record {
    good = Good-head o tr.consumers tr.queue f.good;
    live = IsLive-head tr.queue;
    below = f.below;
    room = f.room;
    few = f.few;
  };
  evolves = Evolves-refl tr;
  tail = head-IsSeen tr.queue;
  short = span-le_length (head_addr tr.queue) tr.queue;
  passed = Passed-head o none tr.consumers last tr.queue f.good;
  unread = refl;
}
first_next-AtStart o last tr (some a) r f =
    let u = elem_unref-Counting o a tr f in
    let v =
      u.unread last (Through-HasAt o (some a) tr.consumers tr.queue a last f.good (r a refl)) in
    record {
      track = u.track;
      next = u.next;
      runs = u.runs;
      flight = u.flight;
      evolves = u.evolves;
      tail = u.tail;
      short = omega (arith, u.shorter, span-le_length (some a) tr.queue);
      passed = v.0;
      unread = v.1;
    }

move_runs :
    (tr : Track) (c : Consumer) (t₁ t₂ : Track) (n₁ n₂ : Option ℕ) (r : Track × Consumer × Bool)
    → let (c', p) = bq_consumer_confirm_pointer tr c in
      first_next tr p ≡ ok (t₁, n₁)
      → skip_seen (length tr.queue) c'.last_element_serial t₁ n₁ ≡ ok (t₂, n₂)
      → select_next t₂ c' n₂ ≡ ok r
      → bq_consumer_move_internal tr c ≡ ok r
unfolding bq_consumer_move_internal
move_runs tr c t₁ t₂ n₁ n₂ r e₁ e₂ e₃ = rw (e₁, e₂, e₃)

-- What `select_next` makes of the pointer at which the loop stopped.
record Selected (o : ℕ → ℕ) (tr : Track) (c : Consumer) (next : Option ℕ) : Type 0 where
  consumer : Consumer
  more : Bool
  runs : select_next tr c next ≡ ok (tr, consumer, more)
  sound : Sound o tr consumer
  forward :
      more ≡ true
      → (c.last_element_serial < consumer.last_element_serial)
        × (later consumer.last_element_serial tr.queue + 1 ≤ later c.last_element_serial tr.queue)
  ready : more ≡ true → IsAt tr consumer
  at_next : more ≡ true → IsNext tr.queue c.last_element_serial tr consumer
  finished :
      more ≡ false
      → (consumer.current_element_pointer ≡ none)
        × (consumer.last_element_serial ≡ c.last_element_serial)
        × (first_unread c.last_element_serial tr.queue ≡ none)
        × IsSeen tr.queue

select_next-Selected :
    (o : ℕ → ℕ) (tr : Track) (c : Consumer) (next : Option ℕ)
    → Flight o next tr
    → Stops c.last_element_serial next tr.queue
    → Passed c.last_element_serial next tr.queue
    → Selected o tr c next
unfolding select_next
select_next-Selected o tr c none f s r = record {
  consumer = record c { current_element_pointer = none };
  more = false;
  runs = refl;
  sound = record { good = f.good; below = f.below; room = f.room; few = f.few; held = tt };
  forward = λ x. cc;
  ready = λ x. cc;
  at_next = λ x. cc;
  finished = λ x. (refl, refl, first_unread-end c.last_element_serial tr.queue r, s);
}
select_next-Selected o tr c (some a) f s r =
    let (e, next, d, l) = s in
    let h = deref→HasAt tr.queue a e next d in
    record {
      consumer = record {
        queue_serial = tr.queue_serial;
        current_element_pointer = some a;
        last_element_serial = e.seq_no;
      };
      more = true;
      runs = rw d;
      sound = record {
        good = f.good;
        below = f.below;
        room = f.room;
        few = f.few;
        held = (
          HasAt-addr a e.seq_no tr.next_addr tr.next_serial tr.queue f.below h,
          omega arith,
          λ x. HasAt→Reaches a e.seq_no tr.queue h,
        );
      };
      forward = λ x. (l, later-HasAt a e.seq_no c.last_element_serial tr.queue h l);
      ready = λ x. (
        a,
        e,
        next,
        refl,
        refl,
        d,
        Good-before_head o (some a) tr.consumers tr.queue a e.seq_no f.good h,
      );
      at_next = λ x. (
        a,
        e,
        next,
        refl,
        refl,
        d,
        first_unread-deref o (some a) tr.consumers c.last_element_serial tr.queue a e next f.good r
            d l,
      );
      finished = λ x. cc;
    }

-- On a sound state `bq_consumer_move_internal` returns, and the state after it is sound. If an
-- element with a number above the session's last one was queued, it returns true, and the session's
-- pointer is at the first such element, with its number as the last one; the session has fewer
-- elements before it than it had. If there was none, it returns false: the pointer is NULL, the
-- number is as it was, and every element that is left in the queue has been counted.
pub move_internal-Moved : (o : ℕ → ℕ) (tr : Track) (c : Consumer) → Sound o tr c → Moved o tr c
unfolding bq_consumer_confirm_pointer
move_internal-Moved o tr c s =
    let k = confirm-Confirmed o tr c c.current_element_pointer refl s in
    let (c', p) = confirm tr c c.current_element_pointer in
    let last = c'.last_element_serial in
    let f =
      first_next-AtStart o last tr p
        (λ a e. subst (λ y. HasAt a y tr.queue) (sym k.last) (k.known a e)) k.flight in
    let w =
      skip_seen-Walk (length tr.queue) o c'.last_element_serial f.next f.track f.flight f.tail
        f.short f.passed in
    let t = select_next-Selected o w.track c' w.next w.flight w.stops w.passed in
    let u : first_unread c.last_element_serial w.track.queue
        ≡ first_unread c.last_element_serial tr.queue =
      subst (λ y. first_unread y w.track.queue ≡ first_unread y tr.queue) k.last
        (w.unread ∙ f.unread) in
    let v = Evolves-trans tr f.track w.track f.evolves w.evolves in
    record {
      track = w.track;
      consumer = t.consumer;
      more = t.more;
      runs =
          move_runs tr c f.track w.track f.next w.next (w.track, t.consumer, t.more) f.runs w.runs
            t.runs;
      sound = t.sound;
      evolves = v;
      forward = λ x.
          let g = t.forward x in
          (
            subst (λ (x : ℕ). x < t.consumer.last_element_serial) k.last g.0,
            le_trans
                (subst
                  (λ (x : ℕ).
                    later t.consumer.last_element_serial w.track.queue + 1 ≤ later x w.track.queue)
                  k.last g.1)
                (v.fewer c.last_element_serial),
          );
      ready = t.ready;
      at_next = λ x.
          let (a, e, n, i, j, d, r) = t.at_next x in
          (
            a,
            e,
            n,
            i,
            j,
            d,
            sym u ∙ subst (λ y. first_unread y w.track.queue ≡ some (a, plain e)) k.last r,
          );
      finished = λ x.
          let g = t.finished x in
          (
            g.0,
            g.1 ∙ k.last,
            sym u ∙ subst (λ y. first_unread y w.track.queue ≡ none) k.last g.2,
            g.3,
          );
    }
