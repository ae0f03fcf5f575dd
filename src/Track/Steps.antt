-- ===== src/Track/Steps.antt =====
-- One element counted as seen: the call does not fail, and what other consumers hold stays valid.
use mathlib.Core.Path.{subst}
use feng.Base.{
  ℕ, ◌+◌, ◌^◌, ◌<◌, ◌≡◌, sym, ap, ◌∙◌, Option, none, some, List, [], ◌∷◌, arith, ok, eq→==, ne→==,
  le→leb, gt→leb,
}
use native.Mathlib.Decide.{dec_lt}
use feng.Track.{
  MParserBuffer, Node, Track, deref, set_seen, head_addr, gulong, bq_consumer_elem_unref,
}
use feng.Track.State.{
  Flight, Evolves, with_queue, popped, IsBelow-set_seen, potential-set_seen, count-Evolves,
  pop-Evolves,
}
use feng.Track.Chain.{
  Good, IsLive, span, Beyond, deref-lt, Beyond-le, head_addr-Beyond, set_seen-Counted, Counted,
  IsSeen, IsSeen-head_none, IsSeen-count, set_seen_later, set_seen_at,
}
use feng.Track.Pointers.{
  IsLive-head, IsLive-next, IsLive-cons, span-set_seen, span-head, span-cons, IsLive-set_seen,
  span-next,
}
use feng.Track.Unread.{
  Through, Passed, first_unread, first_unread-tail, first_unread-set_seen, Passed-head,
  Passed-set_seen, Passed-next,
}

unref_keep :
    (tr : Track) (a : ℕ) (e : MParserBuffer) (next : Option ℕ)
    → tr.consumers < 2 ^ 64
    → deref a tr.queue ≡ ok (e, next)
    → e.seen + 1 < tr.consumers
    → bq_consumer_elem_unref tr a ≡ ok (with_queue tr (set_seen a (e.seen + 1) tr.queue), next)
unfolding bq_consumer_elem_unref
unref_keep tr a e next few h l =
    let w : gulong (e.seen + 1) ≡ e.seen + 1 = omega arith in
    rw (h, w, ne→== e.seen tr.consumers (omega arith), gt→leb tr.consumers (e.seen + 1) l)

unref_pop :
    (tr : Track) (n : Node) (q : List Node) (a : ℕ) (e : MParserBuffer) (next : Option ℕ)
    → tr.consumers < 2 ^ 64
    → deref a (n ∷ q) ≡ ok (e, next)
    → n.addr ≡ a
    → e.seen + 1 ≡ tr.consumers
    → bq_consumer_elem_unref (with_queue tr (n ∷ q)) a ≡ ok (popped tr q, next)
unfolding bq_consumer_elem_unref
unref_pop tr n q a e next few h i l =
    let w : gulong (e.seen + 1) ≡ e.seen + 1 = omega arith in
    rw (
      h,
      w,
      ne→== e.seen tr.consumers (omega arith),
      le→leb tr.consumers (e.seen + 1) (omega arith),
      eq→== n.addr a i,
      eq→== (e.seen + 1) tr.consumers l,
    )

-- What a call of `bq_consumer_elem_unref` comes to.
pub record Counting (o : ℕ → ℕ) (a : ℕ) (tr : Track) : Type 0 where
  pub track : Track
  pub next : Option ℕ
  pub runs : bq_consumer_elem_unref tr a ≡ ok (track, next)
  pub flight : Flight o next track
  pub evolves : Evolves tr track
  -- If it was the last element, every one left has been counted.
  pub tail : next ≡ none → IsSeen track.queue
  pub shorter : span next track.queue + 1 ≡ span (some a) tr.queue
  -- Of what a consumer has not had, past this element, nothing is lost, and the pointer does not
  -- pass it.
  pub unread :
      (last : ℕ)
      → Through last a tr.queue
      → Passed last next track.queue × (first_unread last track.queue ≡ first_unread last tr.queue)

span_pop :
    (n : Node) (q : List Node) (a : ℕ) (next : Option ℕ)
    → n.addr ≡ a
    → head_addr q ≡ next
    → span next q + 1 ≡ span (some a) (n ∷ q)
span_pop n q a next i l = rw (eq→== n.addr a i, ← l) (omega (arith, span-head q))

module _ (o : ℕ → ℕ) (a : ℕ) (tr : Track) (n : Node) (q : List Node) (e : MParserBuffer)
    (next : Option ℕ) (f : Flight o (some a) (with_queue tr (n ∷ q)))
    (h : deref a (n ∷ q) ≡ ok (e, next)) where
  unref_full :
      n.addr ≡ a
      → e.seen + 1 ≡ tr.consumers
      → head_addr q ≡ next
      → Good o next tr.consumers q
      → Counting o a (with_queue tr (n ∷ q))
  unref_full i k l g =
      let v = pop-Evolves o (some a) tr n q f.room f.good.1 in
      record {
        track = popped tr q;
        next = next;
        runs = unref_pop tr n q a e next f.few h i k;
        flight = record {
          good = g;
          live = subst (λ x. IsLive x q) l (IsLive-head q);
          below = f.below.1;
          room = omega (arith, v.spent, f.room);
          few = f.few;
        };
        evolves = v;
        tail = λ x. IsSeen-head_none q (l ∙ x);
        shorter = span_pop n q a next i l;
        unread = λ last t. (
          subst (λ x. Passed last x q) l (Passed-head o next tr.consumers last q g),
          sym (first_unread-tail last n q (t.0 (omega (arith, i)))),
        );
      }

  -- The element stays in the queue.
  unref_counted :
      e.seen + 1 < tr.consumers
      → Good o next tr.consumers (set_seen a (e.seen + 1) (n ∷ q))
      → IsLive next (n ∷ q)
      → span next (n ∷ q) + 1 ≡ span (some a) (n ∷ q)
      → Counting o a (with_queue tr (n ∷ q))
  unref_counted l g v s = record {
    track = with_queue tr (set_seen a (e.seen + 1) (n ∷ q));
    next = next;
    runs = unref_keep (with_queue tr (n ∷ q)) a e next f.few h l;
    flight = record {
      good = g;
      live = IsLive-set_seen next a (e.seen + 1) (n ∷ q) v;
      below = IsBelow-set_seen tr.next_addr tr.next_serial a (e.seen + 1) (n ∷ q) f.below;
      room = omega (arith, f.room, potential-set_seen tr.queue_serial a (e.seen + 1) (n ∷ q));
      few = f.few;
    };
    evolves = count-Evolves (with_queue tr (n ∷ q)) a (e.seen + 1);
    tail = λ x.
        IsSeen-count o next tr.consumers a e.seen (n ∷ q) e
          (subst (λ y. deref a (n ∷ q) ≡ ok (e, y)) x h) g;
    shorter = rw (span-set_seen next a (e.seen + 1) (n ∷ q)) s;
    unread = λ last t. (
      Passed-set_seen last next a (e.seen + 1) (n ∷ q)
          (Passed-next o (some a) last n q a e next f.good.1 h t),
      first_unread-set_seen last a (e.seen + 1) (n ∷ q),
    );
  }

  unref_Counted : Counted o tr.consumers n q a e next → Counting o a (with_queue tr (n ∷ q))
  unref_Counted (Counted.at_head i j l c g) =
      let b : Beyond n.addr next =
        subst (λ x. Beyond n.addr x) l (head_addr-Beyond o (some a) n q f.good.1) in
      elim (dec_lt (e.seen + 1) tr.consumers) [
        | yes m ↦
            unref_counted m (rw (set_seen_at n q a (e.seen + 1) i, ← j) (rw (← j) at m, c))
              (IsLive-cons next n q b (subst (λ x. IsLive x q) l (IsLive-head q)))
              (rw (span-cons next n q b) (span_pop n q a next i l))
        | no m ↦ unref_full i (omega (arith, f.good.0, ap (λ (x : MParserBuffer). x.seen) j)) l g
      ]
  unref_Counted (Counted.behind l i j g) =
      let d = deref-lt o (some a) n q a e next f.good.1 j in
      let b : Beyond n.addr next = Beyond-le n.addr a next (omega arith) d.1 in
      unref_counted l (rw (set_seen_later n q a (e.seen + 1) i) g)
        (IsLive-cons next n q b (IsLive-next o (some a) n q a e next f.good.1 j))
        (rw (span-cons next n q b, ne→== n.addr a i) (span-next o (some a) n q a e next f.good.1 j))

unref_at :
    (o : ℕ → ℕ) (a : ℕ) (tr : Track) (q : List Node)
    → Flight o (some a) (with_queue tr q)
    → Counting o a (with_queue tr q)
unfolding deref
unref_at o a tr [] f = cc (f.live.2)
unref_at o a tr (n ∷ q) f =
    let (e, next, h) = f.live in
    unref_Counted o a tr n q e next f h (set_seen-Counted o tr.consumers n q a e next f.good h)

-- The element that the pointer is at can be counted: the assertions hold, and no freed node is
-- read.
pub elem_unref-Counting : (o : ℕ → ℕ) (a : ℕ) (tr : Track) → Flight o (some a) tr → Counting o a tr
elem_unref-Counting o a tr f = unref_at o a tr tr.queue f
