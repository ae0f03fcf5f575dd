-- ===== src/Track/Recount.antt =====
-- A session that had everything and asks again counts what is still queued a second time.
use feng.Base.{◌+◌, ◌^◌, ◌≤◌, ◌<◌, ◌≡◌, refl, false, none, [], ◌∷◌, arith, ok, le→leb, ne→==, eq→==}
use feng.Track.{
  Node, Track, Consumer, bq_consumer_move_internal, bq_consumer_confirm_pointer, first_next,
  select_next, skip_seen, bq_consumer_elem_unref, gulong,
}
use feng.Track.State.{with_queue}

-- Where only one session has still to count the one element that is queued, and another one that
-- had it (its pointer is NULL, and its last number is no lower) asks for the next, then the element
-- is freed: the session that never had it will not get it.
pub move_internal-recounts :
    (tr : Track) (c : Consumer) (n : Node)
    → c.current_element_pointer ≡ none
    → n.elem.seq_no ≤ c.last_element_serial
    → n.elem.seen + 1 ≡ tr.consumers
    → tr.consumers < 2 ^ 64
    → bq_consumer_move_internal (with_queue tr (n ∷ [])) c
      ≡ ok (
        record tr { queue = []; queue_serial = gulong (tr.queue_serial + 1) },
        record c { current_element_pointer = none },
        false,
      )
unfolding bq_consumer_move_internal bq_consumer_confirm_pointer first_next skip_seen
    bq_consumer_elem_unref select_next
move_internal-recounts tr c n h l k w =
    let g : gulong (n.elem.seen + 1) ≡ n.elem.seen + 1 = omega arith in
    rw (
      h,
      eq→== n.addr n.addr refl,
      le→leb n.elem.seq_no c.last_element_serial l,
      ne→== n.elem.seen tr.consumers (omega arith),
      g,
      le→leb tr.consumers (n.elem.seen + 1) (omega arith),
      eq→== (n.elem.seen + 1) tr.consumers k,
    )
