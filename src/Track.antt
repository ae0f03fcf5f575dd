-- ===== src/Track.antt =====
-- src/media/track.c and the structures of src/media/media.h that it works on: one producer's
-- queue of buffers, and the consumers (RTP sessions) that read it.
--
-- A `GList` node is a record with the address that a session's `current_element_pointer` holds;
-- nodes get addresses that were never used before (`next_addr`), so a pointer to a node that was
-- freed finds nothing in the queue, and reading through it is a `crash`. A `double` that is only
-- copied is the number of its bit pattern. Every function runs under the track's mutex, so it is
-- one step. The mutex itself, the condition variable and the logging have no counterpart.
pub mod Chain
pub mod Pointers
pub mod State
pub mod Steps
pub mod Unread
pub mod Reached
pub mod Walk
pub mod Confirm
pub mod Move
pub mod Get
pub mod Session
pub mod Wrap
pub mod Recount
pub mod System
mod Tests
use feng.Base.{
  ℕ, zero, suc, ◌+◌, ◌-◌, ◌%◌, ◌^◌, Bool, true, false, not, ◌||◌, Option, none, some, List, [], ◌∷◌,
  ◌++◌, map, Outcome, ok, crash, running, ◌>>=◌, ◌>>◌, assert, ltb, leb, ◌==◌, if◌then◌else◌,
  length,
}

abbrev pub Double : Type 0
Double = ℕ

-- `struct MParserBuffer`.
pub record MParserBuffer : Type 0 where
  pub seen : ℕ  -- gulong
  pub timestamp : Double
  pub delivery : Double
  pub duration : Double
  pub marker : Bool
  pub rtp_timestamp : ℕ  -- uint32_t
  pub seq_no : ℕ  -- uint16_t
  pub data_size : ℕ
  pub content : List ℕ  -- `data`

-- A node of `Track::queue`.
pub record Node : Type 0 where
  pub addr : ℕ
  pub elem : MParserBuffer

-- `struct Track`, less its lock, its condition, its callbacks and its texts.
pub record Track : Type 0 where
  pub queue : List Node
  pub next_addr : ℕ
  pub stopped : Bool
  pub next_serial : ℕ  -- uint16_t
  pub queue_serial : ℕ  -- gulong
  pub consumers : ℕ  -- gint
  pub payload_type : ℕ
  pub clock_rate : ℕ
  pub pts : Double
  pub dts : Double
  pub frame_duration : Double
  pub xiph_ident : ℕ × ℕ × ℕ
  pub is_avc : Bool
  pub nal_length_size : ℕ

-- What the queue keeps in an `RTP_session`.
pub record Consumer : Type 0 where
  pub queue_serial : ℕ  -- gulong
  pub current_element_pointer : Option ℕ
  pub last_element_serial : ℕ  -- uint16_t

abbrev pub u16 : ℕ → ℕ
u16 n = n % 2 ^ 16

abbrev pub gulong : ℕ → ℕ
gulong n = n % 2 ^ 64

-- The address and the sequence number of the queue's head.
abbrev pub head_addr : List Node → Option ℕ
head_addr [] = none
head_addr (n ∷ _) = some n.addr

abbrev pub is_empty : List Node → Bool
is_empty [] = true
is_empty (_ ∷ _) = false

-- `GLIST_TO_BQELEM(pointer)` and `pointer->next`: a crash if the pointer is not live.
pub deref : ℕ → List Node → Outcome (MParserBuffer × Option ℕ)
deref a [] = crash
deref a (n ∷ q) = if n.addr == a then ok (n.elem, head_addr q) else deref a q

-- `element->seen = seen` in the node at an address.
pub set_seen : ℕ → ℕ → List Node → List Node
set_seen a seen [] = []
set_seen a seen (n ∷ q) =
    if n.addr == a
    then record n { elem = record (n.elem) { seen = seen } } ∷ q
    else n ∷ set_seen a seen q

-- Whether `consumer->last_element_serial` lies before the head of the queue.
pub before_head : ℕ → List Node → Bool
before_head last [] = false
before_head last (n ∷ _) = ltb last n.elem.seq_no

pub confirm : Track → Consumer → Option ℕ → Consumer × Option ℕ
unfolding before_head
confirm tr c none = (c, none)
confirm tr c (some a) =
    if not (tr.queue_serial == c.queue_serial) || before_head c.last_element_serial tr.queue
    then (record c { current_element_pointer = none }, none)
    else (c, some a)

-- The new consumer, and what the function returns.
pub bq_consumer_confirm_pointer : Track → Consumer → Consumer × Option ℕ
unfolding confirm
bq_consumer_confirm_pointer tr c = confirm tr c c.current_element_pointer

-- `bq_producer_reset_queue_internal`: a new queue, whose serial number is the next.
unfoldable pub bq_producer_reset_queue_internal : Track → Track
bq_producer_reset_queue_internal tr = record tr {
  queue = [];
  queue_serial = gulong (tr.queue_serial + 1);
}

unfoldable pub track_reset_queue : Track → Outcome Track
unfolding bq_producer_reset_queue_internal
track_reset_queue tr = do assert (not tr.stopped); ok (bq_producer_reset_queue_internal tr)

pop_head : Track → List Node → Outcome Track
pop_head tr [] = crash
pop_head tr (n ∷ q) = do
  assert (n.elem.seen == tr.consumers)
  ok (record tr {
    queue = q;
    queue_serial = if is_empty q then gulong (tr.queue_serial + 1) else tr.queue_serial;
  })

pub bq_producer_destroy_head : Track → Outcome Track
unfolding pop_head
bq_producer_destroy_head tr = pop_head tr tr.queue

-- The track, and the element after the one that was passed.
pub bq_consumer_elem_unref : Track → ℕ → Outcome (Track × Option ℕ)
unfolding deref set_seen bq_producer_destroy_head
bq_consumer_elem_unref tr a = do
  (elem, next) ← deref a tr.queue
  assert (not (elem.seen == tr.consumers))
  let seen = gulong (elem.seen + 1)
  let tr' = record tr { queue = set_seen a seen tr.queue }
  tr'' ← if leb tr.consumers seen then bq_producer_destroy_head tr' else ok tr'
  ok (tr'', next)

-- The `while` of `bq_consumer_move_internal`, which passes what the consumer has had already.
-- Each round goes one node on, so that the queue's length is fuel enough.
pub skip_seen : ℕ → ℕ → Track → Option ℕ → Outcome (Track × Option ℕ)
skip_seen fuel last tr none = ok (tr, none)
skip_seen zero last tr (some a) = running
skip_seen (suc fuel) last tr (some a) = deref a tr.queue >>= λ r.
    let rest = bq_consumer_elem_unref tr a >>= λ s. skip_seen fuel last s.0 s.1 in
    if leb r.0.seq_no last then rest else ok (tr, some a)

first_next : Track → Option ℕ → Outcome (Track × Option ℕ)
first_next tr none = ok (tr, head_addr tr.queue)
first_next tr (some cep) = bq_consumer_elem_unref tr cep

-- `consumer->current_element_pointer = next`, and what follows if it is not NULL.
select_next : Track → Consumer → Option ℕ → Outcome (Track × Consumer × Bool)
unfolding deref
select_next tr c none = ok (tr, record c { current_element_pointer = none }, false)
select_next tr c (some a) = do
  (elem, _) ← deref a tr.queue
  ok (
    tr,
    record c {
      current_element_pointer = some a;
      last_element_serial = elem.seq_no;
      queue_serial = tr.queue_serial;
    },
    true,
  )

pub bq_consumer_move_internal : Track → Consumer → Outcome (Track × Consumer × Bool)
bq_consumer_move_internal tr c = do
  let (c', c_cep) = bq_consumer_confirm_pointer tr c
  (tr', next) ← first_next tr c_cep
  (tr'', next') ← skip_seen (length tr.queue) c'.last_element_serial tr' next
  select_next tr'' c' next'

-- `bq_consumer_stopped`; the argument is the consumer's track, if it has one.
unfoldable pub bq_consumer_stopped : Option Track → Bool
bq_consumer_stopped none = false
bq_consumer_stopped (some tr) = tr.stopped

-- `bq_consumer_move`; a stopped track is left alone.
unfoldable pub bq_consumer_move : Track → Consumer → Outcome (Track × Consumer × Bool)
unfolding bq_consumer_stopped
bq_consumer_move tr c =
    if bq_consumer_stopped (some tr) then ok (tr, c, false) else bq_consumer_move_internal tr c

object_at : Track → Consumer → Option ℕ → Outcome (Consumer × Option MParserBuffer)
unfolding deref
object_at tr c none = ok (c, none)
object_at tr c (some a) = do (elem, _) ← deref a tr.queue; ok (c, some elem)

-- `BQ_OBJECT`: the buffer at the confirmed pointer.
bq_object : Track → Consumer → Outcome (Consumer × Option MParserBuffer)
bq_object tr c = let (c', cep) = bq_consumer_confirm_pointer tr c in object_at tr c' cep

get_moved : Track → Consumer → Option ℕ → Outcome (Track × Consumer × Bool)
get_moved tr c none = bq_consumer_move_internal tr c
get_moved tr c (some _) = ok (tr, c, false)

pub bq_consumer_get : Track → Consumer → Outcome (Track × Consumer × Option MParserBuffer)
unfolding bq_consumer_stopped
bq_consumer_get tr c = if bq_consumer_stopped (some tr) then ok (tr, c, none) else do
  let (c', c_cep) = bq_consumer_confirm_pointer tr c
  (tr', c'', _) ← get_moved tr c' c_cep
  (c3, element) ← bq_object tr' c''
  ok (tr', c3, element)

-- `bq_consumer_unseen`: the difference of two `uint16_t` is an `int`, and then a `gulong`.
unfoldable pub bq_consumer_unseen : Track → Consumer → ℕ
unfolding bq_consumer_stopped
bq_consumer_unseen tr c =
    if bq_consumer_stopped (some tr)
    then 0
    else if not (c.queue_serial == tr.queue_serial)
    then length tr.queue
    else if is_empty tr.queue
    then 0
    else gulong (tr.next_serial + 2 ^ 64 - c.last_element_serial)

-- `while (bq_consumer_move_internal(consumer));`
pub move_all : ℕ → Track → Consumer → Outcome (Track × Consumer)
move_all zero tr c = running
move_all (suc fuel) tr c = bq_consumer_move_internal tr c >>= λ r.
    let rest = move_all fuel r.0 r.1 in if r.2 then rest else ok (r.0, r.1)

pub bq_decrement_seen_on_free : Node → Node
bq_decrement_seen_on_free n = record n {
  elem = record (n.elem) { seen = gulong (n.elem.seen + 2 ^ 64 - 1) };
}

-- `bq_consumer_free`. Each move but the last goes on by a node, and the first may begin anew.
pub bq_consumer_free : Track → Consumer → Outcome Track
bq_consumer_free tr c = do
  assert (ltb 0 tr.consumers)
  (tr', _) ← move_all (length tr.queue + 2) tr c
  ok (record tr' { queue = map bq_decrement_seen_on_free tr'.queue; consumers = tr'.consumers - 1 })

-- `track_new`: the pieces that are not zero.
unfoldable pub track_new : Track
unfolding bq_producer_reset_queue_internal
track_new = bq_producer_reset_queue_internal (record {
  queue = [];
  next_addr = 0;
  stopped = false;
  next_serial = 0;
  queue_serial = 0;
  consumers = 0;
  payload_type = 2 ^ 32 - 1;
  clock_rate = 2 ^ 32 - 1;
  pts = 0;
  dts = 0;
  frame_duration = 0;
  xiph_ident = (0, 0, 0);
  is_avc = false;
  nal_length_size = 0;
})

-- What `rtp_session_new` does to the track: `g_atomic_int_add(&tr->consumers, 1)`, and a session
-- whose fields are zero. A stopped track takes no session.
pub register_consumer : Track → Option (Track × Consumer)
register_consumer tr =
    if tr.stopped
    then none
    else some (
      record tr { consumers = tr.consumers + 1 },
      record { queue_serial = 0; current_element_pointer = none; last_element_serial = 0 },
    )

-- What `track_write` does to the track once it may write.
unfoldable pub enqueue : Track → MParserBuffer → Track
enqueue tr buffer =
    let seq = if buffer.seq_no == 0 then tr.next_serial else buffer.seq_no in
    let node : Node = record { addr = tr.next_addr; elem = record buffer { seq_no = seq } } in
    record tr {
      queue = tr.queue ++ node ∷ [];
      next_addr = tr.next_addr + 1;
      next_serial = u16 (seq + 1);
    }

unfoldable pub track_write : Track → MParserBuffer → Outcome Track
track_write tr buffer = do assert (not tr.stopped); ok (enqueue tr buffer)
