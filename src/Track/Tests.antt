-- ===== src/Track/Tests.antt =====
-- Runs of the queue, and its theorems at concrete inputs.
use feng.Base.{
  ℕ, ◌≡◌, refl, inl, inr, true, false, none, some, List, [], ◌∷◌, arith, Outcome, ok, length, map,
}
use feng.Rtp.{Surroundings, RtpSession}
use feng.Base.{◌++◌}
use feng.Track.{
  MParserBuffer, Node, Track, Consumer, track_new, bq_producer_reset_queue_internal,
  bq_consumer_move_internal, bq_consumer_get, bq_consumer_free, bq_consumer_confirm_pointer,
  first_next, select_next, get_moved, bq_object, object_at, move_all, register_consumer,
  track_write, enqueue, skip_seen, bq_consumer_elem_unref, bq_consumer_move,
}
use feng.Track.Confirm.{Sound}
use feng.Track.Move.{Moved, move_internal-Moved}
use feng.Track.Session.{Freed, free-Freed}
use feng.Track.Wrap.{move_internal-stalls}
use feng.Track.System.{System, Call, write, join, read, move, leave, step, run}
use feng.Track.System.Safety.{Inv}
use feng.Track.System.Runs.{new_system, run-new_safe}

abbrev buffer : MParserBuffer
buffer = record {
  seen = 0;
  timestamp = 0;
  delivery = 0;
  duration = 0;
  marker = true;
  rtp_timestamp = 0;
  seq_no = 0;
  data_size = 1;
  content = 7 ∷ [];
}

-- Two sessions; the second never asks until the first has had everything, and again.
abbrev greedy : List Call
greedy =
    join ∷ join ∷ write buffer ∷ write buffer ∷ read 0 ∷ move 0 ∷ read 0 ∷ read 1 ∷ leave 0 ∷ []

abbrev serials : Outcome System → List ℕ
serials (ok s) = map (λ (n : Node). n.elem.seq_no) s.track.queue
serials _ = []

abbrev before_greed : List Call
before_greed = join ∷ join ∷ write buffer ∷ write buffer ∷ read 0 ∷ move 0 ∷ []

queued_before :
    (serials (run new_system before_greed) ≡ 0 ∷ 1 ∷ []) × (serials (run new_system greedy) ≡ [])
unfolding run step track_new bq_producer_reset_queue_internal register_consumer track_write enqueue
    bq_consumer_get bq_consumer_move bq_consumer_free get_moved bq_object object_at
    bq_consumer_move_internal bq_consumer_confirm_pointer first_next select_next skip_seen move_all
    bq_consumer_elem_unref
queued_before = (refl, refl)

run-new_safe_example : (t : System) × (run new_system greedy ≡ ok t) × Inv (length greedy) t
run-new_safe_example = run-new_safe greedy (omega arith) (omega arith)

-- Two sessions; one of them is at the second of two elements.
abbrev node_of : ℕ → ℕ → ℕ → Node
node_of a seq seen = record { addr = a; elem = record buffer { seq_no = seq; seen = seen } }

abbrev sample : Track
sample = record {
  queue = node_of 4 4 1 ∷ node_of 5 5 0 ∷ [];
  next_addr = 6;
  stopped = false;
  next_serial = 6;
  queue_serial = 1;
  consumers = 2;
  payload_type = 96;
  clock_rate = 90000;
  pts = 0;
  dts = 0;
  frame_duration = 0;
  xiph_ident = (0, 0, 0);
  is_avc = false;
  nal_length_size = 0;
}

abbrev at_second : Consumer
at_second = record { queue_serial = 1; current_element_pointer = some 5; last_element_serial = 5 }

abbrev nobody : ℕ → ℕ
nobody a = 0

sample-Sound : Sound nobody sample at_second
sample-Sound = record {
  good = omega arith;
  below = omega arith;
  room = omega arith;
  few = omega arith;
  held = (omega arith, omega arith, λ e. inr (inr (inl (refl, refl))));
}

move_internal-Moved_example : Moved nobody sample at_second
move_internal-Moved_example = move_internal-Moved nobody sample at_second sample-Sound

free-Freed_example : Freed nobody sample at_second
free-Freed_example = free-Freed nobody sample at_second sample-Sound (omega arith)

abbrev last_number : Consumer
last_number = record {
  queue_serial = 1;
  current_element_pointer = none;
  last_element_serial = 65535;
}

last_number-Sound : Sound nobody sample last_number
last_number-Sound = record {
  good = omega arith;
  below = omega arith;
  room = omega arith;
  few = omega arith;
  held = tt;
}

move_internal-stalls_example :
    (tr' : Track) × (c' : Consumer) × (bq_consumer_move_internal sample last_number
      ≡ ok (tr', c', false))
    × (c'.last_element_serial ≡ 65535)
    × (c'.current_element_pointer ≡ none)
    × Sound nobody tr' c'
move_internal-stalls_example =
    move_internal-stalls nobody sample last_number last_number-Sound (omega arith) refl

-- The session's callback at the second element, with a third one behind it.
abbrev longer : Track
longer = record sample {
  queue = sample.queue ++ node_of 6 6 0 ∷ [];
  next_addr = 7;
  next_serial = 7;
}

abbrev surroundings : Surroundings
surroundings = record {
  calc_rtptime = λ begin b. 90;
  takes = λ p. true;
  now = 1000;
  tv_sec = 1000;
  tv_nsec = 0;
  elapsed = λ playback. 0;
  name = [];
  eor = false;
  is_live = false;
  is_positive = λ d. false;
  is_zero = λ d. true;
  differ = λ d e. true;
}

abbrev rtp_session : RtpSession
rtp_session = record {
  range = some (record { begin_time = 0; playback_time = 5 });
  start_rtptime = 4294967295;
  ssrc = 7;
  last_packet_send_time = 0;
  last_timestamp = 0;
  octet_count = 0;
  pkt_count = 0;
  consumer = at_second;
}
