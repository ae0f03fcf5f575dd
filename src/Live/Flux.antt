-- ===== src/Live/Flux.antt =====
-- `flux_read_messages` (src/media/resource_live.c): the thread that queues a live track's packets.
--
-- What `mq_receive` answers is an argument, and so is the arithmetic of doubles. A message that is
-- not long enough for its header makes `data_size` wrap around, and `g_memdup` read far behind the
-- buffer. A queue that cannot be opened or read is opened again, which leaves the track alone.
use feng.Base.{
  ℕ, ◌≡◌, ◌≢◌, ◌≤◌, ◌+◌, ◌-◌, ◌%◌, ◌^◌, Bool, not, ◌&&◌, Option, none, some, List, [], ◌∷◌, Outcome,
  ok, crash, ◌>>=◌, ltb, leb, ◌==◌, if◌then◌else◌, take,
}
use feng.Track.{Double, MParserBuffer, Node, Track, track_write}

-- `REQUIRED_FLUX_PROTOCOL_VERSION` and `sizeof(struct flux_msg)`, which is packed.
abbrev pub flux_version : ℕ
flux_version = 4

abbrev pub header_size : ℕ
header_size = 4 + 8 + 4 + 4 + 8 + 8 + 1 + 1 + 2 + 4 + 4

-- The buffer after `mq_receive`, with what the call returned, and `behind`, what the memory holds
-- behind the header. `seq_no` and `timestamp` are the numbers that the network order stands for.
pub record FluxMessage : Type 0 where
  pub msg_len : ℕ  -- ssize_t
  pub proto_version : ℕ
  pub start_time : Double
  pub dts : ℕ
  pub start_dts : ℕ
  pub duration : Double
  pub insertion_time : Double
  pub marker : ℕ  -- uint8_t
  pub sequence : ℕ  -- `seq_no`
  pub timestamp : ℕ
  pub behind : List ℕ

-- The operations on doubles that the thread uses.
pub record Floats : Type 0 where
  pub of_number : ℕ → Double
  pub plus : Double → Double → Double
  pub minus : Double → Double → Double
  pub over : Double → Double → Double
  pub times_three : Double → Double
  pub is_zero : Double → Bool
  pub is_late : Double → Bool  -- `delta > 0.5f`

module _ (floats : Floats) where
  -- What the hack does to a track whose duration is zero.
  unfoldable pub stale_duration : Double → Track → Track
  stale_duration timestamp tr =
      if floats.is_zero tr.frame_duration
      then (if floats.is_zero tr.dts
          then record tr { dts = timestamp }
          else record tr { frame_duration = floats.minus timestamp tr.dts })
      else tr

  -- The track with its duration, for a message that is kept.
  unfoldable pub timed : FluxMessage → Track → Track
  unfolding stale_duration
  timed m tr =
      let rate = floats.of_number tr.clock_rate in
      stale_duration (floats.over (floats.of_number m.timestamp) rate)
        (record tr { frame_duration = floats.over m.duration rate })

  unfoldable pub flux_buffer : FluxMessage → Track → MParserBuffer
  flux_buffer m tr =
      let rate = floats.of_number tr.clock_rate in
      let ticks = floats.of_number ((m.dts + 2 ^ 32 - m.start_dts) % 2 ^ 32) in
      record {
        seen = 0;
        timestamp = floats.over (floats.of_number m.timestamp) rate;
        delivery = floats.plus m.start_time (floats.over ticks rate);
        duration = floats.times_three tr.frame_duration;
        marker = leb 128 m.marker;
        rtp_timestamp = m.timestamp;
        seq_no = m.sequence;
        data_size = m.msg_len - header_size;
        content = take (m.msg_len - header_size) m.behind;
      }

  -- What is done with a message that is kept.
  unfoldable pub keep_message : FluxMessage → Track → Outcome Track
  unfolding timed flux_buffer
  keep_message m tr =
      let tr' = timed m tr in
      if ltb m.msg_len header_size then crash else track_write tr' (flux_buffer m tr')

  -- A round of the inner loop; `now` is the clock. Where it breaks, the outer loop goes on.
  unfoldable pub flux_step : Double → Option FluxMessage → Track → Outcome Track
  unfolding keep_message
  flux_step now none tr = ok tr
  flux_step now (some m) tr =
      if not (m.proto_version == flux_version)
      then ok tr
      else if tr.consumers == 0
      then ok tr
      else if floats.is_late (floats.minus now m.insertion_time)
      then ok tr
      else keep_message m tr

  -- The thread, over what is received and when.
  unfoldable pub flux_read_messages : List (Double × Option FluxMessage) → Track → Outcome Track
  unfolding flux_step
  flux_read_messages [] tr = ok tr
  flux_read_messages ((now, received) ∷ rest) tr =
      flux_step now received tr >>= λ tr'. flux_read_messages rest tr'

  -- The messages that are queued where there are consumers: of the right version, and not late.
  abbrev pub is_fresh : Double → FluxMessage → Bool
  is_fresh now m =
      (m.proto_version == flux_version) && not (floats.is_late (floats.minus now m.insertion_time))

  abbrev pub fresh_messages : List (Double × Option FluxMessage) → List FluxMessage
  fresh_messages [] = []
  fresh_messages ((now, none) ∷ rest) = fresh_messages rest
  fresh_messages ((now, some m) ∷ rest) =
      let more = fresh_messages rest in if is_fresh now m then m ∷ more else more

-- What a queued buffer has of its message.
pub record Carries (m : FluxMessage) (b : MParserBuffer) : Type 0 where
  pub payload : b.content ≡ take (m.msg_len - header_size) m.behind
  pub stamp : b.rtp_timestamp ≡ m.timestamp
  pub mark : b.marker ≡ leb 128 m.marker
  pub number : m.sequence ≢ 0 → b.seq_no ≡ m.sequence

abbrev pub CarriesAll : List FluxMessage → List Node → Type 0
CarriesAll [] [] = Unit
CarriesAll (m ∷ ms) (n ∷ ns) = Carries m n.elem × CarriesAll ms ns
CarriesAll _ _ = ⊥

-- Every message is as long as a header, at least.
abbrev pub Whole : List (Double × Option FluxMessage) → Type 0
Whole [] = Unit
Whole ((now, none) ∷ rest) = Whole rest
Whole ((now, some m) ∷ rest) = header_size ≤ m.msg_len × Whole rest
