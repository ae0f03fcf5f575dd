-- ===== src/Live/Queued.antt =====
-- What `flux_read_messages` queues (src/media/resource_live.c).
use feng.Base.{
  ◌≡◌, ◌≢◌, ◌≤◌, refl, sym, ap, ◌∙◌, inl, inr, false, Option, none, some, List, [], ◌∷◌, ◌++◌,
  append-nil, append_assoc, Outcome, ok, ◌>>=◌, ltb, ◌==◌, if◌then◌else◌, Bool-cases, arith,
}
use feng.Track.{Double, Node, Track, track_write, enqueue}
use feng.Live.Flux.{
  flux_version, header_size, FluxMessage, Floats, stale_duration, timed, flux_buffer, keep_message,
  flux_step, flux_read_messages, fresh_messages, Carries, CarriesAll, Whole,
}

-- What the queue of a track gains.
record Gains (tr : Track) (ns : List Node) (r : Outcome Track) : Type 0 where
  tr' : Track
  runs : r ≡ ok tr'
  queue : tr'.queue ≡ tr.queue ++ ns
  stopped : tr'.stopped ≡ tr.stopped
  consumers : tr'.consumers ≡ tr.consumers

nothing : (tr : Track) → Gains tr [] (ok tr)
nothing tr = record {
  tr' = tr;
  runs = refl;
  queue = sym (append-nil tr.queue);
  stopped = refl;
  consumers = refl;
}

module _ (floats : Floats) where
  record Timed (tr t : Track) : Type 0 where
    queue : t.queue ≡ tr.queue
    stopped : t.stopped ≡ tr.stopped
    consumers : t.consumers ≡ tr.consumers

  timed-Timed : (m : FluxMessage) (tr : Track) → Timed tr (timed floats m tr)
  unfolding timed stale_duration
  timed-Timed m tr =
      let rate = floats.of_number tr.clock_rate in
      elim (Bool-cases (floats.is_zero (floats.over m.duration rate))) [
        | inl e ↦ elim (Bool-cases (floats.is_zero tr.dts)) [
          | inl f ↦ rw (e, f) (record { queue = refl; stopped = refl; consumers = refl })
          | inr f ↦ rw (e, f) (record { queue = refl; stopped = refl; consumers = refl })
        ]
        | inr e ↦ rw e (record { queue = refl; stopped = refl; consumers = refl })
      ]

  record Kept (m : FluxMessage) (tr : Track) (r : Outcome Track) : Type 0 where
    node : Node
    carries : Carries m node.elem
    gains : Gains tr (node ∷ []) r

  keep_message-Kept :
      (m : FluxMessage) (tr : Track)
      → tr.stopped ≡ false
      → header_size ≤ m.msg_len
      → Kept m tr (keep_message floats m tr)
  unfolding keep_message track_write enqueue flux_buffer
  keep_message-Kept m tr s l =
      let t = timed floats m tr in
      let d = timed-Timed m tr in
      let b = flux_buffer floats m t in
      let go : ltb m.msg_len header_size ≡ false = ground arith in
      let open_track : t.stopped ≡ false = d.stopped ∙ s in
      record {
        node = record {
          addr = t.next_addr;
          elem = record b { seq_no = if m.sequence == 0 then t.next_serial else m.sequence };
        };
        carries = record {
          payload = refl;
          stamp = refl;
          mark = refl;
          number = λ n. let e : (m.sequence == 0) ≡ false = ground arith in rw e refl;
        };
        gains = record {
          tr' = enqueue t b;
          runs = rw (go, open_track) refl;
          queue = rw d.queue refl;
          stopped = d.stopped;
          consumers = d.consumers;
        };
      }

  record Queues (tr : Track) (ms : List FluxMessage) (r : Outcome Track) : Type 0 where
    nodes : List Node
    gains : Gains tr nodes r
    idle : tr.consumers ≡ 0 → nodes ≡ []
    busy : tr.consumers ≢ 0 → CarriesAll ms nodes

  -- A message is queued, and then the rest is.
  one_more :
      (m : FluxMessage) (ms : List FluxMessage) (tr : Track) (r : Outcome Track)
      (rest : Track → Outcome Track)
      → tr.consumers ≢ 0
      → (k : Kept m tr r) → Queues (k.gains.tr') ms (rest (k.gains.tr'))
      → Queues tr (m ∷ ms) (r >>= rest)
  one_more m ms tr r rest c k q = record {
    nodes = k.node ∷ q.nodes;
    gains = record {
      tr' = q.gains.tr';
      runs = rw k.gains.runs q.gains.runs;
      queue =
          q.gains.queue
          ∙ (ap (λ l. l ++ q.nodes) k.gains.queue ∙ append_assoc tr.queue (k.node ∷ []) q.nodes);
      stopped = q.gains.stopped ∙ k.gains.stopped;
      consumers = q.gains.consumers ∙ k.gains.consumers;
    };
    idle = λ z. absurd (c z);
    busy = λ n. (k.carries, q.busy (λ z. c (sym k.gains.consumers ∙ z)));
  }

  run_lem :
      (events : List (Double × Option FluxMessage)) (tr : Track)
      → tr.stopped ≡ false
      → Whole events
      → Queues tr (fresh_messages floats events) (flux_read_messages floats events tr)
  unfolding flux_read_messages flux_step
  run_lem [] tr s w = record { nodes = []; gains = nothing tr; idle = λ z. refl; busy = λ n. tt }
  run_lem ((now, none) ∷ rest) tr s w = run_lem rest tr s w
  run_lem ((now, some m) ∷ rest) tr s w =
      let more = run_lem rest tr s w.1 in
      elim (Bool-cases (m.proto_version == flux_version)) [
        | inr v ↦ rw v more
        | inl v ↦ elim (Bool-cases (tr.consumers == 0)) [
          | inl c ↦
              let none_listens : tr.consumers ≡ 0 = ground arith in
              rw (v, c)
                (record {
                  nodes = more.nodes;
                  gains = more.gains;
                  idle = more.idle;
                  busy = λ n. absurd (n none_listens);
                })
          | inr c ↦
              let listens : tr.consumers ≢ 0 = ground arith in
              elim (Bool-cases (floats.is_late (floats.minus now m.insertion_time))) [
                | inl l ↦ rw (v, c, l) more
                | inr l ↦
                    let k = keep_message-Kept m tr s w.0 in
                    rw (v, c, l)
                      (one_more m (fresh_messages floats rest) tr (keep_message floats m tr)
                        (flux_read_messages floats rest) listens k
                        (run_lem rest k.gains.tr' (k.gains.stopped ∙ s) w.1))
              ]
        ]
      ]

-- The thread of a live track that is not stopped queues, behind what the queue holds, one buffer for
-- each message that it receives in the right version and not late, in their order, with the
-- message's bytes behind the header, its timestamp, its marker bit, and its sequence number if that
-- is not zero. It queues nothing while the track has no consumers. The condition: every message is
-- at least as long as its header.
pub flux_read_messages_lem :
    (floats : Floats) (events : List (Double × Option FluxMessage)) (tr : Track)
    → tr.stopped ≡ false
    → Whole events
    → (tr' : Track) × (nodes : List Node) × ((flux_read_messages floats events tr ≡ ok tr')
        × ((tr'.queue ≡ tr.queue ++ nodes)
            × ((tr.consumers ≡ 0 → nodes ≡ [])
                × (tr.consumers ≢ 0 → CarriesAll (fresh_messages floats events) nodes))))
flux_read_messages_lem floats events tr s w =
    let q = run_lem floats events tr s w in
    (q.gains.tr', q.nodes, (q.gains.runs, (q.gains.queue, (q.idle, q.busy))))
