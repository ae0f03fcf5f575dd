-- ===== src/Rtp.antt =====
-- src/network/rtp.c: a packet, and the callback that sends what is due.
--
-- Values of `double` are bit patterns; what is computed from them, the clock, and whether the
-- transport takes a packet are inputs. The machine is little-endian.
pub mod Packet
pub mod Writing
mod Tests
use feng.Base.{
  ℕ, ◌+◌, ◌*◌, ◌%◌, ◌^◌, Bool, true, false, Option, none, some, List, [], ◌∷◌, ◌++◌, Outcome, ok,
  crash, ◌>>=◌, ◌==◌, if◌then◌else◌,
}
use feng.Base.Bytes.{be16, be32}
use feng.Track.{
  Track, Consumer, Double, MParserBuffer, bq_consumer_stopped, bq_consumer_get, bq_consumer_move,
}
use feng.Parser.{memcpy}
use feng.Rtcp.{SrInput, RtcpType, bye, sdes, rtcp_send_sr}

-- The `RTSP_Range` that a session plays.
pub record PlayRange : Type 0 where
  pub begin_time : Double
  pub playback_time : Double

-- `RTP_session`, less its owners and its transport. `range` is `none` where the pointer is NULL, or
-- where what it points to was freed.
pub record RtpSession : Type 0 where
  pub range : Option PlayRange
  pub start_rtptime : ℕ  -- uint32_t
  pub ssrc : ℕ
  pub last_packet_send_time : ℕ
  pub last_timestamp : Double
  pub octet_count : ℕ
  pub pkt_count : ℕ
  pub consumer : Consumer

-- What a call gets from outside.
pub record Surroundings : Type 0 where
  pub calc_rtptime : Double → MParserBuffer → ℕ  -- from `begin_time`, as `uint32_t`
  pub takes : List ℕ → Bool  -- `send_rtp`
  pub now : ℕ  -- `time(NULL)`
  pub tv_sec : ℕ
  pub tv_nsec : ℕ
  pub elapsed : Double → ℕ  -- from `playback_time`, times the clock rate
  pub name : List ℕ
  pub eor : Bool
  pub is_live : Bool
  pub is_positive : Double → Bool
  pub is_zero : Double → Bool
  pub differ : Double → Double → Bool

abbrev pub bit : Bool → ℕ
bit true = 1
bit false = 0

-- `session->range`, dereferenced.
unfoldable pub session_range : RtpSession → Outcome PlayRange
session_range s = elim s.range [ none ↦ crash | some range ↦ ok range ]

-- `rtptime`, with the range that it dereferences.
pub rtptime : Surroundings → PlayRange → RtpSession → MParserBuffer → ℕ
rtptime env range session buffer =
    (session.start_rtptime + env.calc_rtptime range.begin_time buffer) % 2 ^ 32

-- The fields of `RTP_packet`: version 2, no padding, no extension, no contributing sources.
pub rtp_packet : Track → RtpSession → MParserBuffer → ℕ → List ℕ → List ℕ
rtp_packet tr session buffer timestamp content =
    2 * 2 ^ 6 ∷ (bit buffer.marker * 2 ^ 7 + tr.payload_type % 2 ^ 7) ∷ be16 buffer.seq_no
    ++ (be32 timestamp ++ (be32 session.ssrc ++ content))

-- The packet was taken: the counts and the times.
pub account : Surroundings → RtpSession → MParserBuffer → RtpSession
account env session buffer = record session {
  last_timestamp = buffer.timestamp;
  pkt_count = (session.pkt_count + 1) % 2 ^ 32;
  octet_count = (session.octet_count + buffer.data_size) % 2 ^ 32;
  last_packet_send_time = env.now;
}

-- `rtp_packet_send`: the packet given to the transport, and the session after it.
pub rtp_packet_send :
    Surroundings → Track → RtpSession → MParserBuffer → Outcome (List ℕ × RtpSession)
unfolding rtptime rtp_packet account session_range
rtp_packet_send env tr session buffer = session_range session >>= λ range.
    let timestamp = rtptime env range session buffer in
    memcpy buffer.data_size buffer.content >>= λ content.
    let packet = rtp_packet tr session buffer timestamp content in
    ok (packet, (if env.takes packet then account env session buffer else session))

-- When the callback is due again: never (the stream is finished), after a time, after the
-- difference of two delivery times, at a delivery time of the range (`playback_time - begin_time +
-- delivery`), or at its own time again.
pub data Due : Type 0 where
  finished : Due
  default_wait : Due
  wait : Double → Due
  difference : Double → Double → Due
  delivery_at : Double → Double → Double → Due
  same_time : Due

pub record Written : Type 0 where
  pub track : Track
  pub session : RtpSession
  pub rtp : List (List ℕ)
  pub rtcp : List (List ℕ)
  pub due : Due

-- What `rtcp_set_sr` reads.
pub sr_input : Surroundings → PlayRange → RtpSession → SrInput
sr_input env range s = record {
  ssrc = s.ssrc;
  start_rtptime = s.start_rtptime;
  pkt_count = s.pkt_count;
  octet_count = s.octet_count;
  tv_sec = env.tv_sec;
  tv_nsec = env.tv_nsec;
  elapsed = env.elapsed range.playback_time;
}

-- `rtcp_send_sr`; the report dereferences the range.
pub send_report : Surroundings → RtpSession → RtcpType → Outcome (List (List ℕ))
unfolding sr_input session_range
send_report env s type = session_range s >>= λ range.
    rtcp_send_sr (sr_input env range s) env.name type >>= λ packet. ok (packet ∷ [])

-- `next_time` where there is a next buffer.
pub next_due : Surroundings → RtpSession → MParserBuffer → MParserBuffer → Outcome Due
unfolding session_range
next_due env s buffer next =
    if env.differ buffer.delivery next.delivery
    then (if env.is_live
        then ok (difference next.delivery buffer.delivery)
        else (session_range s >>= λ range.
            ok (delivery_at range.playback_time range.begin_time next.delivery)))
    else ok same_time

pub written : Track → RtpSession → List ℕ → List (List ℕ) → Due → Written
written tr s packet reports due = record {
  track = tr;
  session = s;
  rtp = packet ∷ [];
  rtcp = reports;
  due = due;
}

-- The next buffer is dereferenced without a test.
pub after_next : Surroundings → RtpSession → MParserBuffer → Option MParserBuffer → Outcome Due
unfolding next_due
after_next env s buffer none = crash
after_next env s buffer (some next) = next_due env s buffer next

-- The times are logged, which dereferences the range, and then the callback has its result.
pub log_times : Track → RtpSession → List ℕ → List (List ℕ) → Due → Outcome Written
unfolding session_range written
log_times tr s packet reports due =
    session_range s >>= λ range. ok (written tr s packet reports due)

-- `bq_consumer_move`, and when to come back.
pub advance :
    Surroundings → Track → RtpSession → MParserBuffer → List ℕ → List (List ℕ) → Outcome Written
unfolding after_next log_times
advance env tr s buffer packet reports = bq_consumer_move tr s.consumer >>= λ m.
    let no_next = if env.is_zero buffer.duration then default_wait else wait buffer.duration in
    let next = bq_consumer_get m.0 m.1 >>= λ g. after_next env s buffer g.2 >>= λ due.
    log_times g.0 (record s { consumer = g.1 }) packet reports due in
    if m.2 then next else log_times m.0 (record s { consumer = m.1 }) packet reports no_next

-- No buffer is there: the end of the stream, or a wait.
pub starve : Surroundings → Track → RtpSession → Outcome Written
unfolding send_report
starve env tr s =
    let idle = if env.is_positive tr.frame_duration then wait tr.frame_duration else default_wait in
    if env.eor
    then (send_report env s bye >>= λ reports.
        ok (record { track = tr; session = s; rtp = []; rtcp = reports; due = finished }))
    else ok (record { track = tr; session = s; rtp = []; rtcp = []; due = idle })

-- `pkt_count % 29 == 1` asks for a report.
pub serve : Surroundings → Track → RtpSession → MParserBuffer → Outcome Written
unfolding rtp_packet_send send_report advance
serve env tr s buffer = rtp_packet_send env tr s buffer >>= λ r.
    let due_report = if r.1.pkt_count % 29 == 1 then send_report env r.1 sdes else ok [] in
    due_report >>= λ reports. advance env tr r.1 buffer r.0 reports

pub serve_or_starve : Surroundings → Track → RtpSession → Option MParserBuffer → Outcome Written
unfolding serve starve
serve_or_starve env tr s none = starve env tr s
serve_or_starve env tr s (some buffer) = serve env tr s buffer

-- `rtp_write_cb`; unless it is finished, `r_fill` follows.
pub rtp_write_cb : Surroundings → Track → RtpSession → Outcome Written
unfolding serve_or_starve send_report
rtp_write_cb env tr s =
    if bq_consumer_stopped (some tr)
    then (send_report env s bye >>= λ reports.
        ok (record { track = tr; session = s; rtp = []; rtcp = reports; due = finished }))
    else bq_consumer_get tr s.consumer >>= λ g.
        serve_or_starve env g.0 (record s { consumer = g.1 }) g.2
