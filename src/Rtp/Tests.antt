-- ===== src/Rtp/Tests.antt =====
-- A packet at a concrete input.
use feng.Base.{
  ℕ, ◌+◌, ◌*◌, ◌^◌, ◌%◌, ◌≡◌, refl, true, false, some, List, [], ◌∷◌, arith, ok, length,
  if◌then◌else◌,
}
use feng.Track.{MParserBuffer, track_new}
use feng.Rtp.{Surroundings, RtpSession, rtp_packet_send, rtptime, bit}
use feng.Rtp.Packet.{rtp_packet_send_lem, receive}

abbrev env : Surroundings
env = record {
  calc_rtptime = λ begin b. b.timestamp * 90;
  takes = λ p. true;
  now = 1000;
  tv_sec = 1000;
  tv_nsec = 0;
  elapsed = λ playback. 0;
  name = [];
  eor = false;
  is_live = false;
  is_positive = λ d. false;
  is_zero = λ d. true;
  differ = λ d e. false;
}

abbrev session : RtpSession
session = record {
  range = some (record { begin_time = 0; playback_time = 5 });
  start_rtptime = 4294967295;
  ssrc = 16909060;
  last_packet_send_time = 0;
  last_timestamp = 0;
  octet_count = 4294967290;
  pkt_count = 28;
  consumer = record { queue_serial = 1; current_element_pointer = some 1; last_element_serial = 1 };
}

abbrev payload : MParserBuffer
payload = record {
  seen = 0;
  timestamp = 2;
  delivery = 2;
  duration = 0;
  marker = true;
  rtp_timestamp = 0;
  seq_no = 258;
  data_size = 10;
  content = 1 ∷ 2 ∷ 3 ∷ 4 ∷ 5 ∷ 6 ∷ 7 ∷ 8 ∷ 9 ∷ 10 ∷ [];
}

rtp_packet_send_example :
    (packet : List ℕ) × (s' : RtpSession) × (rtp_packet_send env track_new session payload
      ≡ ok (packet, s'))
    × (receive packet
        ≡ some (record {
          version = 2;
          marker = bit payload.marker;
          payload_type = track_new.payload_type % 2 ^ 7;
          seq_no = 258;
          timestamp = rtptime env (record { begin_time = 0; playback_time = 5 }) session payload;
          ssrc = 16909060;
          content = payload.content;
        }))
    × (s'.pkt_count
        ≡ (if env.takes packet then (session.pkt_count + 1) % 2 ^ 32 else session.pkt_count))
    × (s'.octet_count ≡ (
        if env.takes packet
        then (session.octet_count + length payload.content) % 2 ^ 32
        else session.octet_count))
rtp_packet_send_example =
    rtp_packet_send_lem env track_new session (record { begin_time = 0; playback_time = 5 }) payload
      refl refl (omega arith) (omega arith)
