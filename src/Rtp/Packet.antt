-- ===== src/Rtp/Packet.antt =====
-- What a receiver reads out of a packet of `rtp_packet_send` (src/network/rtp.c).
use feng.Base.{
  ℕ, ◌+◌, ◌*◌, ◌/◌, ◌%◌, ◌^◌, ◌<◌, ◌≡◌, refl, ap, Bool, true, false, Option, none, some, List, ◌∷◌,
  ok, if◌then◌else◌, length, arith, take_all,
}
use feng.Base.Bytes.{of_be16, of_be32}
use feng.Track.{Track, MParserBuffer}
use feng.Parser.{memcpy-take}
use feng.Rtp.{
  PlayRange, session_range, Surroundings, RtpSession, rtptime, rtp_packet, account, rtp_packet_send,
  bit,
}

-- A packet as RFC 3550 lays it out, for one without contributing sources or an extension.
pub record Received : Type 0 where
  pub version : ℕ
  pub marker : ℕ
  pub payload_type : ℕ
  pub seq_no : ℕ
  pub timestamp : ℕ
  pub ssrc : ℕ
  pub content : List ℕ

abbrev pub receive : List ℕ → Option Received
receive (v ∷ m ∷ s1 ∷ s0 ∷ t3 ∷ t2 ∷ t1 ∷ t0 ∷ i3 ∷ i2 ∷ i1 ∷ i0 ∷ rest) = some (record {
  version = v / 2 ^ 6;
  marker = m / 2 ^ 7;
  payload_type = m % 2 ^ 7;
  seq_no = of_be16 s1 s0;
  timestamp = of_be32 t3 t2 t1 t0;
  ssrc = of_be32 i3 i2 i1 i0;
  content = rest;
})
receive _ = none

of_be16-be16 : (n : ℕ) → n < 2 ^ 16 → of_be16 (n / 2 ^ 8 % 2 ^ 8) (n % 2 ^ 8) ≡ n
of_be16-be16 n h = omega arith

of_be32-be32 :
    (n : ℕ)
    → n < 2 ^ 32
    → of_be32 (n / 2 ^ 24 % 2 ^ 8) (n / 2 ^ 16 % 2 ^ 8) (n / 2 ^ 8 % 2 ^ 8) (n % 2 ^ 8) ≡ n
of_be32-be32 n h = omega arith

marker_bit : (b : Bool) (p : ℕ) → (bit b * 2 ^ 7 + p % 2 ^ 7) / 2 ^ 7 ≡ bit b
marker_bit true p = omega arith
marker_bit false p = omega arith

payload_bits : (b : Bool) (p : ℕ) → (bit b * 2 ^ 7 + p % 2 ^ 7) % 2 ^ 7 ≡ p % 2 ^ 7
payload_bits true p = omega arith
payload_bits false p = omega arith

receive-packet :
    (tr : Track) (s : RtpSession) (b : MParserBuffer) (timestamp : ℕ)
    → b.seq_no < 2 ^ 16
    → s.ssrc < 2 ^ 32
    → timestamp < 2 ^ 32
    → receive (rtp_packet tr s b timestamp b.content)
      ≡ some (record {
        version = 2;
        marker = bit b.marker;
        payload_type = tr.payload_type % 2 ^ 7;
        seq_no = b.seq_no;
        timestamp = timestamp;
        ssrc = s.ssrc;
        content = b.content;
      })
unfolding rtp_packet
receive-packet tr s b timestamp l i t = rw (
  marker_bit b.marker tr.payload_type,
  payload_bits b.marker tr.payload_type,
  of_be16-be16 b.seq_no l,
  of_be32-be32 s.ssrc i,
  of_be32-be32 timestamp t,
)

counts :
    (env : Surroundings) (s : RtpSession) (b : MParserBuffer) (taken : Bool)
    → b.data_size ≡ length b.content
    → let s' = if taken then account env s b else s in
      (s'.pkt_count ≡ (if taken then (s.pkt_count + 1) % 2 ^ 32 else s.pkt_count))
      × (s'.octet_count
          ≡ (if taken then (s.octet_count + length b.content) % 2 ^ 32 else s.octet_count))
unfolding account
counts env s b true e = (refl, ap (λ n. (s.octet_count + n) % 2 ^ 32) e)
counts env s b false e = (refl, refl)

-- `rtp_packet_send` of a buffer of `data_size` bytes, its number a `uint16_t` and the SSRC a
-- `uint32_t`, in a session that has a range, returns; a receiver reads back version 2, the
-- marker, the payload type (7 bits), the sequence number, the time from the session's start, the
-- SSRC and the buffer's bytes; and only if the transport takes the packet, one packet and
-- `data_size` bytes are added to the counts, modulo 2^32.
pub rtp_packet_send_lem :
    (env : Surroundings) (tr : Track) (s : RtpSession) (range : PlayRange) (b : MParserBuffer)
    → s.range ≡ some range
    → b.data_size ≡ length b.content
    → b.seq_no < 2 ^ 16
    → s.ssrc < 2 ^ 32
    → (packet : List ℕ) × (s' : RtpSession) × (rtp_packet_send env tr s b ≡ ok (packet, s'))
      × (receive packet
          ≡ some (record {
            version = 2;
            marker = bit b.marker;
            payload_type = tr.payload_type % 2 ^ 7;
            seq_no = b.seq_no;
            timestamp = rtptime env range s b;
            ssrc = s.ssrc;
            content = b.content;
          }))
      × (s'.pkt_count ≡ (if env.takes packet then (s.pkt_count + 1) % 2 ^ 32 else s.pkt_count))
      × (s'.octet_count ≡ (
          if env.takes packet then (s.octet_count + length b.content) % 2 ^ 32 else s.octet_count))
unfolding rtp_packet_send session_range rtptime
rtp_packet_send_lem env tr s range b r e l i =
    let packet = rtp_packet tr s b (rtptime env range s b) b.content in
    let (p, o) = counts env s b (env.takes packet) e in
    (
      packet,
      (if env.takes packet then account env s b else s),
      rw (
        r,
        memcpy-take b.data_size b.content (omega arith),
        take_all b.data_size b.content (omega arith),
      ),
      receive-packet tr s b (rtptime env range s b) l i (omega arith),
      p,
      o,
    )
