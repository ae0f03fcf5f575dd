-- ===== src/Interleaved/Tests.antt =====
-- The interleaved transport at concrete inputs.
use feng.Base.{ℕ, ◌≡◌, ◌⊎◌, refl, true, none, some, List, [], ◌∷◌, ◌++◌, arith, ok, ◌>>=◌}
use feng.Interleaved.{
  Client, begin, interleaved, ParsedTransport, lookup, rtp_interleaved_send_pkt,
  rtsp_handle_interleaved,
}
use feng.Interleaved.Framing.{
  handle_interleaved-send, rtp_interleaved_transport_lem, Accepted, Refused,
}
use feng.Rtcp.{rtcp_handle}

abbrev client : Client
client = record {
  channels = (1, 7) ∷ [];
  first_free_channel = 1;
  input = 36 ∷ 1 ∷ 0 ∷ 8 ∷ 128 ∷ 202 ∷ [];
  status = interleaved;
}

abbrev empty_sdes : List ℕ
empty_sdes = 128 ∷ 202 ∷ 0 ∷ 1 ∷ 0 ∷ 0 ∷ 0 ∷ 9 ∷ []

handle_interleaved-send_example :
    rtsp_handle_interleaved
      (record client { input = rtp_interleaved_send_pkt empty_sdes 1 ++ 79 ∷ [] })
    ≡ (rtcp_handle (empty_sdes ++ 79 ∷ []) 8 >>= λ l.
        ok (true, record client { input = 79 ∷ []; status = begin }, some (7, l)))
unfolding lookup
handle_interleaved-send_example =
    handle_interleaved-send client 1 7 empty_sdes (79 ∷ []) (omega arith) (omega arith) refl

abbrev any_channels : ParsedTransport
any_channels = record { rtp_channel = none; rtcp_channel = none }

rtp_interleaved_transport_example : Accepted client 9 any_channels ⊎ Refused client 9 any_channels
rtp_interleaved_transport_example = rtp_interleaved_transport_lem client 9 any_channels
