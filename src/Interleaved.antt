-- ===== src/Interleaved.antt =====
-- src/network/rtsp_interleaved.c, and the reader of interleaved packets in
-- src/network/rtsp_state_machine.c.
--
-- A table of channels is an association list, the last one inserted first; a session is a number.
pub mod Framing
pub mod Sctp
mod Tests
use feng.Base.{
  ℕ, ◌+◌, ◌%◌, ◌^◌, Bool, true, false, ◌||◌, Option, none, some, List, [], ◌∷◌, ◌++◌, Outcome, ok,
  crash, ◌>>=◌, ltb, leb, ◌==◌, if◌then◌else◌, length, drop,
}
use feng.Base.Bytes.{be16, of_be16}
use feng.Rtcp.{Log, rtcp_handle}

-- `RFC822_Parser_State`.
pub data State : Type 0 where
  begin interleaved rtsp_headers rtsp_content http_headers http_content http_idle : State

-- What of `RTSP_Client` the interleaved transport uses.
pub record Client : Type 0 where
  pub channels : List (ℕ × ℕ)
  pub first_free_channel : ℕ
  pub input : List ℕ
  pub status : State

-- The channels of `ParsedTransport`; -1 is `none`.
pub record ParsedTransport : Type 0 where
  pub rtp_channel : Option ℕ
  pub rtcp_channel : Option ℕ

-- `g_hash_table_lookup`, which gives NULL also where there is no table.
unfoldable pub lookup : List (ℕ × ℕ) → ℕ → Option ℕ
lookup [] channel = none
lookup ((k, session) ∷ rest) channel =
    let found = lookup rest channel in if k == channel then some session else found

-- `rtsp_interleaved_register`: only the RTCP channel is registered.
unfoldable pub rtsp_interleaved_register : Client → ℕ → ℕ → ℕ → Client
rtsp_interleaved_register rtsp session rtp_channel rtcp_channel = record rtsp {
  channels = (rtcp_channel, session) ∷ rtsp.channels;
}

unfoldable pub receive_for : Option ℕ → List ℕ → ℕ → Outcome (Option (ℕ × Log))
receive_for none mem len = ok none
receive_for (some session) mem len = rtcp_handle mem len >>= λ l. ok (some (session, l))

-- `rtsp_interleaved_receive`: the session that handled the packet, and what it found.
unfoldable pub rtsp_interleaved_receive : Client → ℕ → List ℕ → ℕ → Outcome (Option (ℕ × Log))
rtsp_interleaved_receive rtsp channel mem len = receive_for (lookup rtsp.channels channel) mem len

-- `rtp_interleaved_send_pkt`: what is written. The channel is put in one byte.
unfoldable pub rtp_interleaved_send_pkt : List ℕ → ℕ → List ℕ
rtp_interleaved_send_pkt buffer channel =
    36 ∷ (channel % 2 ^ 8) ∷ (be16 (length buffer % 2 ^ 16) ++ buffer)

-- `if ( channel == -1 ) channel = ++first_free_channel;`
abbrev pub choose : Option ℕ → ℕ → ℕ × ℕ
choose none free = (free + 1, free + 1)
choose (some channel) free = (channel, free)

-- `rtp_interleaved_transport`: the client, and the channels of the session if it is accepted.
unfoldable pub rtp_interleaved_transport : Client → ℕ → ParsedTransport → Client × Option (ℕ × ℕ)
rtp_interleaved_transport rtsp session parsed =
    let a = choose parsed.rtp_channel rtsp.first_free_channel in
    let b = choose parsed.rtcp_channel a.1 in
    let rtsp' : Client = record rtsp { first_free_channel = b.1 } in
    if leb 256 a.0 || leb 256 b.0
    then (rtsp', none)
    else (rtsp_interleaved_register rtsp' session a.0 b.0, some (a.0, b.0))

-- A whole packet is there.
consume : Client → ℕ → List ℕ → ℕ → Outcome (Bool × Client × Option (ℕ × Log))
consume rtsp channel mem len = rtsp_interleaved_receive rtsp channel mem len >>= λ r.
    ok (true, record rtsp { input = drop (len + 4) rtsp.input; status = begin }, r)

read_frame : Client → List ℕ → Outcome (Bool × Client × Option (ℕ × Log))
unfolding consume
read_frame rtsp (d ∷ channel ∷ a ∷ b ∷ mem) =
    let len = of_be16 a b in
    let whole =
      if ltb (length rtsp.input) (len + 4)
      then ok (false, rtsp, none)
      else consume rtsp channel mem len in
    if d == 36 then whole else crash
read_frame rtsp _ = ok (false, rtsp, none)

-- `RTSP_handle_interleaved`.
pub rtsp_handle_interleaved : Client → Outcome (Bool × Client × Option (ℕ × Log))
unfolding read_frame
rtsp_handle_interleaved rtsp = read_frame rtsp rtsp.input
