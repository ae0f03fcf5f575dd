-- ===== src/Interleaved/Sctp.antt =====
-- src/network/rtsp_sctp.c: the streams of a session over SCTP, and what is sent on them.
--
-- What `sctp_opt_info` answers is an argument, the least of the two numbers of streams; so is what
-- `sctp_send` answers, `none` for -1.
use feng.Base.{ℕ, ◌-◌, ◌^◌, Bool, true, false, ◌||◌, Option, none, some, leb, if◌then◌else◌}
use feng.Interleaved.{Client, ParsedTransport, choose, rtsp_interleaved_register}

-- What a session over SCTP keeps: the streams that it sends on, and those that its transport string
-- names.
pub record SctpSession : Type 0 where
  pub rtp_stream : ℕ
  pub rtcp_stream : ℕ
  pub server_streams : ℕ × ℕ

unfoldable pub sctp_streams : Client → ℕ → ℕ → ℕ → Option ℕ → Client × Option SctpSession
sctp_streams rtsp session rtp_channel rtcp_channel none = (rtsp, none)
sctp_streams rtsp session rtp_channel rtcp_channel (some max_streams) =
    if leb max_streams rtp_channel || leb max_streams rtcp_channel then (rtsp, none) else (
      rtsp_interleaved_register rtsp session rtp_channel rtcp_channel,
      some (record {
        rtp_stream = rtp_channel;
        rtcp_stream = rtp_channel;
        server_streams = (rtp_channel, rtcp_channel);
      }),
    )

-- `rtp_sctp_transport`.
unfoldable pub rtp_sctp_transport :
    Option ℕ → Client → ℕ → ParsedTransport → Client × Option SctpSession
unfolding sctp_streams
rtp_sctp_transport max_streams rtsp session parsed =
    let a = choose parsed.rtp_channel rtsp.first_free_channel in
    let b = choose parsed.rtcp_channel a.1 in
    sctp_streams (record rtsp { first_free_channel = b.1 }) session a.0 b.0 max_streams

-- `rtsp_sctp_send_pkt`: whether it was sent, and the `size_t` that is accounted for.
unfoldable pub rtsp_sctp_send_pkt : Option ℕ → Bool × ℕ
rtsp_sctp_send_pkt none = (false, 2 ^ 64 - 1)
rtsp_sctp_send_pkt (some n) = (true, n)
