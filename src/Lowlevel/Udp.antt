-- ===== src/Lowlevel/Udp.antt =====
-- `rtp_udp_transport` and `rtp_udp_send_pkt` (src/network/rtsp_lowlevel.c): a session's sockets.
--
-- What the system calls answer is an argument, a call's -1 being `none` or `false`. Each is made once
-- at most, but for the `bind` of the second socket, whose answer depends on the port. Addresses
-- are their ports.
use feng.Base.{
  ℕ, ◌+◌, ◌-◌, ◌%◌, ◌^◌, Bool, true, false, not, Option, none, some, List, [], ◌∷◌, ◌++◌, ◌==◌,
  if◌then◌else◌,
}
use feng.Base.Int.{ℤ, pos, negsuc}
use feng.Interleaved.{ParsedTransport}

pub record SystemCalls : Type 0 where
  pub first_socket : Option ℕ
  pub second_socket : Option ℕ
  pub bind_first : Bool
  pub first_port : Option ℕ  -- `getsockname` of the first socket
  pub bind_second : ℕ → Bool
  pub second_port : Option ℕ
  pub connect_rtp : Bool
  pub connect_rtcp : Bool

-- `RTP_session::udp`; zero in a new session. A NULL address is `none`.
pub record UdpSession : Type 0 where
  pub rtp_sd : ℤ
  pub rtcp_sd : ℤ
  pub rtp_sa : Option ℕ
  pub rtcp_sa : Option ℕ
  pub rtcp_reader : Option ℤ  -- the descriptor that `ev_io_init` was given
  pub rtcp_active : Bool  -- whether the reader was started with `ev_io_start`

abbrev pub new_udp : UdpSession
new_udp = record {
  rtp_sd = pos 0;
  rtcp_sd = pos 0;
  rtp_sa = none;
  rtcp_sa = none;
  rtcp_reader = none;
  rtcp_active = false;
}

-- TRUE, with the ports for the transport string; or FALSE, with the descriptors that were closed.
pub data UdpResult : Type 0 where
  served : UdpSession → ℕ → ℕ → UdpResult
  failed : List ℤ → UdpResult

abbrev pub close_open : ℤ → List ℤ
close_open (pos n) = pos n ∷ []
close_open (negsuc n) = []

-- `error:`.
unfoldable pub udp_error : ℤ → UdpSession → UdpResult
udp_error firstsd u = failed (close_open firstsd ++ (close_open u.rtp_sd ++ close_open u.rtcp_sd))

abbrev pub descriptor : Option ℕ → ℤ
descriptor none = negsuc 0
descriptor (some sd) = pos sd

-- `neb_sa_set_port` of a channel, as `in_port_t`; -1 is `none`.
abbrev pub port_of : Option ℕ → ℕ
port_of none = 2 ^ 16 - 1
port_of (some n) = n % 2 ^ 16

module _ (os : SystemCalls) (parsed : ParsedTransport) where
  -- The two calls of `connect`, the reader and the answer.
  unfoldable pub connect_udp : UdpSession → ℕ → ℕ → UdpResult
  unfolding udp_error
  connect_udp u rtp_port rtcp_port =
      let u1 : UdpSession = record u { rtp_sa = some (port_of parsed.rtp_channel) } in
      let u2 : UdpSession = record u1 { rtcp_sa = some (port_of parsed.rtcp_channel) } in
      if not os.connect_rtp
      then udp_error (negsuc 0) u1
      else if not os.connect_rtcp
      then udp_error (negsuc 0) u2
      else served (record u2 { rtcp_reader = some u2.rtcp_sd }) rtp_port rtcp_port

  -- The port of the second socket: the one beside the first, or any other.
  unfoldable pub bind_beside : ℕ → Option ℕ
  bind_beside port =
      if os.bind_second port then some port else if os.bind_second 0 then os.second_port else none

  abbrev pub on_port : UdpSession → Option ℕ → (ℕ → UdpResult) → UdpResult
  on_port u none go_on = udp_error (negsuc 0) u
  on_port u (some port) go_on = go_on port

  abbrev pub opened_socket : UdpSession → Option ℕ → UdpResult → UdpResult
  opened_socket u none go_on = udp_error (negsuc 0) u
  opened_socket u (some _) go_on = go_on

  -- The first socket has an even port: it is the one for RTP.
  unfoldable pub first_is_rtp : ℕ → ℕ → UdpSession → UdpResult
  unfolding connect_udp bind_beside
  first_is_rtp sd port u =
      let u' : UdpSession = record u { rtp_sd = pos sd; rtcp_sd = descriptor os.second_socket } in
      opened_socket u' os.second_socket
        (on_port u' (bind_beside (port + 1)) λ other. connect_udp u' port other)

  -- It has an odd one: it is the one for RTCP.
  unfoldable pub first_is_rtcp : ℕ → ℕ → UdpSession → UdpResult
  unfolding connect_udp bind_beside
  first_is_rtcp sd port u =
      let u' : UdpSession = record u { rtcp_sd = pos sd; rtp_sd = descriptor os.second_socket } in
      opened_socket u' os.second_socket
        (on_port u' (bind_beside (port - 1)) λ other. connect_udp u' other port)

  unfoldable pub with_port : ℕ → UdpSession → Option ℕ → UdpResult
  unfolding first_is_rtp first_is_rtcp
  with_port sd u none = udp_error (pos sd) u
  with_port sd u (some port) =
      if port % 2 == 0 then first_is_rtp sd port u else first_is_rtcp sd port u

  unfoldable pub with_socket : UdpSession → Option ℕ → UdpResult
  unfolding with_port
  with_socket u none = udp_error (negsuc 0) u
  with_socket u (some sd) =
      if os.bind_first then with_port sd u os.first_port else udp_error (pos sd) u

  -- `rtp_udp_transport`.
  unfoldable pub rtp_udp_transport : UdpSession → UdpResult
  unfolding with_socket
  rtp_udp_transport u = with_socket u os.first_socket

-- `rtp_udp_send_pkt`: whether it was sent, and what is accounted for; `ready` is what `poll` says,
-- `none` for -1, and `answer` what `sendto` does.
unfoldable pub rtp_udp_send_pkt : Option Bool → Option ℕ → Bool × Option ℕ
rtp_udp_send_pkt none answer = (false, none)
rtp_udp_send_pkt (some false) answer = (false, none)
rtp_udp_send_pkt (some true) none = (false, none)
rtp_udp_send_pkt (some true) (some n) = (true, some n)

-- `rtp_udp_close_transport`: the descriptors that it closes.
unfoldable pub rtp_udp_close_transport : UdpSession → List ℤ
rtp_udp_close_transport u = u.rtp_sd ∷ u.rtcp_sd ∷ []
