-- ===== src/Lowlevel/Tests.antt =====
-- Writing to a client, and a session's sockets, at concrete inputs.
use feng.Base.{true, none, some, List, [], ◌∷◌, ◌==◌}
use feng.Interleaved.{ParsedTransport}
use feng.Lowlevel.Written.{
  OutputEvent, queued, writable, output_run, Implements, no_output, output_run_lem,
}
use feng.Lowlevel.Udp.{SystemCalls, new_udp, rtp_udp_transport}
use feng.Lowlevel.Ports.{UdpOutcome}
use feng.Lowlevel.Sockets.{rtp_udp_transport-UdpOutcome}

-- A packet that is sent in part, one that fails, and one that waits.
abbrev events : List OutputEvent
events =
    queued (1 ∷ 2 ∷ 3 ∷ [])
    ∷ queued (4 ∷ [])
    ∷ writable (some 2)
    ∷ queued (5 ∷ [])
    ∷ writable none
    ∷ []

output_run_example :
    Implements (output_run no_output events) (record { waiting = (5 ∷ []) ∷ []; sent = 1 ∷ 2 ∷ [] })
output_run_example = output_run_lem events

-- The kernel gives the port 5001, which is odd; 5000 is taken, and then it gives 6000.
abbrev os : SystemCalls
os = record {
  first_socket = some 7;
  second_socket = some 8;
  bind_first = true;
  first_port = some 5001;
  bind_second = λ port. port == 0;
  second_port = some 6000;
  connect_rtp = true;
  connect_rtcp = true;
}

abbrev parsed : ParsedTransport
parsed = record { rtp_channel = some 4000; rtcp_channel = some 4001 }

rtp_udp_transport-UdpOutcome_example : UdpOutcome os parsed (rtp_udp_transport os parsed new_udp)
rtp_udp_transport-UdpOutcome_example = rtp_udp_transport-UdpOutcome os parsed
