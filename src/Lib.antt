-- ===== src/Lib.antt =====
-- feng is an RTSP server: demuxers give frames to the parsers, which cut them into the payloads of RTP
-- packets, and live sources give such payloads as they are; each track keeps them in a queue that all
-- its sessions read, and a session sends them as RTP packets, with RTCP packets between them. The
-- theorems are about these parts.
--
-- Base: Boolean tests on numbers, lists, words in network order, and `Outcome`: what a run of C code
-- comes to, a result, a crash (a failed assertion, or an access outside of live memory) or fuel that
-- ran out in a loop.
--
-- Track (src/media/track.c, src/media/media.h, src/network/rtp.h, src/network/rtp.c): the queue.
-- A function has its name in C. `Track` and `Consumer` are the fields of `Track` and `RTP_session`
-- that the queue uses; a node of the GList has an address, which is never given again, so that a
-- pointer that is left over reads as a crash. Sequence numbers wrap at 2^16, the other counters at
-- 2^64. Every function holds the track's lock, so that the runs of the system are sequences of calls
-- (Track/System). The walks over the queue have as fuel the length of the queue, with one or two
-- rounds more, which the theorems show to be enough. Track/Chain, Pointers, State, Unread, Reached,
-- Steps, Walk and Confirm hold the lemmas; Move, Get and Session what the calls do; System/Safety,
-- Producer and Runs what sequences of them do.
-- Track/Wrap and Recount are about two faults.
--
-- Parser (src/media/parser_*.c): the parsers for AAC, VP8, Xiph, Speex, MPEG-4 video, H.263, MPEG
-- audio, MPEG video, AMR and H.264. A frame is the list of its bytes, and reading past its end is a
-- crash; the loops have as fuel the length of the frame and one. The fuel of `h264_parse` is a parameter.
--
-- Rtcp (src/network/rtcp.c): the packets that are sent and the walk over those that are received.
-- The clock and what is computed in `double` are inputs; the machine is little-endian. The walk has as
-- fuel the length of the packet and one.
--
-- Rtp (src/network/rtp.c): the packet (Rtp/Packet), and the callback that sends what is due from the
-- queue (Rtp/Writing). A session's range is missing where the pointer is NULL or what it points to was
-- freed, and dereferencing it is a crash.
--
-- Interleaved (src/network/rtsp_interleaved.c, src/network/rtsp_state_machine.c): RTP and RTCP within
-- the RTSP connection. Interleaved/Sctp and Rtsp/Sctp are src/network/rtsp_sctp.c and
-- `rtsp_process_complete`.
--
-- Live (src/media/resource_live.c, and src/media/resource.c and src/media/media.c where it uses them): a
-- live resource. Live and Live/Groups are `sd2_open`, over the groups of a key file as GLib answers
-- them; an `int` is `Base.Int.ℤ`, which wraps where the code adds one. Keys, Rounds, Made and Opens
-- say which groups make tracks, and with which payload types. Live/Virtual is `r_open` with the table
-- of virtual resources, which Holders and Shared are about; Describe is about DESCRIBE of such a
-- resource. Live/Flux is `flux_read_messages`, the thread that queues what a message queue gives, and
-- Queued what it queues; the message queue and the arithmetic of `double`s are arguments.
--
-- Lowlevel (src/network/rtsp_lowlevel.c): the output queue of a client's connection (Lowlevel, Written),
-- and the sockets of a session over UDP (Udp, Ports, Sockets). What the system calls answer is an
-- argument; addresses are their ports.
--
-- Resource (src/media/resource.c): seeking, filling, resuming and closing. The demuxer is an argument.
-- Resource/Locking is `r_pause` and the fill callback `r_read_cb` as two threads, whose steps a schedule
-- orders, with the lock of the resource; Stuck is about how they wait for each other.
--
-- Tunnel (src/network/http_tunnelling.c, and the end of a client's loop in src/network/rtsp_client.c):
-- RTSP over HTTP. A client that was freed has an address that finds nothing, so that a pointer to it
-- reads as a crash. Tunnel and Tunnel/Closing are the code; Pairing is about how a tunnel comes about,
-- Reused about its end.
--
-- Unreserved (src/utilities.c): the characters of a track's name.
--
-- Rtsp (src/network/rtsp_state_machine.c, src/network/rtsp_utils.c, src/network/rtsp_method_*.c, and
-- the parts of src/network/rtp.c, src/media/resource.c and src/network/rtsp_client.c that they use):
-- one request at a time, on the client's session. `RtspSession`, `Range` and `RtspClient` are the
-- structs of src/network/rtsp.h, `Request` is `RFC822_Request` with the headers that the methods look
-- up, each method has its name in C, and `rtsp_handle_request` dispatches. What a request does to the
-- layers below and the codes that it is answered with are a list of effects, in order; what those
-- layers, the parsers that ragel generates, the clock and the comparison of `double`s answer is the
-- `World`, an argument. A range has an address, so that a stream's pointer to a range that was freed
-- reads as a crash. Rtsp/Play, Setup and Requests are the code; Valid has the invariant and the states
-- of RFC 2326, appendix A.2; Playing, PlayAnswers, PlayPause, PlayMethods, SetupValid and SetupMethods
-- take the methods apart; Served and Sequences are about one request and about many; Timeout is the
-- timer of src/network/rtsp_client.c, and Crashes is about requests that crash the server. Reader is
-- `RTSP_handler` over the input of a connection, with its rounds as fuel, and Reading what it does with
-- requests; the handlers of src/network/http_tunnelling.c are an argument there.
--
-- Not modelled: values of `double` are only passed on; the release of a whole track; the session
-- descriptions that DESCRIBE and the parsers' init functions write; the demuxers, which
-- call libavformat; the idle state of the HTTP tunnel; the event loop, configuration and logs.
pub mod Base
pub mod Track
pub mod Parser
pub mod Rtcp
pub mod Rtp
pub mod Live
pub mod Lowlevel
pub mod Resource
pub mod Unreserved
pub mod Tunnel
pub mod Rtsp
pub mod Interleaved
