-- ===== src/Rtsp.antt =====
-- What a client's requests work on: src/network/rtsp.h, src/network/rtsp_utils.c, and the session
-- part of src/network/rtp.c.
--
-- A range has an address, which is never given again: `Range` values stand with theirs in the
-- queue `play_requests`, which holds every range that was not freed, so that a pointer to a range
-- that was freed finds nothing there. What the layers below do is recorded as effects, in order;
-- what they answer is part of the `World`.
pub mod Play
pub mod Setup
pub mod Requests
pub mod Valid
pub mod Playing
pub mod PlayAnswers
pub mod PlayPause
pub mod PlayMethods
pub mod SetupValid
pub mod SetupMethods
pub mod Served
pub mod Sequences
pub mod Timeout
pub mod Crashes
pub mod Reader
pub mod Reading
pub mod Sctp
mod Tests
mod ReaderTests
mod LiveTests
use feng.Base.{
  ℕ, zero, suc, ◌+◌, ◌-◌, Bool, true, false, not, ◌||◌, ◌&&◌, Option, none, some, List, [], ◌∷◌,
  ◌++◌, map, Outcome, ok, crash, ◌>>=◌, ltb, leb, ◌==◌, if◌then◌else◌, length,
}
use feng.Base.Text.{Text, text_eq, strstr}
use feng.Track.{Double}
use feng.Interleaved.{ParsedTransport}
use feng.Rtcp.{Log}

-- `RTSP_Server_State`.
pub data ServerState : Type 0 where
  server_init server_ready server_playing server_recording : ServerState

-- The values of `RTSP_ResponseCode` that requests are answered with.
pub data ResponseCode : Type 0 where
  rtsp_ok bad_request forbidden not_found not_implemented session_not_found : ResponseCode
  invalid_method_in_state header_field_not_valid_for_resource invalid_range : ResponseCode
  aggregate_only unsupported_transport option_not_supported : ResponseCode
  version_not_supported http_version_not_supported redirected not_enough_bandwidth : ResponseCode

pub data Method : Type 0 where
  describe setup teardown options play pause : Method

-- `RTSP_Range`.
pub record Range : Type 0 where
  pub begin_time : Double
  pub end_time : Double
  pub playback_time : Double

-- What requests need of a resource that `r_open` gave; `seekable` says that `seek` is not NULL.
pub record Opened : Type 0 where
  pub names : List Text
  pub seekable : Bool
  pub is_live : Bool
  pub undef_media : Bool  -- some track's media type is `MP_undef`
  pub duration : Double

-- What requests need of an `RTP_session`; `range` is a pointer, and `writing` says whether its
-- `rtp_writer` was started.
pub record Stream : Type 0 where
  pub uri : Text
  pub track : ℕ
  pub range : Option ℕ
  pub writing : Bool
  pub last_packet_send_time : ℕ

-- `RTSP_session`.
pub record RtspSession : Type 0 where
  pub session_id : Text
  pub cur_state : ServerState
  pub started : Bool
  pub rtp_sessions : List Stream
  pub resource : Option Opened
  pub resource_uri : Option Text
  pub play_requests : List (ℕ × Range)

-- What requests need of an `RTSP_Client`, and the address of the next range.
pub record RtspClient : Type 0 where
  pub session : Option RtspSession
  pub last_cseq : ℕ
  pub timer : Bool
  pub next_range : ℕ

-- `RFC822_Request`: the headers that the methods look up. The path of a URI may be NULL.
pub record Request : Type 0 where
  pub method : Method
  pub object : Text
  pub uri : Option (Option Text)
  pub cseq : Option Text
  pub session : Option Text
  pub require : Option Text
  pub proxy_require : Option Text
  pub range : Option Text
  pub transport : Option Text
  pub user_agent : Option Text

-- What the code outside answers: generated parsers, the layers below, the clock, and `double`s.
pub record World : Type 0 where
  pub strtoull : Text → ℕ × ℕ  -- the value, and how many bytes it took
  pub ragel_parse_range_header : Text → Range → Option Range
  pub ragel_parse_transport_header : Text → List ParsedTransport
  pub g_uri_unescape_string : Text → Option Text
  pub new_id : Text
  pub has_peer : Bool  -- `peer_sa` is not NULL
  pub r_open : Option Text → Option Opened
  pub r_seek : Opened → Double → Bool  -- whether it failed
  pub rtp_transport_init : ParsedTransport → Bool
  pub stopped : Opened → ℕ → Bool
  pub now : Double
  pub seconds : ℕ  -- `time(NULL)`
  pub add : Double → Double → Double
  pub sub : Double → Double → Double
  pub lt : Double → Double → Bool
  pub eq : Double → Double → Bool
  pub zero_time : Double
  pub unset_time : Double  -- -0.1

-- What a request does to the layers below.
pub data Effect : Type 0 where
  respond : ResponseCode → Effect
  open_resource : Option Text → Effect
  close_resource : Effect
  seek : Double → Effect
  free_stream : Stream → Effect
  r_resume : Effect
  r_fill : ℕ → Effect
  r_pause : Effect
  send_bye : Effect
  unloop : Effect
  rtcp_received : ℕ → Log → Effect

-- A method's result: the client, and the effects.
abbrev pub Handled : Type 0
Handled = Outcome (RtspClient × List Effect)

abbrev pub answer : RtspClient → ResponseCode → Handled
answer client code = ok (client, respond code ∷ [])

-- `check_forbidden_path`.
unfoldable pub check_forbidden_path : Text → Bool
check_forbidden_path path = not (strstr path (46 ∷ 46 ∷ 47 ∷ []) || strstr path (46 ∷ 47 ∷ []))

-- `rfc822_request_check_url`, and what the method goes on with. A path that is NULL is read.
unfoldable pub rfc822_request_check_url :
    RtspClient → Option (Option Text) → (Text → Handled) → Handled
unfolding check_forbidden_path
rfc822_request_check_url client none go = answer client bad_request
rfc822_request_check_url client (some none) go = crash
rfc822_request_check_url client (some (some path)) go =
    if check_forbidden_path path then go path else answer client forbidden

abbrev pub state_of : Option RtspSession → ServerState
state_of none = server_init
state_of (some session) = session.cur_state

abbrev pub state_eq : ServerState → ServerState → Bool
state_eq server_init server_init = true
state_eq server_ready server_ready = true
state_eq server_playing server_playing = true
state_eq server_recording server_recording = true
state_eq _ _ = false

-- `rtsp_check_invalid_state`, and what the method goes on with.
unfoldable pub rtsp_check_invalid_state : RtspClient → ServerState → Handled → Handled
rtsp_check_invalid_state client invalid go =
    if state_eq (state_of client.session) invalid then answer client invalid_method_in_state else go

-- `rtsp_session_new`.
unfoldable pub rtsp_session_new : World → RtspSession
rtsp_session_new w = record {
  session_id = w.new_id;
  cur_state = server_init;
  started = false;
  rtp_sessions = [];
  resource = none;
  resource_uri = none;
  play_requests = [];
}

abbrev pub closing : Option Opened → List Effect
closing none = []
closing (some _) = close_resource ∷ []

-- `rtsp_session_free`: the streams, the ranges, the resource.
unfoldable pub rtsp_session_free : Option RtspSession → List Effect
rtsp_session_free none = []
rtsp_session_free (some session) = map free_stream session.rtp_sessions ++ closing session.resource

-- `rtsp_session_editlist_append`.
unfoldable pub rtsp_session_editlist_append : RtspSession → ℕ × Range → RtspSession
rtsp_session_editlist_append session range = record session {
  play_requests = session.play_requests ++ range ∷ [];
}

-- `rtsp_session_editlist_free`: after it, a pointer to one of the ranges is left over.
unfoldable pub rtsp_session_editlist_free : RtspSession → RtspSession
rtsp_session_editlist_free session = record session { play_requests = [] }

-- A read through a stream's range pointer.
abbrev pub deref_range : Option ℕ → List (ℕ × Range) → Outcome Range
deref_range none ranges = crash
deref_range (some a) [] = crash
deref_range (some a) ((b, r) ∷ ranges) =
    let rest = deref_range (some a) ranges in if b == a then ok r else rest
