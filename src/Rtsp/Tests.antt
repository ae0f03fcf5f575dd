-- ===== src/Rtsp/Tests.antt =====
-- Runs of the session code on concrete requests.
use feng.Base.{
  ℕ, ◌-◌, ◌≡◌, refl, sym, ap, inl, Bool, true, false, Option, none, some, List, [], ◌∷◌, ok, crash,
  if◌then◌else◌, arith,
}
use feng.Base.Text.{Text, strstr}
use feng.Rtsp.{
  server_ready, server_playing, Method, setup, play, pause, teardown, describe, Range, Opened,
  Stream, RtspSession, RtspClient, Request, World, send_bye,
}
use feng.Rtsp.{options, respond, not_implemented}
use feng.Rtsp.{Effect}
use feng.Rtsp.Requests.{rtsp_handle_request}
use feng.Rtsp.Valid.{IsValidOption}
use feng.Rtsp.Served.{IsServable, Serves, rtsp_handle_request-Serves}
use feng.Rtsp.Sequences.{
  Refines, handle_all-Refines, AllServable, AnswersAll, handle_all-AnswersAll,
}
use feng.Rtsp.Timeout.{client_ev_timeout, client_ev_timeout_lem}
use feng.Rtsp.Crashes.{rtsp_handle_request-pathless}

abbrev film : Opened
film = record {
  names = (97 ∷ []) ∷ [];
  seekable = true;
  is_live = false;
  undef_media = false;
  duration = 100;
}

abbrev digit : Text → ℕ × ℕ
digit [] = (0, 0)
digit (d ∷ text) = (d - 48, 1)

abbrev pub world : World
world = record {
  strtoull = digit;
  ragel_parse_range_header = λ header range. none;
  ragel_parse_transport_header =
      λ header. record { rtp_channel = some 0; rtcp_channel = some 1 } ∷ [];
  g_uri_unescape_string = λ path. if strstr path (37 ∷ []) then none else some path;
  new_id = 49 ∷ 50 ∷ [];
  has_peer = true;
  r_open = λ path. some film;
  r_seek = λ resource time. false;
  rtp_transport_init = λ transport. true;
  stopped = λ resource track. false;
  now = 50;
  seconds = 50;
  add = λ a b. a;
  sub = λ a b. a;
  lt = λ a b. false;
  eq = λ a b. true;
  zero_time = 0;
  unset_time = 0;
}

-- "/f" and "/f/a".
abbrev pub path : Text
path = 47 ∷ 102 ∷ []

abbrev object : Text
object = 47 ∷ 102 ∷ 47 ∷ 97 ∷ []

abbrev request : ℕ → Method → Request
request cseq method = record {
  method = method;
  object = object;
  uri = some (some path);
  cseq = some (cseq ∷ []);
  session = none;
  require = none;
  proxy_require = none;
  range = none;
  transport = some path;
  user_agent = none;
}

abbrev pub newcomer : RtspClient
newcomer = record { session = none; last_cseq = 0; timer = false; next_range = 0 }

abbrev visit : List (World × Request)
visit =
    (world, request 49 setup)
    ∷ (world, request 50 play)
    ∷ (world, request 51 pause)
    ∷ (world, request 52 play)
    ∷ (world, request 53 teardown)
    ∷ []

abbrev pub media_of : Option Opened → Bool
media_of none = false
media_of (some o) = o.undef_media

servable : (cseq : ℕ) (method : Method) → IsServable world (request cseq method)
servable cseq method = record { path = (path, refl); media = λ uri o e. sym (ap media_of e) }

visit_servable : AllServable visit
visit_servable = (
  servable 49 setup,
  (servable 50 play, (servable 51 pause, (servable 52 play, (servable 53 teardown, tt)))),
)

rtsp_handle_request-Serves_example :
    Serves newcomer setup (some 1) (rtsp_handle_request world newcomer (request 49 setup))
rtsp_handle_request-Serves_example =
    rtsp_handle_request-Serves world newcomer (request 49 setup) tt (servable 49 setup)

handle_all-Refines_example : Refines newcomer visit
handle_all-Refines_example = handle_all-Refines newcomer visit tt visit_servable

handle_all-AnswersAll_example : AnswersAll newcomer visit
handle_all-AnswersAll_example = handle_all-AnswersAll newcomer visit tt visit_servable (
    (
      1,
      refl,
      omega arith,
      (
        2,
        refl,
        omega arith,
        (3, refl, omega arith, (4, refl, omega arith, (5, refl, omega arith, tt))),
      ),
    ))

rtsp_handle_request-pathless_example :
    rtsp_handle_request world newcomer (record (request 49 describe) { uri = some none }) ≡ crash
unfolding feng.Rtsp.Requests.rtsp_check_session feng.Rtsp.Requests.rtsp_check_required_options
rtsp_handle_request-pathless_example =
    rtsp_handle_request-pathless world newcomer (record (request 49 describe) { uri = some none }) 1
      refl (omega arith) refl refl (inl refl) refl

abbrev stream : Stream
stream = record {
  uri = object;
  track = 0;
  range = none;
  writing = false;
  last_packet_send_time = 0;
}

abbrev waiting : RtspSession
waiting = record {
  session_id = 49 ∷ [];
  cur_state = server_ready;
  started = false;
  rtp_sessions = stream ∷ [];
  resource = some (record film { is_live = true });
  resource_uri = some path;
  play_requests = [];
}

abbrev span : Range
span = record { begin_time = 0; end_time = 100; playback_time = 50 }

abbrev watched : RtspSession
watched = record waiting {
  cur_state = server_playing;
  rtp_sessions = record stream { range = some 0; writing = true; last_packet_send_time = 42 } ∷ [];
  play_requests = (0, span) ∷ [];
}

watched-IsValid : IsValidOption (some watched)
watched-IsValid = record {
  named = tt;
  resource = λ n. tt;
  ranges = λ e. tt;
  streams = (λ e. (refl, (span, refl)), tt);
  known = λ e. cc;
}

client_ev_timeout_example :
    client_ev_timeout world (record newcomer { session = some watched; timer = true })
    ≡ ok (record newcomer { session = some watched; timer = true }, send_bye ∷ [])
client_ev_timeout_example =
    client_ev_timeout_lem world (record newcomer { session = some watched; timer = true })
      watched-IsValid (refl, tt)
