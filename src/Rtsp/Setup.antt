-- ===== src/Rtsp/Setup.antt =====
-- SETUP and TEARDOWN: src/network/rtsp_method_setup.c, src/network/rtsp_method_teardown.c, the
-- lookup of a track (src/media/resource.c), and `rtp_session_new` (src/network/rtp.c).
use feng.Base.{
  ℕ, ◌+◌, Bool, false, ◌||◌, not, Option, none, some, List, [], ◌∷◌, ◌++◌, Outcome, ok, crash,
  ◌>>=◌, if◌then◌else◌, length, drop, ltb, ◌==◌,
}
use feng.Base.Text.{Text, text_eq, starts_with, split_last_slash}
use feng.Unreserved.{feng_str_is_unreserved}
use feng.Interleaved.{ParsedTransport}
use feng.Rtsp.{
  server_init, server_ready, not_found, aggregate_only, unsupported_transport, rtsp_ok, Opened,
  Stream, RtspSession, RtspClient, Request, World, Effect, respond, open_resource, ResponseCode,
  Handled, answer, rfc822_request_check_url, rtsp_session_new, rtsp_session_free, state_eq,
}

abbrev next_place : Option ℕ → Option ℕ
next_place none = none
next_place (some i) = some (i + 1)

-- `r_find_track`: the place of the first track of that name.
unfoldable pub r_find_track : List Text → Text → Option ℕ
r_find_track [] name = none
r_find_track (n ∷ names) name =
    let rest = next_place (r_find_track names name) in if text_eq n name then some 0 else rest

-- What `select_requested_track` comes to: a track of the session's resource, or an error that was
-- responded to; and what was opened on the way.
pub data TrackSelection : Type 0 where
  selected : RtspSession → Opened → ℕ → List Effect → TrackSelection
  refused : RtspSession → List Effect → TrackSelection

abbrev pub refuse : RtspSession → List Effect → ResponseCode → TrackSelection
refuse session effects code = refused session (effects ++ respond code ∷ [])

abbrev pub found : RtspSession → Opened → List Effect → Option ℕ → TrackSelection
found session resource effects none = refuse session effects not_found
found session resource effects (some i) = selected session resource i effects

-- The end of `select_requested_track`.
unfoldable pub find_track : RtspSession → Opened → Text → List Effect → TrackSelection
unfolding r_find_track
find_track session resource name effects =
    if not (feng_str_is_unreserved (some name))
    then refuse session effects aggregate_only
    else found session resource effects (r_find_track resource.names name)

-- `strrchr(path, '/')`, and the text cut there.
abbrev pub cut_last_slash : Text → Option (Text × Text) → Text
cut_last_slash path none = path
cut_last_slash path (some (before, after)) = before

abbrev pub opened : RtspSession → Text → Text → List Effect → Option Opened → TrackSelection
opened session uri name effects none = refuse session effects not_found
opened session uri name effects (some resource) =
    find_track (record session { resource = some resource; resource_uri = some uri }) resource name
      effects

-- A path that cannot be unescaped is NULL, and is read.
unfoldable pub open_path : World → RtspSession → Text → Text → Option Text → Outcome TrackSelection
unfolding find_track
open_path w session uri name none = crash
open_path w session uri name (some unescaped) =
    let path = cut_last_slash unescaped (split_last_slash unescaped) in
    ok (opened session uri name (open_resource (some path) ∷ []) (w.r_open (some path)))

-- No resource is known yet.
unfoldable pub select_new :
    World → RtspSession → Text → Option (Text × Text) → Outcome TrackSelection
unfolding open_path
select_new w session path none = ok (refuse session [] aggregate_only)
select_new w session path (some (uri, name)) =
    open_path w session uri name (w.g_uri_unescape_string path)

abbrev pub slash_at : Text → Bool
slash_at [] = false
slash_at (c ∷ text) = c == 47

-- The resource is known: the object must be its URI, a slash, and a name.
unfoldable pub select_known : RtspSession → Opened → Text → Text → TrackSelection
unfolding find_track
select_known session resource uri object =
    if ltb (length object) (length uri + 2)
      || (not (starts_with uri object) || not (slash_at (drop (length uri) object)))
    then refuse session [] aggregate_only
    else find_track session resource (drop (length uri + 1) object) []

-- `select_requested_track`, with its assertion on the resource and its URI.
unfoldable pub select_requested_track :
    World → RtspSession → Option Opened → Option Text → Text → Text → Outcome TrackSelection
unfolding select_new select_known
select_requested_track w session none none object path =
    select_new w session path (split_last_slash object)
select_requested_track w session (some resource) (some uri) object path =
    ok (select_known session resource uri object)
select_requested_track w session _ _ object path = crash

-- The loop of `rtp_session_new` over the transports, until one is set up.
unfoldable pub any_transport : World → List ParsedTransport → Bool
any_transport w [] = false
any_transport w (t ∷ transports) = w.rtp_transport_init t || any_transport w transports

-- `rtp_session_new`; a stopped track takes no session.
unfoldable pub rtp_session_new : World → Opened → Text → ℕ → List ParsedTransport → Option Stream
unfolding any_transport
rtp_session_new w resource uri track transports =
    let stream : Stream = record {
      uri = uri;
      track = track;
      range = none;
      writing = false;
      last_packet_send_time = 0;
    } in
    if w.stopped resource track
    then none
    else if any_transport w transports
    then some stream
    else none

abbrev pub ready : RtspSession → RtspSession
ready session = record session {
  cur_state = if state_eq session.cur_state server_init then server_ready else session.cur_state;
}

abbrev pub keep : RtspClient → RtspSession → RtspClient
keep client session = record client { session = some session }

-- The new stream, or none.
unfoldable pub add_stream : RtspClient → RtspSession → List Effect → Option Stream → Handled
add_stream client session effects none =
    ok (keep client session, effects ++ respond unsupported_transport ∷ [])
add_stream client session effects (some stream) =
    let session' : RtspSession = record session {
      rtp_sessions = session.rtp_sessions ++ stream ∷ [];
    } in
    ok (keep client (ready session'), effects ++ respond rtsp_ok ∷ [])

unfoldable pub finish_setup :
    World → RtspClient → Request → List ParsedTransport → TrackSelection → Handled
unfolding rtp_session_new add_stream
finish_setup w client req transports (refused session effects) = ok (keep client session, effects)
finish_setup w client req transports (selected session resource track effects) =
    add_stream client session effects (rtp_session_new w resource req.object track transports)

-- `rtsp->session`, or a new one.
abbrev pub own_session : World → Option RtspSession → RtspSession
own_session w none = rtsp_session_new w
own_session w (some session) = session

-- `RTSP_setup` from the transports on.
unfoldable pub setup_with : World → RtspClient → Request → Text → List ParsedTransport → Handled
unfolding select_requested_track finish_setup rtsp_session_new
setup_with w client req path [] = answer client unsupported_transport
setup_with w client req path (t ∷ transports) =
    let session = own_session w client.session in
    select_requested_track w session session.resource session.resource_uri req.object path >>= λ s.
    finish_setup w client req (t ∷ transports) s

abbrev pub transports_of : World → Option Text → List ParsedTransport
transports_of w none = []
transports_of w (some header) = w.ragel_parse_transport_header header

-- `RTSP_setup`.
unfoldable pub rtsp_setup : World → RtspClient → Request → Handled
unfolding setup_with rfc822_request_check_url
rtsp_setup w client req =
    rfc822_request_check_url client req.uri
      λ path. setup_with w client req path (transports_of w req.transport)

-- `RTSP_teardown`.
unfoldable pub rtsp_teardown : RtspClient → Request → Handled
unfolding rtsp_session_free rfc822_request_check_url
rtsp_teardown client req = rfc822_request_check_url client req.uri λ path.
    ok (record client { session = none }, rtsp_session_free client.session ++ respond rtsp_ok ∷ [])
