-- ===== src/Rtsp/Requests.antt =====
-- OPTIONS, DESCRIBE and the dispatch: src/network/rtsp_method_options.c,
-- src/network/rtsp_method_describe.c, and `rtsp_handle_request` with its checks
-- (src/network/rtsp_state_machine.c).
use feng.Base.{
  ◌-◌, ◌^◌, Bool, true, false, ◌&&◌, not, Option, none, some, List, [], ◌∷◌, ◌++◌, ok, crash, ◌>>=◌,
  if◌then◌else◌, length, ltb, leb, ◌==◌,
}
use feng.Base.Text.{Text, text_eq}
use feng.Rtsp.{
  rtsp_ok, bad_request, not_found, session_not_found, option_not_supported, Opened, RtspSession,
  RtspClient, Request, World, Effect, respond, open_resource, close_resource, Handled, answer,
  rfc822_request_check_url, Method, describe, setup, teardown, options, play, pause,
}
use feng.Rtsp.Play.{rtsp_play, rtsp_pause}
use feng.Rtsp.Setup.{rtsp_setup, rtsp_teardown}

-- `RTSP_options`.
unfoldable pub rtsp_options : RtspClient → Handled
rtsp_options client = answer client rtsp_ok

-- The end of `sdp_session_descr`, with the assertion of `sdp_track_descr` on each track.
abbrev pub described : RtspClient → List Effect → Option Opened → Handled
described client effects none = ok (client, effects ++ respond not_found ∷ [])
described client effects (some resource) =
    if resource.undef_media
    then crash
    else ok (client, effects ++ (close_resource ∷ respond rtsp_ok ∷ []))

-- `RTSP_describe`. A path that cannot be unescaped is NULL, which `r_open` gets.
unfoldable pub rtsp_describe : World → RtspClient → Request → Handled
unfolding rfc822_request_check_url
rtsp_describe w client req = rfc822_request_check_url client req.uri λ path.
    let unescaped = w.g_uri_unescape_string path in
    if w.has_peer
    then described client (open_resource unescaped ∷ []) (w.r_open unescaped)
    else answer client not_found

-- `methods[req->method_id]`.
unfoldable pub dispatch : World → RtspClient → Request → Method → Handled
unfolding rtsp_options rtsp_describe
dispatch w client req describe = rtsp_describe w client req
dispatch w client req setup = rtsp_setup w client req
dispatch w client req teardown = rtsp_teardown client req
dispatch w client req options = rtsp_options client
dispatch w client req play = rtsp_play w client req
dispatch w client req pause = rtsp_pause w client req

abbrev is_session : Option RtspSession → Text → Bool
is_session none header = false
is_session (some session) header = text_eq header session.session_id

-- `rtsp_check_session`.
unfoldable pub rtsp_check_session : RtspClient → Option Text → Bool
rtsp_check_session client none = true
rtsp_check_session client (some header) = is_session client.session header

abbrev is_none : Option Text → Bool
is_none none = true
is_none (some _) = false

-- `rtsp_check_required_options`.
unfoldable pub rtsp_check_required_options : Request → Bool
rtsp_check_required_options req = is_none req.require && is_none req.proxy_require

-- The checks and the method, once the sequence number is a new one.
unfoldable pub accept_request : World → RtspClient → Request → Handled
unfolding rtsp_check_session rtsp_check_required_options dispatch
accept_request w client req =
    if not (rtsp_check_session client req.session)
    then answer client session_not_found
    else if not (rtsp_check_required_options req)
    then answer client option_not_supported
    else dispatch w client req req.method

-- The CSeq header: `G_MAXUINT64`, or a number that does not take the whole header, is refused; one
-- that is not higher than the last is dropped without a response.
unfoldable pub with_cseq : World → RtspClient → Request → Option Text → Handled
unfolding accept_request
with_cseq w client req none = answer client bad_request
with_cseq w client req (some header) =
    let (value, used) = w.strtoull header in
    if value == 2 ^ 64 - 1
    then answer client bad_request
    else if ltb used (length header)
    then answer client bad_request
    else if leb value client.last_cseq
    then ok (client, [])
    else accept_request w (record client { last_cseq = value }) req

-- `rtsp_handle_request`.
unfoldable pub rtsp_handle_request : World → RtspClient → Request → Handled
unfolding with_cseq
rtsp_handle_request w client req = with_cseq w client req req.cseq

-- Requests one after the other, each with the world as it is then, and all that they do.
unfoldable pub handle_all : RtspClient → List (World × Request) → Handled
unfolding rtsp_handle_request
handle_all client [] = ok (client, [])
handle_all client ((w, req) ∷ reqs) =
    rtsp_handle_request w client req >>= λ a. handle_all a.0 reqs >>= λ b. ok (b.0, a.1 ++ b.1)
