-- ===== src/Rtsp/Play.antt =====
-- PLAY and PAUSE: src/network/rtsp_method_play.c, src/network/rtsp_method_pause.c, and how they
-- start and stop the streams (src/network/rtp.c).
use feng.Base.{
  ℕ, ◌+◌, Bool, true, false, ◌||◌, ◌&&◌, not, Option, none, some, List, [], ◌∷◌, ◌++◌, map, Outcome,
  ok, crash, ◌>>=◌, if◌then◌else◌,
}
use feng.Base.Text.{Text, starts_with}
use feng.Rtsp.{
  server_init, server_ready, server_playing, ResponseCode, rtsp_ok, not_implemented,
  header_field_not_valid_for_resource, invalid_range, Range, Opened, Stream, RtspSession,
  RtspClient, Request, World, Effect, respond, seek, r_resume, r_fill, r_pause, Handled,
  rfc822_request_check_url, rtsp_check_invalid_state, state_eq, rtsp_session_editlist_append,
  rtsp_session_editlist_free,
}

-- `rtp_session_resume`; `range` is the pointer that the stream keeps.
unfoldable pub rtp_session_resume : World → ℕ → Stream → Stream
rtp_session_resume w range stream = record stream {
  range = some range;
  writing = true;
  last_packet_send_time = w.seconds;
}

abbrev pub resume_effects : List Stream → List Effect
resume_effects [] = []
resume_effects (s ∷ streams) = r_resume ∷ r_fill s.track ∷ resume_effects streams

-- `rtp_session_pause`.
unfoldable pub rtp_session_pause : Stream → Stream
rtp_session_pause stream = record stream { writing = false }

abbrev pub pause_effects : List Stream → List Effect
pause_effects [] = []
pause_effects (s ∷ streams) = r_pause ∷ pause_effects streams

-- `rtsp_do_pause`: the first range is written to without a test.
unfoldable pub pause_at :
    World → RtspSession → List (ℕ × Range) → Outcome (RtspSession × List Effect)
unfolding rtp_session_pause
pause_at w session [] = crash
pause_at w session ((a, range) ∷ rest) =
    let paused : Range = record range {
      begin_time = w.add range.begin_time (w.sub w.now range.playback_time);
      playback_time = w.unset_time;
    } in
    ok (
      record session {
        play_requests = (a, paused) ∷ rest;
        rtp_sessions = map rtp_session_pause session.rtp_sessions;
        cur_state = server_ready;
      },
      pause_effects session.rtp_sessions,
    )

unfoldable pub rtsp_do_pause :
    World → RtspClient → RtspSession → Outcome (RtspClient × RtspSession × List Effect)
unfolding pause_at
rtsp_do_pause w client session = pause_at w session session.play_requests >>= λ r.
    ok (record client { session = some r.0; timer = false }, r.0, r.1)

-- What `RTSP_pause` does where there is a session.
unfoldable pub pause_session : World → RtspClient → Option RtspSession → Handled
unfolding rtsp_do_pause
pause_session w client none = crash
pause_session w client (some session) =
    rtsp_do_pause w client session >>= λ r. ok (r.0, r.2 ++ respond rtsp_ok ∷ [])

-- `RTSP_pause`.
unfoldable pub rtsp_pause : World → RtspClient → Request → Handled
unfolding pause_session rtsp_check_invalid_state rfc822_request_check_url
rtsp_pause w client req = rtsp_check_invalid_state client server_init (
    rtsp_check_invalid_state client server_ready
      (rfc822_request_check_url client req.uri λ path. pause_session w client client.session))

-- The seek of `do_play`, if the resource has one.
abbrev pub fails_to_seek : World → Opened → Range → Bool
fails_to_seek w resource range = resource.seekable && w.r_seek resource range.begin_time

abbrev pub seek_effects : Opened → Range → List Effect
seek_effects resource range = if resource.seekable then seek range.begin_time ∷ [] else []

-- `do_play`: the session after it, what it did, and its result.
unfoldable pub play_range :
    World
    → RtspSession
    → Option Opened
    → List (ℕ × Range)
    → Outcome (RtspSession × List Effect × ResponseCode)
unfolding rtp_session_resume
play_range w session none ranges = crash
play_range w session (some resource) [] = crash
play_range w session (some resource) ((a, range) ∷ rest) =
    let playing : RtspSession = record session {
      cur_state = server_playing;
      started = true;
      rtp_sessions = map (rtp_session_resume w a) session.rtp_sessions;
    } in
    if fails_to_seek w resource range
    then ok (session, seek_effects resource range, invalid_range)
    else ok (playing, seek_effects resource range ++ resume_effects session.rtp_sessions, rtsp_ok)

unfoldable pub do_play : World → RtspSession → Outcome (RtspSession × List Effect × ResponseCode)
unfolding play_range
do_play w session = play_range w session session.resource session.play_requests

abbrev pub default_range : World → Range
default_range w = record {
  begin_time = w.zero_time;
  end_time = w.unset_time;
  playback_time = w.unset_time;
}

-- The end, where none or one past the resource was given, and the start, where none was given.
abbrev pub complete : World → Opened → Range → Range
complete w resource range =
    let over = w.lt range.end_time w.zero_time || w.lt resource.duration range.end_time in
    record range {
      end_time = if over then resource.duration else range.end_time;
      playback_time = if w.lt range.playback_time w.zero_time then w.now else range.playback_time;
    }

-- A new range goes behind the others, which are freed first unless the session is playing.
unfoldable pub add_range :
    World → RtspClient → RtspSession → Opened → Range → RtspClient × RtspSession
unfolding rtsp_session_editlist_append rtsp_session_editlist_free
add_range w client session resource range =
    let kept =
      if state_eq session.cur_state server_playing
      then session
      else rtsp_session_editlist_free session in
    let session' =
      rtsp_session_editlist_append kept (client.next_range, complete w resource range) in
    (record client { session = some session'; next_range = client.next_range + 1 }, session')

-- A Range header, whose test for a range that is not "0-" is on `seek != NULL`.
unfoldable pub with_header :
    World
    → RtspClient
    → RtspSession
    → Option Opened
    → Option Range
    → Outcome (RtspClient × RtspSession × ResponseCode)
unfolding add_range
with_header w client session resource none = ok (client, session, not_implemented)
with_header w client session none (some range) = crash
with_header w client session (some resource) (some range) =
    let (client', session') = add_range w client session resource range in
    if resource.seekable
      && (not (w.eq range.begin_time w.zero_time) && not (w.eq range.end_time w.unset_time))
    then ok (client, session, header_field_not_valid_for_resource)
    else ok (client', session', rtsp_ok)

-- No Range header: the first range that is queued is started again, or the default one is queued.
unfoldable pub without_header :
    World
    → RtspClient
    → RtspSession
    → Option Opened
    → List (ℕ × Range)
    → Outcome (RtspClient × RtspSession × ResponseCode)
unfolding add_range
without_header w client session none [] = crash
without_header w client session (some resource) [] =
    let (client', session') = add_range w client session resource (default_range w) in
    ok (client', session', rtsp_ok)
without_header w client session resource ((a, range) ∷ rest) =
    let session' : RtspSession = record session {
      play_requests = (a, record range { playback_time = w.now }) ∷ rest;
    } in
    ok (record client { session = some session' }, session', rtsp_ok)

-- `parse_range_header`.
unfoldable pub range_of :
    World
    → RtspClient
    → RtspSession
    → Option Text
    → Outcome (RtspClient × RtspSession × ResponseCode)
unfolding with_header without_header
range_of w client session none =
    without_header w client session session.resource session.play_requests
range_of w client session (some header) =
    with_header w client session session.resource
      (w.ragel_parse_range_header header (default_range w))

unfoldable pub parse_range_header :
    World → RtspClient → RtspSession → Request → Outcome (RtspClient × RtspSession × ResponseCode)
unfolding range_of
parse_range_header w client session req = range_of w client session req.range

abbrev pub is_ok : ResponseCode → Bool
is_ok rtsp_ok = true
is_ok _ = false

-- "VLC media player".
abbrev vlc : Text
vlc = 86 ∷ 76 ∷ 67 ∷ 32 ∷ 109 ∷ 101 ∷ 100 ∷ 105 ∷ 97 ∷ 32 ∷ 112 ∷ 108 ∷ 97 ∷ 121 ∷ 101 ∷ 114 ∷ []

abbrev pub is_vlc : Option Text → Bool
is_vlc none = false
is_vlc (some agent) = starts_with vlc agent

-- The workaround for VLC: a session that plays is paused first.
unfoldable pub vlc_pause :
    World → RtspClient → RtspSession → Request → Outcome (RtspClient × RtspSession × List Effect)
unfolding rtsp_do_pause
vlc_pause w client session req =
    if state_eq session.cur_state server_playing && is_vlc req.user_agent
    then rtsp_do_pause w client session
    else ok (client, session, [])

-- `send_play_reply` reads the first range.
abbrev pub play_reply : List (ℕ × Range) → Outcome (Unit {0})
play_reply [] = crash
play_reply (r ∷ _) = ok tt

-- The reply, and the timer.
unfoldable pub finish_play : RtspClient → RtspSession → List Effect → Handled
finish_play client session effects = play_reply session.play_requests >>= λ _.
    ok (record client { session = some session; timer = true }, effects ++ respond rtsp_ok ∷ [])

-- `do_play`, unless the session is playing already.
unfoldable pub start_play : World → RtspClient → RtspSession → List Effect → Handled
unfolding do_play finish_play
start_play w client session effects =
    let start = do_play w session >>= λ r.
    (if is_ok r.2
      then finish_play client r.0 (effects ++ r.1)
      else ok (record client { session = some r.0 }, effects ++ (r.1 ++ respond r.2 ∷ []))) in
    if state_eq session.cur_state server_playing then finish_play client session effects else start

-- What `RTSP_play` does where there is a session.
unfoldable pub play_session : World → RtspClient → Option RtspSession → Request → Handled
unfolding vlc_pause parse_range_header start_play
play_session w client none req = crash
play_session w client (some session) req = vlc_pause w client session req >>= λ v.
    parse_range_header w v.0 v.1 req >>= λ r.
    if is_ok r.2 then start_play w r.0 r.1 v.2 else ok (r.0, v.2 ++ respond r.2 ∷ [])

-- `RTSP_play`. The session's id is never NULL.
unfoldable pub rtsp_play : World → RtspClient → Request → Handled
unfolding play_session rtsp_check_invalid_state rfc822_request_check_url
rtsp_play w client req =
    rtsp_check_invalid_state client server_init
      (rfc822_request_check_url client req.uri λ path. play_session w client client.session req)
