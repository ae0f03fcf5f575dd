-- ===== src/Rtsp/PlayMethods.antt =====
-- The checks before PLAY and PAUSE, and the whole methods (src/network/rtsp_utils.c,
-- src/network/rtsp_method_play.c, src/network/rtsp_method_pause.c).
use feng.Base.{
  ◌≡◌, ◌≢◌, refl, sym, ◌∙◌, inl, inr, false, Option, none, some, [], ◌∷◌, ◌++◌, Bool-cases,
}
use feng.Base.Text.{Text}
use feng.Rtsp.{
  ServerState, server_init, server_ready, server_playing, server_recording, rtsp_ok, forbidden,
  bad_request, invalid_method_in_state, Method, play, pause, RtspSession, RtspClient, Request,
  World, respond, Handled, state_of, state_eq, rfc822_request_check_url, rtsp_check_invalid_state,
  check_forbidden_path,
}
use feng.Rtsp.Play.{rtsp_do_pause, pause_session, rtsp_pause, play_session, rtsp_play}
use feng.Rtsp.Valid.{IsValid, IsValidOption, Behaves, answer-Behaves, answered_last, state_eq→≢}
use feng.Rtsp.Playing.{pause_at-Paused}
use feng.Rtsp.PlayPause.{play_session-Behaves}

pause_session-Behaves :
    (w : World) (client : RtspClient) (s : RtspSession)
    → client.session ≡ some s
    → IsValid s
    → s.cur_state ≡ server_playing
    → Behaves client pause (pause_session w client (some s))
unfolding pause_session rtsp_do_pause
pause_session-Behaves w client s o v p =
    let a = pause_at-Paused w s s.play_requests v (v.resource (λ e. cc (sym p ∙ e))) (v.ranges p) in
    record {
      client' = record client { session = some a.session; timer = false };
      effects = a.effects ++ respond rtsp_ok ∷ [];
      code = rtsp_ok;
      runs = rw a.runs;
      valid = a.valid;
      answered = answered_last a.effects rtsp_ok a.silent;
      step = rw (o, p, a.state);
      cseq = refl;
    }

-- The URI of a request has a path.
abbrev pub HasPath : Option (Option Text) → Type 0
HasPath none = Unit
HasPath (some none) = ⊥
HasPath (some (some path)) = Unit

pub checked_url-Behaves :
    (client : RtspClient) (method : Method) (uri : Option (Option Text)) (go : Text → Handled)
    → HasPath uri
    → IsValidOption client.session
    → ((path : Text) → uri ≡ some (some path) → Behaves client method (go path))
    → Behaves client method (rfc822_request_check_url client uri go)
unfolding rfc822_request_check_url
checked_url-Behaves client method none go h v b =
    answer-Behaves client method bad_request v (inl refl)
checked_url-Behaves client method (some none) go h v b = absurd h
checked_url-Behaves client method (some (some path)) go h v b =
    elim (Bool-cases (check_forbidden_path path)) [
      | inl e ↦ rw e (b path refl)
      | inr e ↦ rw e (answer-Behaves client method forbidden v (inl refl))
    ]

checked_state-Behaves :
    (client : RtspClient) (method : Method) (state : ServerState) (go : Handled)
    → IsValidOption client.session
    → (state_of client.session ≢ state → Behaves client method go)
    → Behaves client method (rtsp_check_invalid_state client state go)
unfolding rtsp_check_invalid_state
checked_state-Behaves client method state go v b =
    elim (Bool-cases (state_eq (state_of client.session) state)) [
      | inl e ↦ rw e (answer-Behaves client method invalid_method_in_state v (inl refl))
      | inr e ↦ rw e (b (state_eq→≢ (state_of client.session) state e))
    ]

owned_play-Behaves :
    (w : World) (client : RtspClient) (session : Option RtspSession) (req : Request)
    → client.session ≡ session
    → IsValidOption session
    → state_of session ≢ server_init
    → Behaves client play (play_session w client session req)
owned_play-Behaves w client none req o v n = absurd (n refl)
owned_play-Behaves w client (some s) req o v n = play_session-Behaves w client s req o v n

only_playing :
    (s : ServerState)
    → s ≢ server_init
    → s ≢ server_ready
    → s ≢ server_recording
    → s ≡ server_playing
only_playing server_init i r m = absurd (i refl)
only_playing server_ready i r m = absurd (r refl)
only_playing server_playing i r m = refl
only_playing server_recording i r m = absurd (m refl)

owned_pause-Behaves :
    (w : World) (client : RtspClient) (session : Option RtspSession)
    → client.session ≡ session
    → IsValidOption session
    → state_of session ≢ server_init
    → state_of session ≢ server_ready
    → Behaves client pause (pause_session w client session)
owned_pause-Behaves w client none o v n r = absurd (n refl)
owned_pause-Behaves w client (some s) o v n r =
    pause_session-Behaves w client s o v (only_playing s.cur_state n r v.known)

pub rtsp_play-Behaves :
    (w : World) (client : RtspClient) (req : Request)
    → IsValidOption client.session
    → HasPath req.uri
    → Behaves client play (rtsp_play w client req)
unfolding rtsp_play
rtsp_play-Behaves w client req v h = checked_state-Behaves client play server_init _ v λ n.
    checked_url-Behaves client play req.uri _ h v
      λ path e. owned_play-Behaves w client client.session req refl v n

pub rtsp_pause-Behaves :
    (w : World) (client : RtspClient) (req : Request)
    → IsValidOption client.session
    → HasPath req.uri
    → Behaves client pause (rtsp_pause w client req)
unfolding rtsp_pause
rtsp_pause-Behaves w client req v h = checked_state-Behaves client pause server_init _ v λ n.
    checked_state-Behaves client pause server_ready _ v λ r.
      checked_url-Behaves client pause req.uri _ h v
        λ path e. owned_pause-Behaves w client client.session refl v n r
