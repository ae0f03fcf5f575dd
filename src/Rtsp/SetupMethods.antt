-- ===== src/Rtsp/SetupMethods.antt =====
-- The whole of SETUP and TEARDOWN (src/network/rtsp_method_setup.c,
-- src/network/rtsp_method_teardown.c).
use mathlib.Core.Path.{subst}
use feng.Base.{
  ℕ, ◌≡◌, ◌≢◌, refl, sym, ◌∙◌, inl, inr, Bool, false, Option, none, some, List, [], ◌∷◌, ◌++◌, map,
  Bool-cases, All,
}
use feng.Base.Text.{Text}
use feng.Interleaved.{ParsedTransport}
use feng.Rtsp.{
  ServerState, server_init, server_ready, server_playing, server_recording, ResponseCode, rtsp_ok,
  unsupported_transport, Method, setup, teardown, Range, Opened, Stream, RtspSession, RtspClient,
  Request, World, Effect, respond, closing, free_stream, state_of, state_eq, rtsp_session_new,
  rtsp_session_free,
}
use feng.Rtsp.Play.{is_ok}
use feng.Rtsp.Setup.{
  TrackSelection, rtp_session_new, any_transport, ready, keep, add_stream, finish_setup,
  own_session, setup_with, transports_of, rtsp_setup, rtsp_teardown,
}
use feng.Rtsp.Valid.{
  responses, IsSome, IsServed, IsValid, IsValidOption, after_ok, Allowed, Behaves, answer-Behaves,
  answered_last, silent-append, state_eq→≡, state_eq→≢, All-idle-IsServed,
}
use feng.Rtsp.PlayMethods.{HasPath, checked_url-Behaves}
use feng.Rtsp.SetupValid.{Picked, select_requested_track-Picks}

refused_step :
    (state state' : ServerState) (method : Method) (code : ResponseCode)
    → is_ok code ≡ false
    → state' ≡ state
    → Allowed state method code state'
refused_step s s' method rtsp_ok e h = cc
refused_step s s' method _ e h = inl h

after_setup : (state : ServerState) → state ≢ server_init → after_ok state setup ≡ some state
after_setup server_init n = absurd (n refl)
after_setup server_ready n = refl
after_setup server_playing n = refl
after_setup server_recording n = refl

All-snoc-IsServed :
    (state : ServerState) (ranges : List (ℕ × Range)) (streams : List Stream) (s : Stream)
    → All (IsServed state ranges) streams
    → s.writing ≡ false
    → All (IsServed state ranges) (streams ++ s ∷ [])
All-snoc-IsServed state ranges [] s h e = (λ k. cc (sym e ∙ k), tt)
All-snoc-IsServed state ranges (t ∷ streams) s (h, hs) e =
    (h, All-snoc-IsServed state ranges streams s hs e)

-- Whether a stream that was set up writes.
abbrev option_writing : Option Stream → Bool
option_writing none = false
option_writing (some stream) = stream.writing

add_stream-Behaves :
    (client : RtspClient) (s : RtspSession) (effects : List Effect) (stream : Option Stream)
    → IsValid s
    → IsSome s.resource
    → s.cur_state ≡ state_of client.session
    → responses effects ≡ []
    → (option_writing stream ≡ false)
    → Behaves client setup (add_stream client s effects stream)
unfolding add_stream
add_stream-Behaves client s effects none v h e q k = record {
  client' = keep client s;
  effects = effects ++ respond unsupported_transport ∷ [];
  code = unsupported_transport;
  runs = refl;
  valid = v;
  answered = answered_last effects unsupported_transport q;
  step = inl e;
  cseq = refl;
}
add_stream-Behaves client s effects (some stream) v h e q k =
    elim (Bool-cases (state_eq s.cur_state server_init)) [
      | inl t ↦
          let i = state_eq→≡ s.cur_state server_init t in
          record {
            client' =
                keep client (ready (record s { rtp_sessions = s.rtp_sessions ++ stream ∷ [] }));
            effects = effects ++ respond rtsp_ok ∷ [];
            code = rtsp_ok;
            runs = refl;
            valid = rw t (record {
              named = v.named;
              resource = λ n. h;
              ranges = λ p. cc;
              streams =
                  All-snoc-IsServed server_ready s.play_requests s.rtp_sessions stream
                    (All-idle-IsServed s.cur_state s.play_requests s.play_requests s.rtp_sessions
                      (λ p. cc (sym i ∙ p)) v.streams server_ready)
                    k;
              known = λ p. cc;
            });
            answered = answered_last effects rtsp_ok q;
            step = rw (t, sym e, i);
            cseq = refl;
          }
      | inr t ↦ record {
        client' = keep client (ready (record s { rtp_sessions = s.rtp_sessions ++ stream ∷ [] }));
        effects = effects ++ respond rtsp_ok ∷ [];
        code = rtsp_ok;
        runs = refl;
        valid = rw t (record {
          named = v.named;
          resource = v.resource;
          ranges = v.ranges;
          streams = All-snoc-IsServed s.cur_state s.play_requests s.rtp_sessions stream v.streams k;
          known = v.known;
        });
        answered = answered_last effects rtsp_ok q;
        step = rw (t, sym e) (after_setup s.cur_state (state_eq→≢ s.cur_state server_init t));
        cseq = refl;
      }
    ]

idle_stream :
    (w : World) (resource : Opened) (uri : Text) (track : ℕ) (transports : List ParsedTransport)
    → option_writing (rtp_session_new w resource uri track transports) ≡ false
unfolding rtp_session_new
idle_stream w resource uri track transports = elim (Bool-cases (w.stopped resource track)) [
  | inl e ↦ rw e
  | inr e ↦ elim (Bool-cases (any_transport w transports)) [ inl k ↦ rw (e, k) | inr k ↦ rw (e, k) ]
]

finish_setup-Behaves :
    (w : World) (client : RtspClient) (req : Request) (transports : List ParsedTransport)
    (result : TrackSelection)
    → Picked (state_of client.session) result
    → Behaves client setup (finish_setup w client req transports result)
unfolding finish_setup
finish_setup-Behaves w client req transports result p = elim p.outcome [
  | inl (resource, i, e, h, q) ↦ rw e (
      add_stream-Behaves client p.session p.effects
        (rtp_session_new w resource req.object i transports) p.valid h p.state q
        (idle_stream w resource req.object i transports))
  | inr (code, e, n, q) ↦ rw e (record {
    client' = keep client p.session;
    effects = p.effects;
    code = code;
    runs = refl;
    valid = p.valid;
    answered = q;
    step = refused_step (state_of client.session) p.session.cur_state setup code n p.state;
    cseq = refl;
  })
]

own_session-IsValid :
    (w : World) (session : Option RtspSession)
    → IsValidOption session
    → IsValid (own_session w session) × ((own_session w session).cur_state ≡ state_of session)
unfolding rtsp_session_new
own_session-IsValid w none v = (new_valid, refl)
  where
    new_valid : IsValid (own_session w none)
    new_valid = record {
      named = tt;
      resource = λ n. absurd (n refl);
      ranges = λ e. cc;
      streams = tt;
      known = λ e. cc;
    }
own_session-IsValid w (some s) v = (v, refl)

setup_with-Behaves :
    (w : World) (client : RtspClient) (req : Request) (path unescaped : Text)
    (transports : List ParsedTransport)
    → IsValidOption client.session
    → w.g_uri_unescape_string path ≡ some unescaped
    → Behaves client setup (setup_with w client req path transports)
unfolding setup_with
setup_with-Behaves w client req path unescaped [] v u =
    answer-Behaves client setup unsupported_transport v (inl refl)
setup_with-Behaves w client req path unescaped (t ∷ transports) v u =
    let s = own_session w client.session in
    let (valid, e) = own_session-IsValid w client.session v in
    let p =
      select_requested_track-Picks w s s.resource s.resource_uri req.object path unescaped refl
        valid.named u valid in
    rw p.runs (
      finish_setup-Behaves w client req (t ∷ transports) p.result
        (subst (λ (state : ServerState). Picked state p.result) e p.picked))

-- The URI of a request has a path that can be unescaped.
abbrev pub CanUnescape : World → Option (Option Text) → Type 0
CanUnescape w none = Unit
CanUnescape w (some none) = ⊥
CanUnescape w (some (some path)) =
    (unescaped : Text) × (w.g_uri_unescape_string path ≡ some unescaped)

pub can_unescape-HasPath :
    (w : World) (uri : Option (Option Text)) → CanUnescape w uri → HasPath uri
can_unescape-HasPath w none h = tt
can_unescape-HasPath w (some none) h = absurd h
can_unescape-HasPath w (some (some path)) h = tt

pub rtsp_setup-Behaves :
    (w : World) (client : RtspClient) (req : Request)
    → IsValidOption client.session
    → CanUnescape w req.uri
    → Behaves client setup (rtsp_setup w client req)
unfolding rtsp_setup
rtsp_setup-Behaves w client req v h =
    checked_url-Behaves client setup req.uri _ (can_unescape-HasPath w req.uri h) v λ path e.
      let u = subst (CanUnescape w) e h in
      setup_with-Behaves w client req path u.0 (transports_of w req.transport) v u.1

silent_free : (streams : List Stream) → responses (map free_stream streams) ≡ []
silent_free [] = refl
silent_free (s ∷ streams) = silent_free streams

silent_closing : (resource : Option Opened) → responses (closing resource) ≡ []
silent_closing none = refl
silent_closing (some resource) = refl

silent_session_free : (session : Option RtspSession) → responses (rtsp_session_free session) ≡ []
unfolding rtsp_session_free
silent_session_free none = refl
silent_session_free (some s) =
    silent-append (map free_stream s.rtp_sessions) (closing s.resource) (silent_free s.rtp_sessions)
      (silent_closing s.resource)

pub rtsp_teardown-Behaves :
    (client : RtspClient) (req : Request)
    → IsValidOption client.session
    → HasPath req.uri
    → Behaves client teardown (rtsp_teardown client req)
unfolding rtsp_teardown
rtsp_teardown-Behaves client req v h = checked_url-Behaves client teardown req.uri _ h v λ path e.
    record {
      client' = record client { session = none };
      effects = rtsp_session_free client.session ++ respond rtsp_ok ∷ [];
      code = rtsp_ok;
      runs = refl;
      valid = tt;
      answered =
          answered_last (rtsp_session_free client.session) rtsp_ok
            (silent_session_free client.session);
      step = refl;
      cseq = refl;
    }
