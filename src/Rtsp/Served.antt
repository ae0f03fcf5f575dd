-- ===== src/Rtsp/Served.antt =====
-- `rtsp_handle_request` on one request, and on a sequence of them (src/network/rtsp_state_machine.c).
use feng.Base.{
  ℕ, ◌-◌, ◌^◌, ◌≤◌, ◌<◌, ◌≡◌, refl, inl, inr, false, not, ◌||◌, Option, none, some, List, [], ◌∷◌,
  ok, if◌then◌else◌, ◌==◌, Bool-cases, ltb, leb, leb→le, leb→gt, length,
}
use feng.Base.Text.{Text}
use feng.Rtsp.{
  ResponseCode, rtsp_ok, bad_request, not_found, session_not_found, option_not_supported, Method,
  describe, setup, teardown, options, play, pause, Opened, RtspClient, Request, World, Effect,
  respond, open_resource, close_resource, Handled, answer, state_of,
}
use feng.Rtsp.Requests.{
  rtsp_options, described, rtsp_describe, dispatch, rtsp_check_session, rtsp_check_required_options,
  accept_request, with_cseq, rtsp_handle_request,
}
use feng.Rtsp.Valid.{responses, IsValidOption, Allowed, Behaves, answer-Behaves}
use feng.Rtsp.PlayMethods.{checked_url-Behaves, rtsp_play-Behaves, rtsp_pause-Behaves}
use feng.Rtsp.SetupMethods.{
  CanUnescape, can_unescape-HasPath, rtsp_setup-Behaves, rtsp_teardown-Behaves,
}

-- What a request is to bring for the server to go on: a URI with a path that can be unescaped; and
-- for DESCRIBE, a resource whose tracks have a known media type.
pub record IsServable (w : World) (req : Request) : Type 0 where
  pub path : CanUnescape w req.uri
  pub media : (uri : Option Text) (o : Opened) → w.r_open uri ≡ some o → o.undef_media ≡ false

described-Behaves :
    (w : World) (client : RtspClient) (uri : Option Text) (resource : Option Opened)
    → w.r_open uri ≡ resource
    → ((o : Opened) → w.r_open uri ≡ some o → o.undef_media ≡ false)
    → IsValidOption client.session
    → Behaves client describe (described client (open_resource uri ∷ []) resource)
described-Behaves w client uri none e h v = record {
  client' = client;
  effects = open_resource uri ∷ respond not_found ∷ [];
  code = not_found;
  runs = refl;
  valid = v;
  answered = refl;
  step = inl refl;
  cseq = refl;
}
described-Behaves w client uri (some o) e h v = record {
  client' = client;
  effects = open_resource uri ∷ close_resource ∷ respond rtsp_ok ∷ [];
  code = rtsp_ok;
  runs = rw (h o e);
  valid = v;
  answered = refl;
  step = refl;
  cseq = refl;
}

rtsp_describe-Behaves :
    (w : World) (client : RtspClient) (req : Request)
    → IsValidOption client.session
    → IsServable w req
    → Behaves client describe (rtsp_describe w client req)
unfolding rtsp_describe
rtsp_describe-Behaves w client req v h =
    checked_url-Behaves client describe req.uri _ (can_unescape-HasPath w req.uri h.path) v
      λ path e. elim (Bool-cases w.has_peer) [
        | inl t ↦
            let uri = w.g_uri_unescape_string path in
            rw t (described-Behaves w client uri (w.r_open uri) refl (h.media uri) v)
        | inr t ↦ rw t (answer-Behaves client describe not_found v (inl refl))
      ]

dispatch-Behaves :
    (w : World) (client : RtspClient) (req : Request) (method : Method)
    → IsValidOption client.session
    → IsServable w req
    → Behaves client method (dispatch w client req method)
unfolding dispatch rtsp_options
dispatch-Behaves w client req describe v h = rtsp_describe-Behaves w client req v h
dispatch-Behaves w client req setup v h = rtsp_setup-Behaves w client req v h.path
dispatch-Behaves w client req teardown v h =
    rtsp_teardown-Behaves client req v (can_unescape-HasPath w req.uri h.path)
dispatch-Behaves w client req options v h = answer-Behaves client options rtsp_ok v refl
dispatch-Behaves w client req play v h =
    rtsp_play-Behaves w client req v (can_unescape-HasPath w req.uri h.path)
dispatch-Behaves w client req pause v h =
    rtsp_pause-Behaves w client req v (can_unescape-HasPath w req.uri h.path)

accept_request-Behaves :
    (w : World) (client : RtspClient) (req : Request)
    → IsValidOption client.session
    → IsServable w req
    → Behaves client req.method (accept_request w client req)
unfolding accept_request
accept_request-Behaves w client req v h =
    elim (Bool-cases (not (rtsp_check_session client req.session))) [
      | inl e ↦ rw e (answer-Behaves client req.method session_not_found v (inl refl))
      | inr e ↦ elim (Bool-cases (not (rtsp_check_required_options req))) [
        | inl k ↦ rw (e, k) (answer-Behaves client req.method option_not_supported v (inl refl))
        | inr k ↦ rw (e, k) (dispatch-Behaves w client req req.method v h)
      ]
    ]

-- The number of a CSeq header, if it is one: below `G_MAXUINT64`, and the whole header.
abbrev pub cseq_of : World → Option Text → Option ℕ
cseq_of w none = none
cseq_of w (some header) =
    let (value, used) = w.strtoull header in
    if (value == 2 ^ 64 - 1) || ltb used (length header) then none else some value

-- What the server does of a request: it drops one whose number is not a new one; it answers one
-- without a number with an error, which changes nothing; the others take a step, and their number
-- is kept.
pub data IsServing (client : RtspClient) (method : Method)
    : Option ℕ → RtspClient → List Effect → Type 0 where
  not_numbered : IsServing client method none client (respond bad_request ∷ [])
  dropped : (n : ℕ) → n ≤ client.last_cseq → IsServing client method (some n) client []
  served :
      (n : ℕ) (client' : RtspClient) (effects : List Effect) (code : ResponseCode)
      → client.last_cseq < n
      → client'.last_cseq ≡ n
      → responses effects ≡ code ∷ []
      → Allowed (state_of client.session) method code (state_of client'.session)
      → IsServing client method (some n) client' effects

pub record Serves (client : RtspClient) (method : Method) (cseq : Option ℕ) (m : Handled)
    : Type 0 where
  pub client' : RtspClient
  pub effects : List Effect
  pub runs : m ≡ ok (client', effects)
  pub valid : IsValidOption client'.session
  pub serving : IsServing client method cseq client' effects

not_numbered-Serves :
    (client : RtspClient) (method : Method)
    → IsValidOption client.session
    → Serves client method none (answer client bad_request)
not_numbered-Serves client method v = record {
  client' = client;
  effects = respond bad_request ∷ [];
  runs = refl;
  valid = v;
  serving = not_numbered;
}

numbered-Serves :
    (w : World) (client : RtspClient) (req : Request) (n : ℕ)
    → IsValidOption client.session
    → IsServable w req
    → Serves client req.method (some n) (
        if leb n client.last_cseq
        then ok (client, [])
        else accept_request w (record client { last_cseq = n }) req)
numbered-Serves w client req n v h = elim (Bool-cases (leb n client.last_cseq)) [
  | inl e ↦ rw e (record {
    client' = client;
    effects = [];
    runs = refl;
    valid = v;
    serving = dropped n (leb→le n client.last_cseq e);
  })
  | inr e ↦
      let b = accept_request-Behaves w (record client { last_cseq = n }) req v h in
      rw e (record {
        client' = b.client';
        effects = b.effects;
        runs = b.runs;
        valid = b.valid;
        serving =
            served n b.client' b.effects b.code (leb→gt n client.last_cseq e) b.cseq b.answered
              b.step;
      })
]

with_cseq-Serves :
    (w : World) (client : RtspClient) (req : Request) (header : Option Text)
    → IsValidOption client.session
    → IsServable w req
    → Serves client req.method (cseq_of w header) (with_cseq w client req header)
unfolding with_cseq
with_cseq-Serves w client req none v h = not_numbered-Serves client req.method v
with_cseq-Serves w client req (some header) v h =
    elim (Bool-cases ((w.strtoull header).0 == 2 ^ 64 - 1)) [
      | inl e ↦ rw e (not_numbered-Serves client req.method v)
      | inr e ↦ elim (Bool-cases (ltb (w.strtoull header).1 (length header))) [
        | inl k ↦ rw (e, k) (not_numbered-Serves client req.method v)
        | inr k ↦ rw (e, k) (numbered-Serves w client req (w.strtoull header).0 v h)
      ]
    ]

-- A request whose URI, if it has one, has a path that can be unescaped, and for which `r_open` gives
-- only resources whose tracks have a known media type, always returns, whatever its method and its
-- headers are: it leaves a valid client valid, and it is dropped, exactly if its number is not above
-- the last one; or answered with an error and nothing else, because it has no number; or it is
-- answered once, its number is kept, and the session's state takes a step that RFC 2326, appendix
-- A.2, has for the method and the response, or one that A.2 does not have: a PLAY in the playing
-- state that is answered with an error may leave the session in the ready state.
pub rtsp_handle_request-Serves :
    (w : World) (client : RtspClient) (req : Request)
    → IsValidOption client.session
    → IsServable w req
    → Serves client req.method (cseq_of w req.cseq) (rtsp_handle_request w client req)
unfolding rtsp_handle_request
rtsp_handle_request-Serves w client req v h = with_cseq-Serves w client req req.cseq v h
