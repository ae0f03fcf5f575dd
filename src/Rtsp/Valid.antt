-- ===== src/Rtsp/Valid.antt =====
-- What holds of a client between two requests, and what a request is to do.
use feng.Base.{
  ℕ, ◌≡◌, ◌≢◌, refl, sym, ap, ◌∙◌, ◌⊎◌, inl, inr, true, false, Option, none, some, List, [], ◌∷◌,
  ◌++◌, ok, ◌==◌, Bool-cases, All,
}
use feng.Base.Text.{Text}
use feng.Rtsp.{
  ServerState, server_init, server_ready, server_playing, server_recording, ResponseCode, rtsp_ok,
  Method, describe, setup, teardown, options, play, pause, Range, Opened, Stream, RtspSession,
  RtspClient, Effect, respond, open_resource, close_resource, seek, free_stream, r_resume, r_fill,
  r_pause, send_bye, unloop, rtcp_received, Handled, answer, state_of, state_eq, deref_range,
}

-- The responses among the effects.
abbrev pub responses : List Effect → List ResponseCode
responses [] = []
responses (respond code ∷ es) = code ∷ responses es
responses (_ ∷ es) = responses es

-- A resource is known exactly if its URI is.
abbrev pub BothOrNone : Option Opened → Option Text → Type 0
BothOrNone none none = Unit
BothOrNone (some _) (some _) = Unit
BothOrNone _ _ = ⊥

abbrev pub IsSome : Option Opened → Type 0
IsSome none = ⊥
IsSome (some _) = Unit

abbrev pub IsFilled : List (ℕ × Range) → Type 0
IsFilled [] = ⊥
IsFilled (_ ∷ _) = Unit

-- A stream that writes belongs to a session that plays, and its range was not freed.
abbrev pub IsServed : ServerState → List (ℕ × Range) → Stream → Type 0
IsServed state ranges stream =
    stream.writing ≡ true
    → (state ≡ server_playing) × ((r : Range) × (deref_range stream.range ranges ≡ ok r))

pub record IsValid (s : RtspSession) : Type 0 where
  pub named : BothOrNone s.resource s.resource_uri
  pub resource : s.cur_state ≢ server_init → IsSome s.resource
  pub ranges : s.cur_state ≡ server_playing → IsFilled s.play_requests
  pub streams : All (IsServed s.cur_state s.play_requests) s.rtp_sessions
  pub known : s.cur_state ≢ server_recording

abbrev pub IsValidOption : Option RtspSession → Type 0
IsValidOption none = Unit
IsValidOption (some s) = IsValid s

-- The server's states of RFC 2326, appendix A.2: where a request that succeeds leads.
abbrev pub after_ok : ServerState → Method → Option ServerState
after_ok state describe = some state
after_ok state options = some state
after_ok state teardown = some server_init
after_ok server_init setup = some server_ready
after_ok state setup = some state
after_ok server_ready play = some server_playing
after_ok server_playing play = some server_playing
after_ok state play = none
after_ok server_playing pause = some server_ready
after_ok state pause = none

-- One request, its response, and the state behind it: a step of appendix A.2, in which an error
-- leaves the state as it was; or one that A.2 does not have, of a PLAY for which a session that plays
-- was paused, and which then failed and left it paused.
abbrev pub Allowed : ServerState → Method → ResponseCode → ServerState → Type 0
Allowed s method rtsp_ok s' = after_ok s method ≡ some s'
Allowed s method code s' = (s' ≡ s) ⊎ ((method ≡ play) × (s ≡ server_playing) × (s' ≡ server_ready))

-- A request returns, keeps the client valid, is answered once, and takes an allowed step.
pub record Behaves (client : RtspClient) (method : Method) (m : Handled) : Type 0 where
  pub client' : RtspClient
  pub effects : List Effect
  pub code : ResponseCode
  pub runs : m ≡ ok (client', effects)
  pub valid : IsValidOption client'.session
  pub answered : responses effects ≡ code ∷ []
  pub step : Allowed (state_of client.session) method code (state_of client'.session)
  pub cseq : client'.last_cseq ≡ client.last_cseq

pub answer-Behaves :
    (client : RtspClient) (method : Method) (code : ResponseCode)
    → IsValidOption client.session
    → Allowed (state_of client.session) method code (state_of client.session)
    → Behaves client method (answer client code)
answer-Behaves client method code v s = record {
  client' = client;
  effects = respond code ∷ [];
  code = code;
  runs = refl;
  valid = v;
  answered = refl;
  step = s;
  cseq = refl;
}

pub responses-append : (es ds : List Effect) → responses (es ++ ds) ≡ responses es ++ responses ds
responses-append [] ds = refl
responses-append (respond code ∷ es) ds = ap (λ cs. code ∷ cs) (responses-append es ds)
responses-append (open_resource p ∷ es) ds = responses-append es ds
responses-append (close_resource ∷ es) ds = responses-append es ds
responses-append (seek t ∷ es) ds = responses-append es ds
responses-append (free_stream s ∷ es) ds = responses-append es ds
responses-append (r_resume ∷ es) ds = responses-append es ds
responses-append (r_fill t ∷ es) ds = responses-append es ds
responses-append (r_pause ∷ es) ds = responses-append es ds
responses-append (send_bye ∷ es) ds = responses-append es ds
responses-append (unloop ∷ es) ds = responses-append es ds
responses-append (rtcp_received c l ∷ es) ds = responses-append es ds

-- Effects without a response, and then one.
pub answered_last :
    (es : List Effect) (code : ResponseCode)
    → responses es ≡ []
    → responses (es ++ respond code ∷ []) ≡ code ∷ []
answered_last es code h = responses-append es (respond code ∷ []) ∙ ap (λ cs. cs ++ code ∷ []) h

pub silent-append :
    (es ds : List Effect) → responses es ≡ [] → responses ds ≡ [] → responses (es ++ ds) ≡ []
silent-append es ds h k = responses-append es ds ∙ rw (h, k)

pub state_eq→≡ : (s t : ServerState) → state_eq s t ≡ true → s ≡ t
state_eq→≡ server_init server_init h = refl
state_eq→≡ server_ready server_ready h = refl
state_eq→≡ server_playing server_playing h = refl
state_eq→≡ server_recording server_recording h = refl
state_eq→≡ server_init server_ready h = cc
state_eq→≡ server_init server_playing h = cc
state_eq→≡ server_init server_recording h = cc
state_eq→≡ server_ready server_init h = cc
state_eq→≡ server_ready server_playing h = cc
state_eq→≡ server_ready server_recording h = cc
state_eq→≡ server_playing server_init h = cc
state_eq→≡ server_playing server_ready h = cc
state_eq→≡ server_playing server_recording h = cc
state_eq→≡ server_recording server_init h = cc
state_eq→≡ server_recording server_ready h = cc
state_eq→≡ server_recording server_playing h = cc

state_eq_self : (s : ServerState) → state_eq s s ≡ true
state_eq_self server_init = refl
state_eq_self server_ready = refl
state_eq_self server_playing = refl
state_eq_self server_recording = refl

pub state_eq→≢ : (s t : ServerState) → state_eq s t ≡ false → s ≢ t
state_eq→≢ s t h e = cc (sym h ∙ ap (λ x. state_eq s x) (sym e) ∙ state_eq_self s)

-- What a pointer finds stays there while ranges are queued behind.
deref_range-append :
    (p : Option ℕ) (ranges more : List (ℕ × Range)) (r : Range)
    → deref_range p ranges ≡ ok r
    → (s : Range) × (deref_range p (ranges ++ more) ≡ ok s)
deref_range-append none ranges more r h = cc
deref_range-append (some a) [] more r h = cc
deref_range-append (some a) ((b, q) ∷ ranges) more r h = elim (Bool-cases (b == a)) [
  | inl e ↦ (q, rw e)
  | inr e ↦
      let g : deref_range (some a) ranges ≡ ok r = rw e at h in
      let (s, k) = deref_range-append (some a) ranges more r g in (s, rw (e, k))
]

-- So it does while a range is written to.
deref_range-update :
    (p : Option ℕ) (a : ℕ) (q q' : Range) (ranges : List (ℕ × Range)) (r : Range)
    → deref_range p ((a, q) ∷ ranges) ≡ ok r
    → (s : Range) × (deref_range p ((a, q') ∷ ranges) ≡ ok s)
deref_range-update none a q q' ranges r h = cc
deref_range-update (some b) a q q' ranges r h = elim (Bool-cases (a == b)) [
  | inl e ↦ (q', rw e)
  | inr e ↦ (r, rw e (rw e at h))
]

pub All-append-IsServed :
    (state : ServerState) (ranges more : List (ℕ × Range)) (streams : List Stream)
    → All (IsServed state ranges) streams
    → All (IsServed state (ranges ++ more)) streams
All-append-IsServed state ranges more [] h = tt
All-append-IsServed state ranges more (s ∷ streams) (h, t) = (
  λ e. let g = h e in (g.0, deref_range-append s.range ranges more g.1.0 g.1.1),
  All-append-IsServed state ranges more streams t,
)

pub All-update-IsServed :
    (state : ServerState) (a : ℕ) (q q' : Range) (ranges : List (ℕ × Range)) (streams : List Stream)
    → All (IsServed state ((a, q) ∷ ranges)) streams
    → All (IsServed state ((a, q') ∷ ranges)) streams
All-update-IsServed state a q q' ranges [] h = tt
All-update-IsServed state a q q' ranges (s ∷ streams) (h, t) = (
  λ e. let g = h e in (g.0, deref_range-update s.range a q q' ranges g.1.0 g.1.1),
  All-update-IsServed state a q q' ranges streams t,
)

-- A session that does not play has no stream that writes.
pub All-idle-IsServed :
    (state : ServerState) (ranges ranges' : List (ℕ × Range)) (streams : List Stream)
    → state ≢ server_playing
    → All (IsServed state ranges) streams
    → (state' : ServerState) → All (IsServed state' ranges') streams
All-idle-IsServed state ranges ranges' [] n h state' = tt
All-idle-IsServed state ranges ranges' (s ∷ streams) n (h, t) state' =
    (λ e. absurd (n (h e).0), All-idle-IsServed state ranges ranges' streams n t state')
