-- ===== src/Rtsp/Sequences.antt =====
-- Sequences of requests (src/network/rtsp_state_machine.c).
use mathlib.Core.Path.{subst}
use feng.Base.{
  ℕ, ◌≤◌, ◌<◌, ◌≡◌, refl, sym, ap, ◌∙◌, Option, none, some, List, [], ◌∷◌, ◌++◌, ok, All,
  length-append, length, arith,
}
use feng.Rtsp.{
  ServerState, ResponseCode, bad_request, Method, RtspClient, Request, World, Effect, state_of,
}
use feng.Rtsp.Requests.{handle_all}
use feng.Rtsp.Valid.{responses, responses-append, IsValidOption, Allowed}
use feng.Rtsp.Served.{
  IsServable, cseq_of, IsServing, not_numbered, dropped, served, rtsp_handle_request-Serves,
}

-- A run: the state and the last number, the requests, the responses, and the state and the number
-- behind them. A request is dropped if its number is not above the last one; one without a number is
-- answered with an error; each of the others is answered once and takes an allowed step.
pub data StateRun
    : ServerState → ℕ → List (World × Request) → List ResponseCode → ServerState → ℕ → Type 0 where
  stop : {s : ServerState} {last : ℕ} → StateRun s last [] [] s last
  drop :
      {s t : ServerState} {last last' : ℕ} {w : World} {req : Request}
      {reqs : List (World × Request)} {codes : List ResponseCode} (n : ℕ)
      → cseq_of w req.cseq ≡ some n
      → n ≤ last
      → StateRun s last reqs codes t last'
      → StateRun s last ((w, req) ∷ reqs) codes t last'
  refuse :
      {s t : ServerState} {last last' : ℕ} {w : World} {req : Request}
      {reqs : List (World × Request)} {codes : List ResponseCode}
      → cseq_of w req.cseq ≡ none
      → StateRun s last reqs codes t last'
      → StateRun s last ((w, req) ∷ reqs) (bad_request ∷ codes) t last'
  step :
      {s t u : ServerState} {last last' : ℕ} {w : World} {req : Request} {code : ResponseCode}
      {reqs : List (World × Request)} {codes : List ResponseCode} (n : ℕ)
      → cseq_of w req.cseq ≡ some n
      → last < n
      → Allowed s req.method code t
      → StateRun t n reqs codes u last'
      → StateRun s last ((w, req) ∷ reqs) (code ∷ codes) u last'

-- All requests can be served.
abbrev pub AllServable : List (World × Request) → Type 0
AllServable reqs = All (λ r. IsServable r.0 r.1) reqs

pub record Refines (client : RtspClient) (reqs : List (World × Request)) : Type 0 where
  pub client' : RtspClient
  pub effects : List Effect
  pub runs : handle_all client reqs ≡ ok (client', effects)
  pub valid : IsValidOption client'.session
  pub higher : client.last_cseq ≤ client'.last_cseq
  pub states :
      StateRun
        (state_of client.session)
        client.last_cseq
        reqs
        (responses effects)
        (state_of client'.session)
        client'.last_cseq

serving_higher :
    {client client' : RtspClient} {method : Method} {cseq : Option ℕ} {effects : List Effect}
    → IsServing client method cseq client' effects
    → client.last_cseq ≤ client'.last_cseq
serving_higher not_numbered = omega arith
serving_higher (dropped n h) = omega arith
serving_higher (served n c es code h e q a) = omega arith

serving_run :
    {client client' : RtspClient} (w : World) (req : Request) (cseq : Option ℕ) {es : List Effect}
    (ds : List Effect) {reqs : List (World × Request)} {t : ServerState} {last : ℕ}
    → cseq_of w req.cseq ≡ cseq
    → IsServing client req.method cseq client' es
    → StateRun (state_of client'.session) client'.last_cseq reqs (responses ds) t last
    → StateRun
        (state_of client.session)
        client.last_cseq
        ((w, req) ∷ reqs)
        (responses (es ++ ds))
        t
        last
serving_run w req cseq ds e not_numbered r = refuse e r
serving_run w req cseq ds e (dropped n h) r = drop n e h r
serving_run w req cseq ds {reqs} {t} {last} e (served n c es code h k q a) r =
    rw (responses-append es ds, q)
      (step n e h a (subst (λ m. StateRun (state_of c.session) m reqs (responses ds) t last) k r))

-- Any sequence of requests that can be served (a URI, if there is one, has a path that can be
-- unescaped, and `r_open` gives only resources whose tracks have a known media type) returns, from
-- any valid client: the client is valid behind it, its sequence number did not fall, and the
-- responses, in their order, are a run from the state before to the state behind: a request is
-- dropped exactly if its number is not above the last one, and each of the others is answered once;
-- one without a number is refused, and one with a number takes a step that RFC 2326, appendix A.2,
-- has for its method and its response, or the one step more that A.2 does not have: a PLAY in the
-- playing state that is answered with an error may leave the session in the ready state.
pub handle_all-Refines :
    (client : RtspClient) (reqs : List (World × Request))
    → IsValidOption client.session
    → AllServable reqs
    → Refines client reqs
unfolding handle_all
handle_all-Refines client [] v h = record {
  client' = client;
  effects = [];
  runs = refl;
  valid = v;
  higher = omega arith;
  states = stop;
}
handle_all-Refines client ((w, req) ∷ reqs) v (h, hs) =
    let a = rtsp_handle_request-Serves w client req v h in
    let b = handle_all-Refines a.client' reqs a.valid hs in
    record {
      client' = b.client';
      effects = a.effects ++ b.effects;
      runs = rw (a.runs, b.runs);
      valid = b.valid;
      higher = omega (arith, serving_higher a.serving, b.higher);
      states = serving_run w req (cseq_of w req.cseq) b.effects refl a.serving b.states;
    }

-- Requests with numbers, each higher than the one before.
abbrev pub AllHigher : ℕ → List (World × Request) → Type 0
AllHigher last [] = Unit
AllHigher last ((w, req) ∷ reqs) =
    (n : ℕ) × (cseq_of w req.cseq ≡ some n) × (last < n) × AllHigher n reqs

some_inj : {m n : ℕ} → some m ≡ some n → m ≡ n
some_inj e = cc

served_once :
    {client client' : RtspClient} {method : Method} {cseq : Option ℕ} {effects : List Effect}
    (n : ℕ)
    → IsServing client method cseq client' effects
    → cseq ≡ some n
    → client.last_cseq < n
    → (client'.last_cseq ≡ n) × (length (responses effects) ≡ 1)
served_once n not_numbered e h = cc
served_once n (dropped m k) e h = absurd (omega (arith, k, h, some_inj e))
served_once n (served m c es code k l q a) e h = (l ∙ some_inj e, ap length q)

pub record AnswersAll (client : RtspClient) (reqs : List (World × Request)) : Type 0 where
  pub client' : RtspClient
  pub effects : List Effect
  pub runs : handle_all client reqs ≡ ok (client', effects)
  pub answered : length (responses effects) ≡ length reqs

-- On a valid client, of requests that can be served and whose numbers rise, from above the last one
-- that the client used, none is dropped: there are as many responses as requests.
pub handle_all-AnswersAll :
    (client : RtspClient) (reqs : List (World × Request))
    → IsValidOption client.session
    → AllServable reqs
    → AllHigher client.last_cseq reqs
    → AnswersAll client reqs
unfolding handle_all
handle_all-AnswersAll client [] v h k = record {
  client' = client;
  effects = [];
  runs = refl;
  answered = refl;
}
handle_all-AnswersAll client ((w, req) ∷ reqs) v (h, hs) (n, e, l, k) =
    let a = rtsp_handle_request-Serves w client req v h in
    let (p, q) = served_once n a.serving e l in
    let b =
      handle_all-AnswersAll a.client' reqs a.valid hs (subst (λ m. AllHigher m reqs) (sym p) k) in
    record {
      client' = b.client';
      effects = a.effects ++ b.effects;
      runs = rw (a.runs, b.runs);
      answered =
          ap length (responses-append a.effects b.effects)
          ∙ length-append (responses a.effects) (responses b.effects)
          ∙ omega (arith, q, b.answered);
    }
