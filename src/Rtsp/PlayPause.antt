-- ===== src/Rtsp/PlayPause.antt =====
-- `RTSP_play` and `RTSP_pause` (src/network/rtsp_method_play.c, src/network/rtsp_method_pause.c).
use mathlib.Core.Path.{subst}
use feng.Base.{
  ℕ, ◌≡◌, ◌≢◌, refl, sym, ap, ◌∙◌, ◌⊎◌, inl, inr, true, false, some, List, [], ◌∷◌, ◌++◌, ok,
  Bool-cases,
}
use feng.Rtsp.{
  ServerState, server_init, server_ready, server_playing, server_recording, ResponseCode, rtsp_ok,
  play, Range, RtspSession, RtspClient, Request, World, Effect, respond, Handled, state_eq,
}
use feng.Rtsp.Play.{
  play_range, do_play, parse_range_header, is_ok, play_reply, finish_play, start_play, play_session,
}
use feng.Rtsp.Valid.{
  responses, IsSome, IsFilled, IsValid, IsValidOption, after_ok, Allowed, Behaves, answered_last,
  silent-append, responses-append, state_eq→≡,
}
use feng.Rtsp.Playing.{Started, play_range-Started}
use feng.Rtsp.PlayAnswers.{vlc_pause-Worked, range_of-Ranged}

-- An error of PLAY, in the state that it leaves.
pub allowed_error :
    (code : ResponseCode) (s s' : ServerState)
    → is_ok code ≡ false
    → (s' ≡ s) ⊎ ((s ≡ server_playing) × (s' ≡ server_ready))
    → Allowed s play code s'
allowed_error rtsp_ok s s' h d = cc
allowed_error _ s s' h (inl e) = inl e
allowed_error _ s s' h (inr (p, r)) = inr (refl, p, r)

allowed_play :
    (s : ServerState)
    → s ≢ server_init
    → s ≢ server_recording
    → after_ok s play ≡ some server_playing
allowed_play server_init n m = absurd (n refl)
allowed_play server_ready n m = refl
allowed_play server_playing n m = refl
allowed_play server_recording n m = absurd (m refl)

is_ok→≡ : (code : ResponseCode) → is_ok code ≡ true → code ≡ rtsp_ok
is_ok→≡ rtsp_ok h = refl
is_ok→≡ _ h = cc

-- What `start_play` comes to.
record Finished (client : RtspClient) (s : RtspSession) (m : Handled) : Type 0 where
  client' : RtspClient
  session : RtspSession
  effects : List Effect
  code : ResponseCode
  runs : m ≡ ok (client', effects)
  owned : client'.session ≡ some session
  valid : IsValid session
  answered : responses effects ≡ code ∷ []
  cseq : client'.last_cseq ≡ client.last_cseq
  outcome :
      ((code ≡ rtsp_ok) × (session.cur_state ≡ server_playing))
      ⊎ ((is_ok code ≡ false) × (session.cur_state ≡ s.cur_state))

play_reply-ok : (ranges : List (ℕ × Range)) → IsFilled ranges → play_reply ranges ≡ ok tt
play_reply-ok [] f = absurd f
play_reply-ok (r ∷ ranges) f = refl

finish_play-Finished :
    (client : RtspClient) (s₀ s : RtspSession) (effects : List Effect)
    → IsValid s
    → IsFilled s.play_requests
    → responses effects ≡ []
    → s.cur_state ≡ server_playing
    → Finished client s₀ (finish_play client s effects)
unfolding finish_play
finish_play-Finished client s₀ s effects v f q p = record {
  client' = record client { session = some s; timer = true };
  session = s;
  effects = effects ++ respond rtsp_ok ∷ [];
  code = rtsp_ok;
  runs = rw (play_reply-ok s.play_requests f);
  owned = refl;
  valid = v;
  answered = answered_last effects rtsp_ok q;
  cseq = refl;
  outcome = inl (refl, p);
}

start_play-Finished :
    (w : World) (client : RtspClient) (s : RtspSession) (effects : List Effect)
    → IsValid s
    → IsSome s.resource
    → IsFilled s.play_requests
    → responses effects ≡ []
    → Finished client s (start_play w client s effects)
unfolding start_play do_play
start_play-Finished w client s effects v h f q =
    elim (Bool-cases (state_eq s.cur_state server_playing)) [
      | inl t ↦
          rw t (
            finish_play-Finished client s s effects v f q (state_eq→≡ s.cur_state server_playing t))
      | inr t ↦ started t (play_range-Started w s s.resource s.play_requests refl refl v h f)
    ]
  where
    started :
        state_eq s.cur_state server_playing ≡ false
        → Started w s (play_range w s s.resource s.play_requests)
        → Finished client s (start_play w client s effects)
    started t d = elim d.outcome [
      | inl (y, e, p) ↦
          let g =
            finish_play-Finished client s d.session (effects ++ d.effects) d.valid d.filled
              (silent-append effects d.effects q d.silent) p in
          record {
            client' = g.client';
            session = g.session;
            effects = g.effects;
            code = g.code;
            runs = rw (t, d.runs, y) g.runs;
            owned = g.owned;
            valid = g.valid;
            answered = g.answered;
            cseq = g.cseq;
            outcome = g.outcome;
          }
      | inr (n, p) ↦ record {
        client' = record client { session = some d.session };
        session = d.session;
        effects = effects ++ (d.effects ++ respond d.code ∷ []);
        code = d.code;
        runs = rw (t, d.runs, n);
        owned = refl;
        valid = d.valid;
        answered =
            responses-append effects (d.effects ++ respond d.code ∷ [])
            ∙ rw q (answered_last d.effects d.code d.silent);
        cseq = refl;
        outcome = inr (n, p);
      }
    ]

-- The step of a PLAY whose outcome is known.
play_step :
    (s r' t : ServerState) (code : ResponseCode)
    → s ≢ server_init
    → s ≢ server_recording
    → (r' ≡ s) ⊎ ((s ≡ server_playing) × (r' ≡ server_ready))
    → ((code ≡ rtsp_ok) × (t ≡ server_playing)) ⊎ ((is_ok code ≡ false) × (t ≡ r'))
    → Allowed s play code t
play_step s r' t code n m e (inl (c, p)) =
    subst (λ (x : ResponseCode). Allowed s play x t) (sym c) (allowed_play s n m ∙ ap some (sym p))
play_step s r' t code n m (inl e) (inr (c, p)) = allowed_error code s t c (inl (p ∙ e))
play_step s r' t code n m (inr (e, q)) (inr (c, p)) = allowed_error code s t c (inr (e, p ∙ q))

moved :
    {s x r' : ServerState}
    → r' ≡ x
    → (x ≡ s) ⊎ ((s ≡ server_playing) × (x ≡ server_ready))
    → (r' ≡ s) ⊎ ((s ≡ server_playing) × (r' ≡ server_ready))
moved e (inl k) = inl (e ∙ k)
moved e (inr (p, k)) = inr (p, e ∙ k)

pub play_session-Behaves :
    (w : World) (client : RtspClient) (s : RtspSession) (req : Request)
    → client.session ≡ some s
    → IsValid s
    → s.cur_state ≢ server_init
    → Behaves client play (play_session w client (some s) req)
unfolding play_session parse_range_header
play_session-Behaves w client s req o v n =
    let a = vlc_pause-Worked w client s req o v (v.resource n) in
    let b = range_of-Ranged w a.client' a.session req.range a.owned a.valid a.resource in
    elim (Bool-cases (is_ok b.code)) [
      | inl t ↦
          let c =
            start_play-Finished w b.client' b.session a.effects b.valid b.resource (b.filled t)
              a.silent in
          record {
            client' = c.client';
            effects = c.effects;
            code = c.code;
            runs = rw (a.runs, b.runs, t) c.runs;
            valid = subst IsValidOption (sym c.owned) c.valid;
            answered = c.answered;
            step =
                rw (o, c.owned)
                  (play_step s.cur_state b.session.cur_state c.session.cur_state c.code n v.known
                    (moved b.state a.state) c.outcome);
            cseq = c.cseq ∙ b.cseq ∙ a.cseq;
          }
      | inr t ↦ record {
        client' = b.client';
        effects = a.effects ++ respond b.code ∷ [];
        code = b.code;
        runs = rw (a.runs, b.runs, t);
        valid = subst IsValidOption (sym b.owned) b.valid;
        answered = answered_last a.effects b.code a.silent;
        step =
            rw (o, b.owned)
              (play_step s.cur_state b.session.cur_state b.session.cur_state b.code n v.known
                (moved b.state a.state) (inr (t, refl)));
        cseq = b.cseq ∙ a.cseq;
      }
    ]
