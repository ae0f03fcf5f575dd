-- ===== src/Rtsp/Playing.antt =====
-- PLAY and PAUSE of src/network/rtsp_method_play.c and src/network/rtsp_method_pause.c return on
-- every session that is valid.
use mathlib.Core.Path.{subst}
use feng.Base.{
  ℕ, ◌≡◌, refl, sym, ◌⊎◌, inl, inr, true, false, Option, none, some, List, [], ◌∷◌, ◌++◌, map,
  Outcome, ok, eq→==, Bool-cases, All,
}
use feng.Rtsp.{
  server_ready, server_playing, ResponseCode, rtsp_ok, invalid_range, Range, Opened, Stream,
  RtspSession, RtspClient, World, Effect, state_eq,
}
use feng.Rtsp.Play.{
  rtp_session_resume, resume_effects, rtp_session_pause, pause_effects, pause_at, fails_to_seek,
  seek_effects, play_range, complete, add_range, is_ok,
}
use feng.Rtsp.Valid.{
  responses, IsSome, IsFilled, IsServed, IsValid, silent-append, state_eq→≢, All-append-IsServed,
  All-idle-IsServed,
}

paused_streams :
    (ranges : List (ℕ × Range)) (streams : List Stream)
    → All (IsServed server_ready ranges) (map rtp_session_pause streams)
unfolding rtp_session_pause
paused_streams ranges [] = tt
paused_streams ranges (s ∷ streams) = (λ e. cc, paused_streams ranges streams)

resumed_streams :
    (w : World) (a : ℕ) (r : Range) (rest : List (ℕ × Range)) (streams : List Stream)
    → All (IsServed server_playing ((a, r) ∷ rest)) (map (rtp_session_resume w a) streams)
unfolding rtp_session_resume
resumed_streams w a r rest [] = tt
resumed_streams w a r rest (s ∷ streams) =
    (λ e. (refl, (r, rw (eq→== a a refl))), resumed_streams w a r rest streams)

silent_pause : (streams : List Stream) → responses (pause_effects streams) ≡ []
silent_pause [] = refl
silent_pause (s ∷ streams) = silent_pause streams

silent_resume : (streams : List Stream) → responses (resume_effects streams) ≡ []
silent_resume [] = refl
silent_resume (s ∷ streams) = silent_resume streams

silent_seek : (resource : Opened) (r : Range) → responses (seek_effects resource r) ≡ []
silent_seek resource r = elim (Bool-cases resource.seekable) [ inl e ↦ rw e | inr e ↦ rw e ]

-- A session that was paused: it is valid and ready, and has its ranges.
pub record Paused (w : World) (s : RtspSession) (ranges : List (ℕ × Range)) : Type 0 where
  pub session : RtspSession
  pub effects : List Effect
  pub runs : pause_at w s ranges ≡ ok (session, effects)
  pub valid : IsValid session
  pub state : session.cur_state ≡ server_ready
  pub silent : responses effects ≡ []

pub pause_at-Paused :
    (w : World) (s : RtspSession) (ranges : List (ℕ × Range))
    → IsValid s
    → IsSome s.resource
    → IsFilled ranges
    → Paused w s ranges
unfolding pause_at
pause_at-Paused w s [] v h f = absurd f
pause_at-Paused w s ((a, r) ∷ rest) v h f = record {
  session = _;
  effects = pause_effects s.rtp_sessions;
  runs = refl;
  valid = record {
    named = v.named;
    resource = λ e. h;
    ranges = λ e. cc;
    streams = paused_streams _ s.rtp_sessions;
    known = λ e. cc;
  };
  state = refl;
  silent = silent_pause s.rtp_sessions;
}

-- A session whose `do_play` was called: it plays, or it is as it was.
pub record Started (w : World) (s : RtspSession)
    (m : Outcome (RtspSession × List Effect × ResponseCode)) : Type 0 where
  pub session : RtspSession
  pub effects : List Effect
  pub code : ResponseCode
  pub runs : m ≡ ok (session, effects, code)
  pub valid : IsValid session
  pub filled : IsFilled session.play_requests
  pub silent : responses effects ≡ []
  pub outcome :
      ((is_ok code ≡ true) × (code ≡ rtsp_ok) × (session.cur_state ≡ server_playing))
      ⊎ ((is_ok code ≡ false) × (session.cur_state ≡ s.cur_state))

pub play_range-Started :
    (w : World) (s : RtspSession) (resource : Option Opened) (ranges : List (ℕ × Range))
    → s.resource ≡ resource
    → s.play_requests ≡ ranges
    → IsValid s
    → IsSome resource
    → IsFilled ranges
    → Started w s (play_range w s resource ranges)
unfolding play_range
play_range-Started w s none ranges e k v h f = absurd h
play_range-Started w s (some resource) [] e k v h f = absurd f
play_range-Started w s (some resource) ((a, r) ∷ rest) e k v h f =
    elim (Bool-cases (fails_to_seek w resource r)) [
      | inl t ↦ record {
        session = s;
        effects = seek_effects resource r;
        code = invalid_range;
        runs = rw t;
        valid = v;
        filled = subst IsFilled (sym k) f;
        silent = silent_seek resource r;
        outcome = inr (refl, refl);
      }
      | inr t ↦ record {
        session = record s {
          cur_state = server_playing;
          started = true;
          rtp_sessions = map (rtp_session_resume w a) s.rtp_sessions;
        };
        effects = seek_effects resource r ++ resume_effects s.rtp_sessions;
        code = rtsp_ok;
        runs = rw t;
        valid = record {
          named = v.named;
          resource = λ n. subst IsSome (sym e) tt;
          ranges = λ p. subst IsFilled (sym k) tt;
          streams =
              subst
                (λ (q : List (ℕ × Range)).
                  All (IsServed server_playing q) (map (rtp_session_resume w a) s.rtp_sessions))
                (sym k) (resumed_streams w a r rest s.rtp_sessions);
          known = λ p. cc;
        };
        filled = subst IsFilled (sym k) tt;
        silent =
            silent-append (seek_effects resource r) (resume_effects s.rtp_sessions)
              (silent_seek resource r) (silent_resume s.rtp_sessions);
        outcome = inl (refl, refl, refl);
      }
    ]

-- What `parse_range_header` leaves: a valid session in the state that it had, with a range if it
-- succeeds.
pub record Ranged (client : RtspClient) (s : RtspSession)
    (m : Outcome (RtspClient × RtspSession × ResponseCode)) : Type 0 where
  pub client' : RtspClient
  pub session : RtspSession
  pub code : ResponseCode
  pub runs : m ≡ ok (client', session, code)
  pub valid : IsValid session
  pub state : session.cur_state ≡ s.cur_state
  pub resource : IsSome session.resource
  pub owned : client'.session ≡ some session
  pub cseq : client'.last_cseq ≡ client.last_cseq
  pub filled : is_ok code ≡ true → IsFilled session.play_requests

IsFilled-append : (ranges : List (ℕ × Range)) (r : ℕ × Range) → IsFilled (ranges ++ r ∷ [])
IsFilled-append [] r = tt
IsFilled-append (q ∷ ranges) r = tt

pub added-IsValid :
    (w : World) (client : RtspClient) (s : RtspSession) (resource : Opened) (r : Range)
    → IsValid s
    → IsValid (add_range w client s resource r).1
      × ((add_range w client s resource r).1.cur_state ≡ s.cur_state)
      × ((add_range w client s resource r).1.resource ≡ s.resource)
      × IsFilled (add_range w client s resource r).1.play_requests
unfolding add_range
added-IsValid w client s resource r v = elim (Bool-cases (state_eq s.cur_state server_playing)) [
  | inl t ↦ rw t (
    record {
      named = v.named;
      resource = v.resource;
      ranges = λ p. IsFilled-append s.play_requests (client.next_range, complete w resource r);
      streams =
          All-append-IsServed s.cur_state s.play_requests
            ((client.next_range, complete w resource r) ∷ []) s.rtp_sessions v.streams;
      known = v.known;
    },
    refl,
    refl,
    IsFilled-append s.play_requests (client.next_range, complete w resource r),
  )
  | inr t ↦ rw t (
    record {
      named = v.named;
      resource = v.resource;
      ranges = λ p. tt;
      streams =
          All-idle-IsServed s.cur_state s.play_requests
            ((client.next_range, complete w resource r) ∷ []) s.rtp_sessions
            (state_eq→≢ s.cur_state server_playing t) v.streams s.cur_state;
      known = v.known;
    },
    refl,
    refl,
    tt,
  )
]
