-- ===== src/Rtsp/PlayAnswers.antt =====
-- What PLAY and PAUSE answer: src/network/rtsp_method_play.c, src/network/rtsp_method_pause.c.
use mathlib.Core.Path.{subst}
use feng.Base.{
  ℕ, ◌≡◌, refl, sym, ◌∙◌, ◌⊎◌, inl, inr, false, not, ◌&&◌, Option, none, some, List, [], ◌∷◌,
  Outcome, ok, Bool-cases, All, arith,
}
use feng.Base.Text.{Text}
use feng.Rtsp.{
  server_ready, server_playing, ResponseCode, rtsp_ok, not_implemented,
  header_field_not_valid_for_resource, Range, Opened, RtspSession, RtspClient, Request, World,
  Effect, state_eq,
}
use feng.Rtsp.Play.{
  rtsp_do_pause, default_range, add_range, with_header, without_header, range_of, is_ok, is_vlc,
  vlc_pause,
}
use feng.Rtsp.Valid.{responses, IsSome, IsServed, IsValid, state_eq→≡, All-update-IsServed}
use feng.Rtsp.Playing.{pause_at-Paused, Ranged, added-IsValid}

kept :
    (client : RtspClient) (s : RtspSession) (code : ResponseCode)
    → is_ok code ≡ false
    → client.session ≡ some s
    → IsValid s
    → IsSome s.resource
    → Ranged client s (ok (client, s, code))
kept client s code e o v h = record {
  client' = client;
  session = s;
  code = code;
  runs = refl;
  valid = v;
  state = refl;
  resource = h;
  owned = o;
  cseq = refl;
  filled = λ t. cc (sym e ∙ t);
}

added :
    (w : World) (client : RtspClient) (s : RtspSession) (resource : Opened) (r : Range)
    → IsValid s
    → IsSome s.resource
    → Ranged client s
        (ok ((add_range w client s resource r).0, (add_range w client s resource r).1, rtsp_ok))
unfolding add_range
added w client s resource r v h =
    let a = added-IsValid w client s resource r v in
    record {
      client' = (add_range w client s resource r).0;
      session = (add_range w client s resource r).1;
      code = rtsp_ok;
      runs = refl;
      valid = a.0;
      state = a.1;
      resource = subst IsSome (sym a.2) h;
      owned = refl;
      cseq = refl;
      filled = λ t. a.3;
    }

without_header-Ranged :
    (w : World) (client : RtspClient) (s : RtspSession) (resource : Option Opened)
    (ranges : List (ℕ × Range))
    → s.resource ≡ resource
    → s.play_requests ≡ ranges
    → IsValid s
    → IsSome resource
    → Ranged client s (without_header w client s resource ranges)
unfolding without_header
without_header-Ranged w client s none ranges e k v h = absurd h
without_header-Ranged w client s (some resource) [] e k v h =
    added w client s resource (default_range w) v (subst IsSome (sym e) tt)
without_header-Ranged w client s (some resource) ((a, r) ∷ rest) e k v h =
    let session : RtspSession = record s {
      play_requests = (a, record r { playback_time = w.now }) ∷ rest;
    } in
    record {
      client' = record client { session = some session };
      session = session;
      code = rtsp_ok;
      runs = refl;
      valid = record {
        named = v.named;
        resource = v.resource;
        ranges = λ p. tt;
        streams =
            All-update-IsServed s.cur_state a r (record r { playback_time = w.now }) rest
              s.rtp_sessions
              (subst (λ (q : List (ℕ × Range)). All (IsServed s.cur_state q) s.rtp_sessions) k
                v.streams);
        known = v.known;
      };
      state = refl;
      resource = subst IsSome (sym e) tt;
      owned = refl;
      cseq = refl;
      filled = λ t. tt;
    }

with_header-Ranged :
    (w : World) (client : RtspClient) (s : RtspSession) (resource : Option Opened)
    (range : Option Range)
    → client.session ≡ some s
    → s.resource ≡ resource
    → IsValid s
    → IsSome resource
    → Ranged client s (with_header w client s resource range)
unfolding with_header
with_header-Ranged w client s resource none o e v h =
    kept client s not_implemented refl o v (subst IsSome (sym e) h)
with_header-Ranged w client s none (some r) o e v h = absurd h
with_header-Ranged w client s (some resource) (some r) o e v h =
    elim (Bool-cases (
      resource.seekable
      && (not (w.eq r.begin_time w.zero_time) && not (w.eq r.end_time w.unset_time)))) [
        | inl t ↦
            rw t
              (kept client s header_field_not_valid_for_resource refl o v (subst IsSome (sym e) tt))
        | inr t ↦ rw t (added w client s resource r v (subst IsSome (sym e) tt))
      ]

pub range_of-Ranged :
    (w : World) (client : RtspClient) (s : RtspSession) (header : Option Text)
    → client.session ≡ some s
    → IsValid s
    → IsSome s.resource
    → Ranged client s (range_of w client s header)
unfolding range_of
range_of-Ranged w client s none o v h =
    without_header-Ranged w client s s.resource s.play_requests refl refl v h
range_of-Ranged w client s (some header) o v h =
    with_header-Ranged w client s s.resource (w.ragel_parse_range_header header (default_range w)) o
      refl v h

-- The session behind the workaround for VLC: as it was, or paused.
pub record Worked (client : RtspClient) (s : RtspSession)
    (m : Outcome (RtspClient × RtspSession × List Effect)) : Type 0 where
  pub client' : RtspClient
  pub session : RtspSession
  pub effects : List Effect
  pub runs : m ≡ ok (client', session, effects)
  pub valid : IsValid session
  pub resource : IsSome session.resource
  pub owned : client'.session ≡ some session
  pub cseq : client'.last_cseq ≡ client.last_cseq
  pub silent : responses effects ≡ []
  pub state :
      (session.cur_state ≡ s.cur_state)
      ⊎ ((s.cur_state ≡ server_playing) × (session.cur_state ≡ server_ready))

pub vlc_pause-Worked :
    (w : World) (client : RtspClient) (s : RtspSession) (req : Request)
    → client.session ≡ some s
    → IsValid s
    → IsSome s.resource
    → Worked client s (vlc_pause w client s req)
unfolding vlc_pause rtsp_do_pause
vlc_pause-Worked w client s req o v h =
    elim (Bool-cases (state_eq s.cur_state server_playing && is_vlc req.user_agent)) [
      | inl t ↦
          let playing = state_eq→≡ s.cur_state server_playing (ground arith) in
          let p = pause_at-Paused w s s.play_requests v h (v.ranges playing) in
          record {
            client' = record client { session = some p.session; timer = false };
            session = p.session;
            effects = p.effects;
            runs = rw (t, p.runs);
            valid = p.valid;
            resource = p.valid.resource (λ e. cc (sym p.state ∙ e));
            owned = refl;
            cseq = refl;
            silent = p.silent;
            state = inr (playing, p.state);
          }
      | inr t ↦ record {
        client' = client;
        session = s;
        effects = [];
        runs = rw t;
        valid = v;
        resource = h;
        owned = o;
        cseq = refl;
        silent = refl;
        state = inl refl;
      }
    ]
