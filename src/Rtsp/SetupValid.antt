-- ===== src/Rtsp/SetupValid.antt =====
-- SETUP and TEARDOWN of src/network/rtsp_method_setup.c and src/network/rtsp_method_teardown.c keep
-- a client valid.
use mathlib.Core.Path.{subst}
use feng.Base.{
  ℕ, ◌+◌, ◌≡◌, refl, sym, ◌⊎◌, inl, inr, false, not, ◌||◌, Option, none, some, List, [], ◌∷◌, ◌++◌,
  Outcome, ok, Bool-cases, drop, ltb, length,
}
use feng.Base.Text.{Text, starts_with, split_last_slash}
use feng.Unreserved.{feng_str_is_unreserved}
use feng.Rtsp.{
  ServerState, ResponseCode, not_found, aggregate_only, Opened, RtspSession, World, Effect, respond,
  open_resource,
}
use feng.Rtsp.Play.{is_ok}
use feng.Rtsp.Setup.{
  TrackSelection, selected, refused, refuse, found, find_track, opened, open_path, select_new,
  slash_at, select_known, select_requested_track, cut_last_slash, r_find_track,
}
use feng.Rtsp.Valid.{responses, BothOrNone, IsSome, IsValid, answered_last}

-- What the selection of a track comes to: a track, or a response; the state is kept.
pub record Picked (from : ServerState) (m : TrackSelection) : Type 0 where
  pub session : RtspSession
  pub effects : List Effect
  pub valid : IsValid session
  pub state : session.cur_state ≡ from
  pub outcome :
      ((resource : Opened) × (i : ℕ) × (m ≡ selected session resource i effects)
        × IsSome session.resource
        × (responses effects ≡ []))
      ⊎ ((code : ResponseCode) × (m ≡ refused session effects)
          × (is_ok code ≡ false)
          × (responses effects ≡ code ∷ []))

refuse-Picked :
    (s : RtspSession) (effects : List Effect) (code : ResponseCode)
    → IsValid s
    → responses effects ≡ []
    → is_ok code ≡ false
    → Picked s.cur_state (refuse s effects code)
refuse-Picked s effects code v q e = record {
  session = s;
  effects = effects ++ respond code ∷ [];
  valid = v;
  state = refl;
  outcome = inr (code, refl, e, answered_last effects code q);
}

found-Picked :
    (s : RtspSession) (resource : Opened) (effects : List Effect) (place : Option ℕ)
    → IsValid s
    → IsSome s.resource
    → responses effects ≡ []
    → Picked s.cur_state (found s resource effects place)
found-Picked s resource effects none v h q = refuse-Picked s effects not_found v q refl
found-Picked s resource effects (some i) v h q = record {
  session = s;
  effects = effects;
  valid = v;
  state = refl;
  outcome = inl (resource, i, refl, h, q);
}

find_track-Picked :
    (s : RtspSession) (resource : Opened) (name : Text) (effects : List Effect)
    → IsValid s
    → IsSome s.resource
    → responses effects ≡ []
    → Picked s.cur_state (find_track s resource name effects)
unfolding find_track
find_track-Picked s resource name effects v h q =
    elim (Bool-cases (not (feng_str_is_unreserved (some name)))) [
      | inl e ↦ rw e (refuse-Picked s effects aggregate_only v q refl)
      | inr e ↦ rw e (found-Picked s resource effects (r_find_track resource.names name) v h q)
    ]

opened-Picked :
    (s : RtspSession) (uri name : Text) (effects : List Effect) (resource : Option Opened)
    → IsValid s
    → responses effects ≡ []
    → Picked s.cur_state (opened s uri name effects resource)
opened-Picked s uri name effects none v q = refuse-Picked s effects not_found v q refl
opened-Picked s uri name effects (some resource) v q =
    find_track-Picked (record s { resource = some resource; resource_uri = some uri }) resource name
      effects
      (record {
        named = tt;
        resource = λ n. tt;
        ranges = v.ranges;
        streams = v.streams;
        known = v.known;
      })
      tt q

-- The selection returns a track or a response.
pub record Picks (state : ServerState) (m : Outcome TrackSelection) : Type 0 where
  pub result : TrackSelection
  pub runs : m ≡ ok result
  pub picked : Picked state result

select_new-Picks :
    (w : World) (s : RtspSession) (path unescaped : Text) (cut : Option (Text × Text))
    → w.g_uri_unescape_string path ≡ some unescaped
    → IsValid s
    → Picks s.cur_state (select_new w s path cut)
unfolding select_new open_path
select_new-Picks w s path unescaped none u v = record {
  result = refuse s [] aggregate_only;
  runs = refl;
  picked = refuse-Picked s [] aggregate_only v refl refl;
}
select_new-Picks w s path unescaped (some (uri, name)) u v = rw u (
    let cut = cut_last_slash unescaped (split_last_slash unescaped) in
    record {
      result = opened s uri name (open_resource (some cut) ∷ []) (w.r_open (some cut));
      runs = refl;
      picked =
          opened-Picked s uri name (open_resource (some cut) ∷ []) (w.r_open (some cut)) v refl;
    })

select_known-Picked :
    (s : RtspSession) (resource : Opened) (uri object : Text)
    → IsValid s
    → IsSome s.resource
    → Picked s.cur_state (select_known s resource uri object)
unfolding select_known
select_known-Picked s resource uri object v h =
    elim (Bool-cases (
      ltb (length object) (length uri + 2)
      || (not (starts_with uri object) || not (slash_at (drop (length uri) object))))) [
        | inl e ↦ rw e (refuse-Picked s [] aggregate_only v refl refl)
        | inr e ↦ rw e (find_track-Picked s resource (drop (length uri + 1) object) [] v h refl)
      ]

pub select_requested_track-Picks :
    (w : World) (s : RtspSession) (resource : Option Opened) (uri : Option Text)
    (object path unescaped : Text)
    → s.resource ≡ resource
    → BothOrNone resource uri
    → w.g_uri_unescape_string path ≡ some unescaped
    → IsValid s
    → Picks s.cur_state (select_requested_track w s resource uri object path)
unfolding select_requested_track
select_requested_track-Picks w s none none object path unescaped e b u v =
    select_new-Picks w s path unescaped (split_last_slash object) u v
select_requested_track-Picks w s (some resource) (some uri) object path unescaped e b u v = record {
  result = select_known s resource uri object;
  runs = refl;
  picked = select_known-Picked s resource uri object v (subst IsSome (sym e) tt);
}
select_requested_track-Picks w s none (some uri) object path unescaped e b u v = absurd b
select_requested_track-Picks w s (some resource) none object path unescaped e b u v = absurd b
