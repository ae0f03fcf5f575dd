-- ===== src/Rtsp/LiveTests.antt =====
-- DESCRIBE of a live resource that has no media type.
use feng.Base.{
  ◌≡◌, refl, false, Option, none, some, List, [], ◌∷◌, Outcome, ok, crash, if◌then◌else◌, arith,
}
use feng.Base.Int.{pos}
use feng.Unreserved.{unreserved_char, all_unreserved, feng_str_is_unreserved}
use feng.Live.{KeyGroup, LiveTrack}
use feng.Live.Groups.{mq_prefix, sd2_open}
use feng.Live.Opens.{valid_groups}
use feng.Live.Describe.{opened_live, some_lack_media, rtsp_describe-live}
use feng.Rtsp.{
  rtsp_ok, describe, Opened, RtspClient, Request, World, respond, open_resource, close_resource,
  check_forbidden_path,
}
use feng.Rtsp.Requests.{rtsp_describe}
use feng.Rtsp.Tests.{world, path}

-- A group with a dynamic payload type and no media type.
abbrev group : KeyGroup
group = record {
  group_name = 97 ∷ [];
  mrl = some mq_prefix;
  encoding = some (97 ∷ []);
  declared_type = none;
  declared_media = none;
  channels = pos 0;
  declared_rate = none;
  license = none;
  rdf_page = none;
  title = none;
  creator = none;
  fmtp = none;
}

abbrev opened_file : Outcome (Option (List LiveTrack)) → Option Opened
opened_file (ok (some ts)) = some (opened_live 0 ts)
opened_file _ = none

abbrev live_world : World
live_world = record world { r_open = λ url. opened_file (sd2_open (some (group ∷ []))) }

abbrev nobody : RtspClient
nobody = record { session = none; last_cseq = 0; timer = false; next_range = 0 }

abbrev request : Request
request = record {
  method = describe;
  object = path;
  uri = some (some path);
  cseq = none;
  session = none;
  require = none;
  proxy_require = none;
  range = none;
  transport = none;
  user_agent = none;
}

rtsp_describe-live_example : rtsp_describe live_world nobody request ≡ (
    if some_lack_media (valid_groups (group ∷ []))
    then crash
    else ok (nobody, open_resource (some path) ∷ close_resource ∷ respond rtsp_ok ∷ []))
unfolding feng_str_is_unreserved all_unreserved unreserved_char check_forbidden_path
rtsp_describe-live_example =
    rtsp_describe-live (group ∷ []) 96 live_world nobody request path 0 (omega arith) (omega arith)
      (refl, tt) (λ e. cc e) refl refl refl (λ ts e. rw e refl)
