-- ===== src/Live/Tests.antt =====
-- Live resources at concrete inputs.
use feng.Base.{
  ℕ, ◌≡◌, ◌≢◌, ◌+◌, ◌-◌, ◌++◌, refl, Option, none, some, List, [], ◌∷◌, ok, crash, if◌then◌else◌,
  ltb, ◌==◌, Bool-cases, inl, inr, arith,
}
use feng.Base.Text.{Text, text_eq}
use feng.Base.Int.{pos, negsuc}
use feng.Unreserved.{unreserved_char, all_unreserved, feng_str_is_unreserved}
use feng.Track.{Node, Track, Double, track_new, bq_producer_reset_queue_internal}
use feng.Live.{KeyGroup, LiveTrack}
use feng.Live.Groups.{mq_prefix, audio_word, sd2_open}
use feng.Live.Opens.{valid_groups, some_unreserved, OfGroups, sd2_open-OfGroups, sd2_open-crash}
use feng.Live.Virtual.{Table, lookup_virtual}
use feng.Live.Holders.{Use, opens, closes, run_uses, Loads}
use feng.Live.Shared.{run_uses-shared}
use feng.Live.Flux.{FluxMessage, Floats, flux_read_messages, fresh_messages, CarriesAll}
use feng.Live.Queued.{flux_read_messages_lem}

abbrev group : Text → Option Text → Option Text → KeyGroup
group name mrl media = record {
  group_name = name;
  mrl = mrl;
  encoding = some (77 ∷ 80 ∷ 65 ∷ []);
  declared_type = some (negsuc 0);
  declared_media = media;
  channels = pos 2;
  declared_rate = none;
  license = none;
  rdf_page = none;
  title = none;
  creator = none;
  fmtp = none;
}

-- Audio with a dynamic payload type, a name with a slash, and no address.
abbrev groups : List KeyGroup
groups =
    group (97 ∷ []) (some (mq_prefix ++ 120 ∷ [])) (some audio_word)
    ∷ group (47 ∷ []) none none
    ∷ group (98 ∷ []) none none
    ∷ []

abbrev bad_groups : List KeyGroup
bad_groups = group (47 ∷ []) none none ∷ group (98 ∷ []) none none ∷ []

sd2_open-crash_example :
    sd2_open (some bad_groups) ≡ (if some_unreserved bad_groups then crash else ok none)
unfolding feng_str_is_unreserved all_unreserved unreserved_char
sd2_open-crash_example =
    sd2_open-crash bad_groups 96 (omega arith) (omega arith) (refl, (refl, tt)) refl

opening_groups :
    (ts : List LiveTrack) × ((sd2_open (some groups) ≡ ok (some ts))
      × OfGroups [] (valid_groups groups) ts)
unfolding feng_str_is_unreserved all_unreserved unreserved_char
opening_groups =
    sd2_open-OfGroups groups 96 (omega arith) (omega arith) (refl, (refl, (refl, tt))) (λ e. cc e)

-- The name of the one file.
abbrev live_name : Text
live_name = 97 ∷ []

abbrev load : Text → Option (List KeyGroup)
load url = if text_eq url live_name then some groups else none

abbrev no_film : Option Text → Option ℕ
no_film url = none

loads : Loads load
unfolding sd2_open
loads url = elim (Bool-cases (text_eq url live_name)) [
  | inl e ↦ (some opening_groups.0, (rw e opening_groups.1.0))
  | inr e ↦ (none, rw e refl)
]

-- The file is gone.
abbrev nothing : Text → Option (List KeyGroup)
nothing url = none

nothing_loads : Loads nothing
unfolding sd2_open
nothing_loads url = (none, refl)

abbrev uses : List Use
uses =
    opens nothing live_name ∷ opens load (98 ∷ []) ∷ closes live_name ∷ opens nothing live_name ∷ []

run_uses-shared_example :
    (table' : Table) × ((run_uses no_film (opens load live_name ∷ uses) [] ≡ ok table')
      × (lookup_virtual live_name table'
          ≡ some (record { holders = 1; live_tracks = opening_groups.0 })))
unfolding lookup_virtual
run_uses-shared_example =
    run_uses-shared load no_film live_name opening_groups.0 [] uses
      (nothing_loads, (loads, (tt, (nothing_loads, tt)))) refl opening_groups.1.0 (omega arith)
      (omega arith)

-- A message, and one of another version.
abbrev message : FluxMessage
message = record {
  msg_len = 50;
  proto_version = 4;
  start_time = 0;
  dts = 9;
  start_dts = 8;
  duration = 1;
  insertion_time = 0;
  marker = 128;
  sequence = 7;
  timestamp = 900;
  behind = 1 ∷ 2 ∷ 3 ∷ [];
}

abbrev events : List (Double × Option FluxMessage)
events = (0, some message) ∷ (0, none) ∷ (1, some (record message { proto_version = 3 })) ∷ []

abbrev floats : Floats
floats = record {
  of_number = λ n. n;
  plus = λ a b. a + b;
  minus = λ a b. a - b;
  over = λ a b. a;
  times_three = λ a. a + a + a;
  is_zero = λ a. a == 0;
  is_late = λ a. ltb 5 a;
}

abbrev listened : Track
listened = record track_new { consumers = 1 }

flux_read_messages_example :
    (tr' : Track) × (nodes : List Node) × ((flux_read_messages floats events listened ≡ ok tr')
      × ((tr'.queue ≡ listened.queue ++ nodes)
          × ((listened.consumers ≡ 0 → nodes ≡ [])
              × (listened.consumers ≢ 0 → CarriesAll (fresh_messages floats events) nodes))))
unfolding track_new bq_producer_reset_queue_internal
flux_read_messages_example =
    flux_read_messages_lem floats events listened refl (omega arith, (omega arith, tt))
