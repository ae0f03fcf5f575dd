-- ===== src/Live.antt =====
-- `sd2_open` (src/media/resource_live.c): a live resource, from the groups of a key file.
--
-- GLib's key file is an argument: what it answers about each group, in its order. An `int` is an
-- integer in its range; where the code adds one to it, it wraps. The SDP texts that a track collects
-- are the list of their lines, with the values that `printf` writes into them.
pub mod Groups
pub mod Keys
pub mod Rounds
pub mod Made
pub mod Opens
pub mod Virtual
pub mod Holders
pub mod Shared
pub mod Describe
pub mod Flux
pub mod Queued
mod Tests
use feng.Base.{
  ℕ, zero, suc, ◌+◌, ◌^◌, Bool, true, false, not, ◌&&◌, ◌||◌, Option, none, some, List, [], ◌∷◌,
  ◌++◌, Outcome, ok, crash, ◌>>=◌, ltb, leb, ◌==◌, if◌then◌else◌,
}
use feng.Base.Text.{Text, text_eq, starts_with}
use feng.Base.Int.{ℤ, pos, negsuc, add_one, leb_int, int32_max}
use feng.Unreserved.{feng_str_is_unreserved}

-- What the key file answers about a group. An integer is there if `g_key_file_has_key` says so;
-- `g_key_file_get_integer` gives 0 for a missing `audio_channels`.
pub record KeyGroup : Type 0 where
  pub group_name : Text
  pub mrl : Option Text
  pub encoding : Option Text
  pub declared_type : Option ℤ
  pub declared_media : Option Text
  pub channels : ℤ
  pub declared_rate : Option ℤ
  pub license : Option Text
  pub rdf_page : Option Text
  pub title : Option Text
  pub creator : Option Text
  pub fmtp : Option Text

-- `MediaType`: the values that a live track gets.
pub data MediaType : Type 0 where
  mp_undef mp_audio mp_video : MediaType

-- A line of `Track::sdp_description`; an `rtpmap` has the channels for audio only.
pub data SdpLine : Type 0 where
  control_line : Text → SdpLine
  license_line rdf_line title_line author_line : Text → SdpLine
  rtpmap_line : ℤ → Text → ℤ → Option ℤ → SdpLine
  fmtp_line : ℤ → Text → SdpLine

-- `struct Track`: what a live track is described with.
pub record LiveTrack : Type 0 where
  pub track_name : Text
  pub mq_path : Text
  pub encoding_name : Text
  pub type_number : ℤ  -- `payload_type`
  pub rate : ℤ  -- `clock_rate`
  pub media_type : MediaType
  pub audio_channels : ℤ
  pub sdp_description : List SdpLine

-- `track_new` and the two texts that are set before the table is read.
unfoldable pub live_track_new : Text → Text → Text → LiveTrack
live_track_new name path encoding_name = record {
  track_name = name;
  mq_path = path;
  encoding_name = encoding_name;
  type_number = negsuc 0;
  rate = negsuc 0;
  media_type = mp_undef;
  audio_channels = pos 0;
  sdp_description = control_line name ∷ [];
}

-- `encoding_defaults`: names, payload types and clock rates.
abbrev pub encoding_defaults : List (Text × ℕ × ℕ)
encoding_defaults =
    ((80 ∷ 67 ∷ 77 ∷ 85 ∷ []), 0, 8000)
    ∷ ((71 ∷ 55 ∷ 50 ∷ 54 ∷ 95 ∷ 51 ∷ 50 ∷ []), 2, 8000)
    ∷ ((71 ∷ 83 ∷ 77 ∷ []), 3, 8000)
    ∷ ((71 ∷ 55 ∷ 50 ∷ 51 ∷ []), 4, 8000)
    ∷ ((68 ∷ 86 ∷ 73 ∷ 52 ∷ []), 5, 8000)
    ∷ ((68 ∷ 86 ∷ 73 ∷ 52 ∷ []), 6, 16000)
    ∷ ((76 ∷ 80 ∷ 67 ∷ []), 7, 8000)
    ∷ ((80 ∷ 67 ∷ 77 ∷ 65 ∷ []), 8, 8000)
    ∷ ((71 ∷ 55 ∷ 50 ∷ 50 ∷ []), 9, 8000)
    ∷ ((76 ∷ 49 ∷ 54 ∷ []), 10, 44100)
    ∷ ((76 ∷ 49 ∷ 54 ∷ []), 11, 44100)
    ∷ ((81 ∷ 67 ∷ 69 ∷ 76 ∷ 80 ∷ []), 12, 8000)
    ∷ ((77 ∷ 80 ∷ 65 ∷ []), 14, 90000)
    ∷ ((71 ∷ 55 ∷ 50 ∷ 56 ∷ []), 15, 8000)
    ∷ ((68 ∷ 86 ∷ 73 ∷ 52 ∷ []), 16, 11025)
    ∷ ((68 ∷ 86 ∷ 73 ∷ 52 ∷ []), 17, 22050)
    ∷ ((71 ∷ 55 ∷ 50 ∷ 57 ∷ []), 18, 8000)
    ∷ ((67 ∷ 101 ∷ 108 ∷ 66 ∷ []), 25, 90000)
    ∷ ((74 ∷ 80 ∷ 69 ∷ 71 ∷ []), 26, 90000)
    ∷ ((110 ∷ 118 ∷ []), 28, 90000)
    ∷ ((72 ∷ 50 ∷ 54 ∷ 49 ∷ []), 31, 90000)
    ∷ ((77 ∷ 80 ∷ 86 ∷ []), 32, 90000)
    ∷ ((77 ∷ 80 ∷ 50 ∷ 84 ∷ []), 33, 90000)
    ∷ ((72 ∷ 50 ∷ 54 ∷ 51 ∷ []), 34, 90000)
    ∷ []

-- The loop of `set_encoding_defaults`: the last entry with the name stays.
unfoldable pub set_defaults : List (Text × ℕ × ℕ) → LiveTrack → LiveTrack
set_defaults [] t = t
set_defaults ((name, payload, clock) ∷ entries) t = set_defaults entries (
    if text_eq name t.encoding_name
    then record t { type_number = pos payload; rate = pos clock }
    else t)

unfoldable pub set_encoding_defaults : LiveTrack → LiveTrack
unfolding set_defaults
set_encoding_defaults t = set_defaults encoding_defaults t
