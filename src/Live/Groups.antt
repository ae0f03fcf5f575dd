-- ===== src/Live/Groups.antt =====
-- The loop of `sd2_open` over the groups of the key file, and what follows it
-- (src/media/resource_live.c).
use feng.Base.{
  zero, suc, Bool, true, false, not, ◌&&◌, ◌||◌, Option, none, some, List, [], ◌∷◌, ◌++◌, Outcome,
  ok, crash, ◌>>=◌, if◌then◌else◌, drop,
}
use feng.Base.Text.{Text, text_eq, starts_with}
use feng.Base.Int.{ℤ, pos, negsuc, add_one, leb_int, int32_max}
use feng.Unreserved.{feng_str_is_unreserved}
use feng.Live.{
  KeyGroup, MediaType, mp_undef, mp_audio, mp_video, SdpLine, license_line, rdf_line, title_line,
  author_line, rtpmap_line, fmtp_line, LiveTrack, live_track_new, set_encoding_defaults,
}

-- What a round of the loop comes to: a group whose name makes no track; a track that `track_free`
-- frees, with its name; or a track for the resource.
pub data Verdict : Type 0 where
  invalid_name corrupted : Verdict
  accepted : LiveTrack → Verdict

abbrev pub mq_prefix : Text
mq_prefix = 109 ∷ 113 ∷ 58 ∷ 47 ∷ 47 ∷ []

abbrev pub audio_word : Text
audio_word = 97 ∷ 117 ∷ 100 ∷ 105 ∷ 111 ∷ []

abbrev pub video_word : Text
video_word = 118 ∷ 105 ∷ 100 ∷ 101 ∷ 111 ∷ []

-- The `payload_type` key, if the file has it.
unfoldable pub declare_type : Option ℤ → LiveTrack → LiveTrack
declare_type none t = t
declare_type (some p) t = record t { type_number = p }

abbrev pub is_minus_one : ℤ → Bool
is_minus_one (pos n) = false
is_minus_one (negsuc zero) = true
is_minus_one (negsuc (suc n)) = false

-- The track with its number, and `next_dynamic_payload`.
unfoldable pub number_track : ℤ → LiveTrack → LiveTrack × ℤ
number_track next t =
    if is_minus_one t.type_number
    then (record t { type_number = next }, add_one next)
    else if leb_int next t.type_number
    then (t, add_one t.type_number)
    else (t, next)

-- The media type that the number gives.
unfoldable pub static_media : LiveTrack → LiveTrack
static_media t =
    if leb_int (pos 0) t.type_number && leb_int t.type_number (pos 23)
    then record t { media_type = mp_audio }
    else if leb_int (pos 24) t.type_number && leb_int t.type_number (pos 95)
    then record t { media_type = mp_video }
    else t

abbrev pub is_undef : MediaType → Bool
is_undef mp_undef = true
is_undef _ = false

abbrev pub is_audio : MediaType → Bool
is_audio mp_audio = true
is_audio _ = false

-- The `media_type` key; nothing for a value that corrupts the track. A missing one is only logged
-- where the number gives no media type either.
unfoldable pub read_media : Option Text → LiveTrack → Option LiveTrack
read_media none t = if is_undef t.media_type then some t else none
read_media (some word) t =
    if text_eq word audio_word
    then some (record t { media_type = mp_audio })
    else if text_eq word video_word
    then some (record t { media_type = mp_video })
    else none

-- Not `n >= INT32_MAX || n <= 0`.
abbrev pub in_range : ℤ → Bool
in_range n = not (leb_int (pos int32_max) n || leb_int n (pos 0))

unfoldable pub read_channels : ℤ → LiveTrack → Option LiveTrack
read_channels channels t =
    if is_audio t.media_type
    then (if in_range channels then some (record t { audio_channels = channels }) else none)
    else some t

unfoldable pub read_rate : Option ℤ → LiveTrack → Option LiveTrack
read_rate none t = some t
read_rate (some n) t = if in_range n then some (record t { rate = n }) else none

abbrev pub line_of : (Text → SdpLine) → Option Text → List SdpLine
line_of line none = []
line_of line (some text) = line text ∷ []

-- `sdp_descr_append_rtpmap`.
unfoldable pub rtpmap_of : LiveTrack → SdpLine
rtpmap_of t =
    rtpmap_line t.type_number t.encoding_name t.rate
      (if is_audio t.media_type then some t.audio_channels else none)

-- The lines of the session description.
unfoldable pub add_lines : KeyGroup → LiveTrack → LiveTrack
unfolding rtpmap_of
add_lines g t = record t {
  sdp_description =
      t.sdp_description
      ++ (line_of license_line g.license
          ++ (line_of rdf_line g.rdf_page
              ++ (line_of title_line g.title
                  ++ (line_of author_line g.creator
                      ++ ((if leb_int (pos 96) t.type_number then rtpmap_of t ∷ [] else [])
                          ++ line_of (fmtp_line t.type_number) g.fmtp)))));
}

infixl 5 ◌then_read◌
abbrev pub ◌then_read◌ : Option LiveTrack → (LiveTrack → Option LiveTrack) → Option LiveTrack
none then_read f = none
(some t) then_read f = f t

abbrev pub finish : KeyGroup → Option LiveTrack → Verdict
finish g none = corrupted
finish g (some t) = accepted (add_lines g t)

-- From the media type on: the keys that may corrupt the track, then its lines.
unfoldable pub read_keys : KeyGroup → LiveTrack → Verdict
unfolding static_media read_media read_channels read_rate add_lines
read_keys g t = finish g (
    ((read_media g.declared_media (static_media t)) then_read (read_channels g.channels))
    then_read (read_rate g.declared_rate))

-- From the encoding name on.
unfoldable pub read_encoding : KeyGroup → ℤ → Text → Option Text → ℤ × Verdict
unfolding declare_type number_track read_keys
read_encoding g next path none = (next, corrupted)
read_encoding g next path (some encoding_name) =
    let t = set_encoding_defaults (live_track_new g.group_name path encoding_name) in
    let numbered = number_track next (declare_type g.declared_type t) in
    (numbered.1, read_keys g numbered.0)

-- From the address of the message queue on.
unfoldable pub read_mrl : KeyGroup → ℤ → Option Text → ℤ × Verdict
unfolding read_encoding
read_mrl g next none = (next, corrupted)
read_mrl g next (some mrl) =
    if starts_with mq_prefix mrl
    then read_encoding g next (drop 5 mrl) g.encoding
    else (next, corrupted)

-- A round of the loop: the new `next_dynamic_payload`, and what becomes of the group.
unfoldable pub read_group : KeyGroup → ℤ → ℤ × Verdict
unfolding read_mrl
read_group g next =
    if feng_str_is_unreserved (some g.group_name)
    then read_mrl g next g.mrl
    else (next, invalid_name)

-- All rounds.
unfoldable pub read_groups : List KeyGroup → ℤ → List Verdict
unfolding read_group
read_groups [] next = []
read_groups (g ∷ gs) next = let r = read_group g next in r.1 ∷ read_groups gs r.0

-- `tracks`.
unfoldable pub accepted_tracks : List Verdict → List LiveTrack
accepted_tracks [] = []
accepted_tracks (accepted t ∷ vs) = t ∷ accepted_tracks vs
accepted_tracks (_ ∷ vs) = accepted_tracks vs

-- `g_strfreev(trackgroups)`: a name that was freed with its track is freed again.
unfoldable pub free_names : List Verdict → Outcome (Unit {0})
free_names [] = ok tt
free_names (invalid_name ∷ vs) = free_names vs
free_names (corrupted ∷ vs) = crash
free_names (accepted _ ∷ vs) = free_names vs

-- What follows the loop.
unfoldable pub open_tracks : List Verdict → List LiveTrack → Outcome (Option (List LiveTrack))
unfolding free_names
open_tracks verdicts [] = free_names verdicts >>= λ _. ok none
open_tracks verdicts (t ∷ ts) = ok (some (t ∷ ts))

-- `sd2_open`: the tracks of the resource, if there is one. A file that cannot be loaded is `none`.
unfoldable pub sd2_open : Option (List KeyGroup) → Outcome (Option (List LiveTrack))
unfolding read_groups accepted_tracks open_tracks
sd2_open none = ok none
sd2_open (some groups) =
    let verdicts = read_groups groups (pos 96) in open_tracks verdicts (accepted_tracks verdicts)
