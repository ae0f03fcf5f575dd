-- ===== src/Live/Keys.antt =====
-- The keys of a group that `sd2_open` (src/media/resource_live.c) asks for, and what they must be.
use feng.Base.{
  ◌≡◌, refl, sym, ap, ◌∙◌, inl, inr, Bool, true, false, not, ◌&&◌, ◌||◌, Option, none, some,
  if◌then◌else◌, leb, Bool-cases, arith,
}
use feng.Base.Text.{Text, text_eq}
use feng.Base.Int.{ℤ, pos, negsuc, leb_int}
use feng.Live.{KeyGroup, MediaType, mp_undef, mp_audio, mp_video, LiveTrack}
use feng.Live.Groups.{
  Verdict, corrupted, accepted, audio_word, video_word, static_media, is_undef, is_audio,
  read_media, in_range, read_channels, read_rate, read_keys, add_lines, ◌then_read◌,
}

-- The media type that a payload type stands for.
abbrev pub kind_of_type : ℤ → MediaType
kind_of_type (pos n) = if leb n 23 then mp_audio else if leb n 95 then mp_video else mp_undef
kind_of_type (negsuc n) = mp_undef

-- The media type of a group: the key says it, and may be missing only where the number has none.
abbrev pub media_of : ℤ → Option Text → Option MediaType
media_of n none = if is_undef (kind_of_type n) then some mp_undef else none
media_of n (some word) =
    if text_eq word audio_word
    then some mp_audio
    else if text_eq word video_word
    then some mp_video
    else none

abbrev pub rate_in_range : Option ℤ → Bool
rate_in_range none = true
rate_in_range (some n) = in_range n

abbrev pub with_media_valid : ℤ → Option ℤ → Option MediaType → Bool
with_media_valid channels rate none = false
with_media_valid channels rate (some m) =
    (not (is_audio m) || in_range channels) && rate_in_range rate

-- Whether the keys behind the number are in order.
abbrev pub keys_valid : KeyGroup → ℤ → Bool
keys_valid g n = with_media_valid g.channels g.declared_rate (media_of n g.declared_media)

unchanged : (t : LiveTrack) → t.media_type ≡ mp_undef → t ≡ record t { media_type = mp_undef }
unchanged t h = ap (λ m. record t { media_type = m }) h

static_at :
    (t : LiveTrack) (n : ℤ)
    → t.media_type ≡ mp_undef
    → (if leb_int (pos 0) n && leb_int n (pos 23)
        then record t { media_type = mp_audio }
        else if leb_int (pos 24) n && leb_int n (pos 95)
        then record t { media_type = mp_video }
        else t)
      ≡ record t { media_type = kind_of_type n }
static_at t (negsuc k) h = unchanged t h
static_at t (pos k) h =
    let zero_le : leb 0 k ≡ true = ground arith in
    elim (Bool-cases (leb k 23)) [
      | inl e ↦ rw (zero_le, e) refl
      | inr e ↦
          let low : leb 24 k ≡ true = ground arith in
          elim (Bool-cases (leb k 95)) [
            | inl f ↦ rw (zero_le, e, low, f) refl
            | inr f ↦ rw (zero_le, e, low, f) (unchanged t h)
          ]
    ]

static_media_lem :
    (t : LiveTrack)
    → t.media_type ≡ mp_undef
    → static_media t ≡ record t { media_type = kind_of_type t.type_number }
unfolding static_media
static_media_lem t h = static_at t t.type_number h

with_media : LiveTrack → Option MediaType → Option LiveTrack
with_media t none = none
with_media t (some m) = some (record t { media_type = m })

undef_of : (m : MediaType) → is_undef m ≡ true → m ≡ mp_undef
undef_of mp_undef h = refl
undef_of mp_audio h = cc
undef_of mp_video h = cc

read_media_lem :
    (word : Option Text) (t : LiveTrack)
    → t.media_type ≡ kind_of_type t.type_number
    → read_media word t ≡ with_media t (media_of t.type_number word)
unfolding read_media with_media
read_media_lem none t h = elim (Bool-cases (is_undef t.media_type)) [
  | inl e ↦ rw (e, sym h, e) (ap some (unchanged t (undef_of t.media_type e)))
  | inr e ↦ rw (e, sym h, e) refl
]
read_media_lem (some word) t h = elim (Bool-cases (text_eq word audio_word)) [
  | inl e ↦ rw e refl
  | inr e ↦ elim (Bool-cases (text_eq word video_word)) [
    | inl f ↦ rw (e, f) refl
    | inr f ↦ rw (e, f) refl
  ]
]

-- What an accepted track has of its group: the name, the number, the media type, and audio channels
-- in the range of positive numbers.
pub record Taken (g : KeyGroup) (t : LiveTrack) : Type 0 where
  pub name : t.track_name ≡ g.group_name
  pub media : some t.media_type ≡ media_of t.type_number g.declared_media
  pub audio : t.media_type ≡ mp_audio → in_range t.audio_channels ≡ true

-- The end of `read_keys`: what it comes to is in order or not.
record Read (n : ℤ) (title : Text) (m : MediaType) (r : Option LiveTrack) : Type 0 where
  t' : LiveTrack
  reads : r ≡ some t'
  number : t'.type_number ≡ n
  name : t'.track_name ≡ title
  media : t'.media_type ≡ m
  audio : t'.media_type ≡ mp_audio → in_range t'.audio_channels ≡ true

rate_lem :
    (r : Option ℤ) (t : LiveTrack)
    → (t.media_type ≡ mp_audio → in_range t.audio_channels ≡ true)
    → (rate_in_range r ≡ true → Read t.type_number t.track_name t.media_type (read_rate r t))
      × (rate_in_range r ≡ false → read_rate r t ≡ none)
unfolding read_rate
rate_lem none t a = (
  λ h. record { t' = t; reads = refl; number = refl; name = refl; media = refl; audio = a },
  λ h. cc,
)
rate_lem (some n) t a = (
  λ h. record {
    t' = record t { rate = n };
    reads = rw h refl;
    number = refl;
    name = refl;
    media = refl;
    audio = a;
  },
  λ h. rw h refl,
)

channels_lem :
    (c : ℤ) (r : Option ℤ) (t : LiveTrack) (m : MediaType)
    → (((not (is_audio m) || in_range c) && rate_in_range r) ≡ true
        → Read t.type_number t.track_name m
            ((read_channels c (record t { media_type = m })) then_read (read_rate r)))
      × (((not (is_audio m) || in_range c) && rate_in_range r) ≡ false
          → ((read_channels c (record t { media_type = m })) then_read (read_rate r)) ≡ none)
unfolding read_channels
channels_lem c r t mp_undef = rate_lem r (record t { media_type = mp_undef }) (λ e. cc)
channels_lem c r t mp_video = rate_lem r (record t { media_type = mp_video }) (λ e. cc)
channels_lem c r t mp_audio = elim (Bool-cases (in_range c)) [
  | inl e ↦ rw e (rate_lem r (record t { media_type = mp_audio; audio_channels = c }) (λ h. e))
  | inr e ↦ rw e (λ h. cc, λ h. refl)
]

rest_lem :
    (g : KeyGroup) (t : LiveTrack) (o : Option MediaType)
    → (with_media_valid g.channels g.declared_rate o ≡ true
        → (m : MediaType) × ((o ≡ some m)
            × Read t.type_number t.track_name m (
                ((with_media t o) then_read (read_channels g.channels))
                then_read (read_rate g.declared_rate))))
      × (with_media_valid g.channels g.declared_rate o ≡ false
          → (((with_media t o) then_read (read_channels g.channels))
              then_read (read_rate g.declared_rate))
            ≡ none)
unfolding with_media
rest_lem g t none = (λ h. cc, λ h. refl)
rest_lem g t (some m) =
    let r = channels_lem g.channels g.declared_rate t m in (λ h. (m, (refl, r.0 h)), r.1)

-- A track before its media type is read: its keys are in order, and it is accepted with its number;
-- or they are not, and it is corrupted.
pub record Accepts (g : KeyGroup) (n : ℤ) (v : Verdict) : Type 0 where
  pub t' : LiveTrack
  pub accepts : v ≡ accepted t'
  pub number : t'.type_number ≡ n
  pub taken : Taken g t'

pub read_keys_lem :
    (g : KeyGroup) (t : LiveTrack)
    → t.media_type ≡ mp_undef
    → t.track_name ≡ g.group_name
    → (keys_valid g t.type_number ≡ true → Accepts g t.type_number (read_keys g t))
      × (keys_valid g t.type_number ≡ false → read_keys g t ≡ corrupted)
unfolding read_keys add_lines
read_keys_lem g t h n =
    let t1 : LiveTrack = record t { media_type = kind_of_type t.type_number } in
    let s = static_media_lem t h in
    let r = read_media_lem g.declared_media t1 refl in
    let q = rest_lem g t1 (media_of t.type_number g.declared_media) in
    (
      λ v.
          let (m, (f, o)) = q.0 v in
          record {
            t' = add_lines g (o.t');
            accepts = rw (s, r, o.reads) refl;
            number = o.number;
            taken = record {
              name = o.name ∙ n;
              media = rw (o.number, o.media) (sym f);
              audio = o.audio;
            };
          },
      λ v. rw (s, r, q.1 v) refl,
    )
