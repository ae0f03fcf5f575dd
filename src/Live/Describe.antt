-- ===== src/Live/Describe.antt =====
-- DESCRIBE of a live resource: `sd2_open` (src/media/resource_live.c) and the assertion of
-- `sdp_track_descr` (src/network/rtsp_method_describe.c).
use feng.Base.{
  ℕ, ◌≡◌, ◌≢◌, ◌≤◌, ◌+◌, refl, sym, ap, ap₂, ◌∙◌, inl, inr, Bool, true, false, ◌||◌, Option, none,
  some, List, [], ◌∷◌, map, ok, crash, if◌then◌else◌, leb, length, Bool-cases, arith,
}
use feng.Base.Text.{Text, text_eq}
use feng.Base.Int.{ℤ, pos, negsuc, int32_max}
use feng.Track.{Double}
use feng.Live.{KeyGroup, MediaType, mp_undef, mp_audio, mp_video, LiveTrack}
use feng.Live.Groups.{is_undef, is_minus_one, sd2_open, audio_word, video_word}
use feng.Live.Keys.{kind_of_type, media_of}
use feng.Live.Rounds.{asked_type}
use feng.Live.Opens.{valid_groups, OfGroup, OfGroups, Asks, sd2_open-OfGroups}
use feng.Rtsp.{
  rtsp_ok, Opened, RtspClient, Request, World, respond, open_resource, close_resource,
  check_forbidden_path, rfc822_request_check_url,
}
use feng.Rtsp.Requests.{rtsp_describe}

abbrev pub any_undef : List LiveTrack → Bool
any_undef [] = false
any_undef (t ∷ ts) = is_undef t.media_type || any_undef ts

-- What requests see of the resource that `sd2_open` makes; its duration is `HUGE_VAL`.
abbrev pub opened_live : Double → List LiveTrack → Opened
opened_live huge_val ts = record {
  names = map (λ t. t.track_name) ts;
  seekable = false;
  is_live = true;
  undef_media = any_undef ts;
  duration = huge_val;
}

-- A group with neither a media type nor a payload type that has one.
abbrev pub lacks : ℤ → Option Text → Bool
lacks n none = is_undef (kind_of_type n)
lacks n (some word) = false

abbrev pub lacks_media : KeyGroup → Bool
lacks_media g = lacks (asked_type g) g.declared_media

abbrev pub some_lack_media : List KeyGroup → Bool
some_lack_media [] = false
some_lack_media (g ∷ gs) = lacks_media g || some_lack_media gs

-- The kind of a number that a group was given is that of the number it asks for.
same_kind :
    (seen : List LiveTrack) (g : KeyGroup) (t : LiveTrack)
    → OfGroup seen g t
    → kind_of_type t.type_number ≡ kind_of_type (asked_type g)
same_kind seen g t h = elim (Bool-cases (is_minus_one (asked_type g))) [
  | inr e ↦ ap kind_of_type (h.kept e)
  | inl e ↦
      let (p, (f, (l, _))) = h.fresh e in
      ap kind_of_type f ∙ (dynamic_kind p l ∙ sym (minus_one_kind (asked_type g) e))
]
  where
    dynamic_kind : (p : ℕ) → 96 ≤ p → kind_of_type (pos p) ≡ mp_undef
    dynamic_kind p l =
        let a : leb p 23 ≡ false = ground arith in
        let b : leb p 95 ≡ false = ground arith in rw (a, b) refl

    minus_one_kind : (n : ℤ) → is_minus_one n ≡ true → kind_of_type n ≡ mp_undef
    minus_one_kind (pos n) e = absurd (cc e)
    minus_one_kind (negsuc n) e = refl

abbrev undef_in : Option MediaType → Bool
undef_in none = false
undef_in (some m) = is_undef m

by_kind :
    (k m : MediaType)
    → some m ≡ (if is_undef k then some mp_undef else none)
    → is_undef m ≡ is_undef k
by_kind mp_undef m h = ap undef_in h
by_kind mp_audio m h = absurd (cc h)
by_kind mp_video m h = absurd (cc h)

by_word :
    (a b : Bool) (m : MediaType)
    → some m ≡ (if a then some mp_audio else if b then some mp_video else none)
    → is_undef m ≡ false
by_word true b m h = ap undef_in h
by_word false true m h = ap undef_in h
by_word false false m h = absurd (cc h)

-- The media type is undefined where the group lacks one.
undef_of_media :
    (m : MediaType) (n : ℤ) (word : Option Text)
    → some m ≡ media_of n word
    → is_undef m ≡ lacks n word
undef_of_media m n none h = by_kind (kind_of_type n) m h
undef_of_media m n (some w) h = by_word (text_eq w audio_word) (text_eq w video_word) m h

lacks_same :
    (n k : ℤ) (word : Option Text) → kind_of_type n ≡ kind_of_type k → lacks n word ≡ lacks k word
lacks_same n k none h = ap is_undef h
lacks_same n k (some w) h = refl

any_undef_lem :
    (seen : List LiveTrack) (gs : List KeyGroup) (ts : List LiveTrack)
    → OfGroups seen gs ts
    → any_undef ts ≡ some_lack_media gs
any_undef_lem seen [] [] h = refl
any_undef_lem seen [] (t ∷ ts) h = absurd h
any_undef_lem seen (g ∷ gs) [] h = absurd h
any_undef_lem seen (g ∷ gs) (t ∷ ts) h =
    ap₂ (λ a b. a || b)
      (undef_of_media t.media_type t.type_number g.declared_media h.0.taken.media
        ∙ lacks_same t.type_number (asked_type g) g.declared_media (same_kind seen g t h.0))
      (any_undef_lem (t ∷ seen) gs ts h.1)

-- DESCRIBE of a live resource, opened from a file with a group that makes a track: it is answered
-- with 200, or it stops the server by a failed assertion, and it does so exactly if one of these
-- groups has no `media_type` and asks for no payload type below 96, which `sd2_open` reports in
-- the log and goes on. The conditions: the request's path is a permitted one, the connection
-- has its peer's address, and `r_open` gives what `sd2_open` makes of the file, whose numbers leave
-- room as in `sd2_open-OfGroups`.
pub rtsp_describe-live :
    (gs : List KeyGroup) (bound : ℕ) (w : World) (client : RtspClient) (req : Request) (path : Text)
    (huge_val : Double)
    → 96 ≤ bound
    → bound + length gs ≤ int32_max
    → Asks bound gs
    → valid_groups gs ≢ []
    → req.uri ≡ some (some path)
    → check_forbidden_path path ≡ true
    → w.has_peer ≡ true
    → ((ts : List LiveTrack)
        → sd2_open (some gs) ≡ ok (some ts)
        → w.r_open (w.g_uri_unescape_string path) ≡ some (opened_live huge_val ts))
    → rtsp_describe w client req ≡ (
        if some_lack_media (valid_groups gs)
        then crash
        else ok (
          client,
          open_resource (w.g_uri_unescape_string path) ∷ close_resource ∷ respond rtsp_ok ∷ [],
        ))
unfolding rtsp_describe rfc822_request_check_url
rtsp_describe-live gs bound w client req path huge_val l s h n u c p o =
    let (ts, (opens, all)) = sd2_open-OfGroups gs bound l s h n in
    rw (u, c, p, o ts opens, any_undef_lem [] (valid_groups gs) ts all) refl
