-- ===== src/Live/Rounds.antt =====
-- A round of the loop of `sd2_open` (src/media/resource_live.c): which groups make a track, and the
-- payload type it gets.
use feng.Base.{
  ℕ, zero, suc, ◌≡◌, ◌≤◌, ◌<◌, refl, sym, ap, ◌∙◌, inl, inr, Bool, true, false, ◌&&◌, Option, none,
  some, List, [], ◌∷◌, if◌then◌else◌, leb, ◌==◌, Bool-cases, arith,
}
use feng.Base.Text.{Text, text_eq, starts_with}
use feng.Base.Int.{ℤ, pos, negsuc, leb_int, int32_max}
use feng.Unreserved.{feng_str_is_unreserved}
use feng.Live.{
  KeyGroup, mp_undef, LiveTrack, live_track_new, set_defaults, set_encoding_defaults,
  encoding_defaults,
}
use feng.Live.Groups.{mq_prefix, declare_type, number_track, is_minus_one}
use feng.Live.Keys.{keys_valid}

-- The last entry of the table with a name.
abbrev pub last_entry : List (Text × ℕ × ℕ) → Text → Option (ℕ × ℕ) → Option (ℕ × ℕ)
last_entry [] name found = found
last_entry ((entry, payload, clock) ∷ entries) name found =
    last_entry entries name (if text_eq entry name then some (payload, clock) else found)

abbrev pub entry_type : Option (ℕ × ℕ) → ℤ
entry_type none = negsuc 0
entry_type (some (payload, clock)) = pos payload

abbrev pub named_type : Option Text → ℤ
named_type none = negsuc 0
named_type (some name) = entry_type (last_entry encoding_defaults name none)

abbrev pub type_or : Option ℤ → ℤ → ℤ
type_or none n = n
type_or (some p) n = p

-- The payload type that a group asks for, by its key or by its encoding; -1 asks for a new one.
abbrev pub asked_type : KeyGroup → ℤ
asked_type g = type_or g.declared_type (named_type g.encoding)

abbrev pub mrl_valid : Option Text → Bool
mrl_valid none = false
mrl_valid (some mrl) = starts_with mq_prefix mrl

abbrev pub is_some : Option Text → Bool
is_some none = false
is_some (some _) = true

-- Whether a group makes a track.
abbrev pub is_valid : KeyGroup → Bool
is_valid g =
    feng_str_is_unreserved (some g.group_name)
    && (mrl_valid g.mrl && (is_some g.encoding && keys_valid g (asked_type g)))

apply_entry : Option (ℕ × ℕ) → LiveTrack → LiveTrack
apply_entry none t = t
apply_entry (some (payload, clock)) t = record t { type_number = pos payload; rate = pos clock }

set_defaults_lem :
    (entries : List (Text × ℕ × ℕ)) (found : Option (ℕ × ℕ)) (t : LiveTrack)
    → set_defaults entries (apply_entry found t)
      ≡ apply_entry (last_entry entries t.encoding_name found) t
unfolding set_defaults apply_entry
set_defaults_lem [] found t = refl
set_defaults_lem ((name, payload, clock) ∷ entries) none t =
    elim (Bool-cases (text_eq name t.encoding_name)) [
      | inl e ↦ rw e (set_defaults_lem entries (some (payload, clock)) t)
      | inr e ↦ rw e (set_defaults_lem entries none t)
    ]
set_defaults_lem ((name, payload, clock) ∷ entries) (some f) t =
    elim (Bool-cases (text_eq name t.encoding_name)) [
      | inl e ↦ rw e (set_defaults_lem entries (some (payload, clock)) t)
      | inr e ↦ rw e (set_defaults_lem entries (some f) t)
    ]

pub record BuiltTrack (g : KeyGroup) (t : LiveTrack) : Type 0 where
  pub number : t.type_number ≡ asked_type g
  pub name : t.track_name ≡ g.group_name
  pub media : t.media_type ≡ mp_undef

fresh_by :
    (g : KeyGroup) (declared : Option ℤ) (found : Option (ℕ × ℕ)) (t : LiveTrack)
    → t.type_number ≡ negsuc 0
    → t.track_name ≡ g.group_name
    → t.media_type ≡ mp_undef
    → type_or declared (entry_type found) ≡ asked_type g
    → BuiltTrack g (declare_type declared (apply_entry found t))
unfolding declare_type apply_entry
fresh_by g none none t a n m h = record { number = a ∙ h; name = n; media = m }
fresh_by g none (some (p, c)) t a n m h = record { number = h; name = n; media = m }
fresh_by g (some d) none t a n m h = record { number = h; name = n; media = m }
fresh_by g (some d) (some (p, c)) t a n m h = record { number = h; name = n; media = m }

pub fresh_track :
    (g : KeyGroup) (path name : Text)
    → g.encoding ≡ some name
    → BuiltTrack g (
        declare_type g.declared_type
          (set_encoding_defaults (live_track_new g.group_name path name)))
unfolding set_encoding_defaults live_track_new apply_entry
fresh_track g path name h =
    let t = live_track_new g.group_name path name in
    rw (set_defaults_lem encoding_defaults none t) (
      fresh_by g g.declared_type (last_entry encoding_defaults name none) t refl refl refl
        (ap (λ e. type_or g.declared_type (named_type e)) (sym h)))

-- `number_track`, while no number is near the largest.
pub record Counted (n bound : ℕ) (t : LiveTrack) : Type 0 where
  pub next : ℕ
  pub t' : LiveTrack
  pub counts : number_track (pos n) t ≡ (t', pos next)
  pub grows : n ≤ next
  pub bounded : next ≤ suc bound
  pub fresh : is_minus_one t.type_number ≡ true → t'.type_number ≡ pos n
  pub kept : is_minus_one t.type_number ≡ false → t'.type_number ≡ t.type_number
  pub below : leb_int (pos next) t'.type_number ≡ false
  pub name : t'.track_name ≡ t.track_name
  pub media : t'.media_type ≡ t.media_type

pub counted_at :
    (n bound : ℕ) (t : LiveTrack) (m : ℤ)
    → t.type_number ≡ m
    → n ≤ bound
    → bound < int32_max
    → leb_int m (pos bound) ≡ true
    → Counted n bound t
unfolding number_track
counted_at n bound t (negsuc zero) e l s h = record {
  next = suc n;
  t' = record t { type_number = pos n };
  counts = let ne : (n == int32_max) ≡ false = ground arith in rw (e, ne) refl;
  grows = omega arith;
  bounded = omega arith;
  fresh = λ f. refl;
  kept = λ f. absurd (cc (sym (ap is_minus_one e) ∙ f));
  below = ground arith;
  name = refl;
  media = refl;
}
counted_at n bound t (negsuc (suc k)) e l s h = record {
  next = n;
  t' = t;
  counts = rw e refl;
  grows = omega arith;
  bounded = omega arith;
  fresh = λ f. absurd (cc (sym (ap is_minus_one e) ∙ f));
  kept = λ f. refl;
  below = rw e refl;
  name = refl;
  media = refl;
}
counted_at n bound t (pos k) e l s h = elim (Bool-cases (leb n k)) [
  | inl f ↦ record {
    next = suc k;
    t' = t;
    counts = let ne : (k == int32_max) ≡ false = ground arith in rw (e, f, ne) refl;
    grows = ground arith;
    bounded = ground arith;
    fresh = λ f. absurd (cc (sym (ap is_minus_one e) ∙ f));
    kept = λ f. refl;
    below = let g : leb (suc k) k ≡ false = ground arith in rw (e, g) refl;
    name = refl;
    media = refl;
  }
  | inr f ↦ record {
    next = n;
    t' = t;
    counts = rw (e, f) refl;
    grows = omega arith;
    bounded = omega arith;
    fresh = λ f. absurd (cc (sym (ap is_minus_one e) ∙ f));
    kept = λ f. refl;
    below = rw (e, f) refl;
    name = refl;
    media = refl;
  }
]
