-- ===== src/Live/Made.antt =====
-- What a round of the loop of `sd2_open` makes of a group (src/media/resource_live.c).
use mathlib.Core.Path.{subst}
use feng.Base.{
  ℕ, zero, suc, ◌≡◌, ◌≤◌, ◌<◌, refl, sym, ap, ◌∙◌, inl, inr, Bool, true, false, ◌&&◌, Option, none,
  some, if◌then◌else◌, leb, drop, Bool-cases, arith,
}
use feng.Base.Text.{Text, starts_with}
use feng.Base.Int.{ℤ, pos, negsuc, leb_int, int32_max}
use feng.Unreserved.{feng_str_is_unreserved}
use feng.Live.{KeyGroup, LiveTrack, live_track_new, set_encoding_defaults}
use feng.Live.Groups.{
  Verdict, invalid_name, corrupted, accepted, mq_prefix, declare_type, is_minus_one, read_keys,
  read_encoding, read_mrl, read_group,
}
use feng.Live.Keys.{keys_valid, Taken, media_of, with_media_valid, read_keys_lem}
use feng.Live.Rounds.{asked_type, mrl_valid, is_some, is_valid, fresh_track, counted_at}

-- A group that makes a track, at `n` as the next payload type to give away.
pub record Made (g : KeyGroup) (n next : ℕ) (v : Verdict) : Type 0 where
  pub t' : LiveTrack
  pub accepts : v ≡ accepted t'
  pub fresh : is_minus_one (asked_type g) ≡ true → t'.type_number ≡ pos n
  pub kept : is_minus_one (asked_type g) ≡ false → t'.type_number ≡ asked_type g
  pub below : leb_int (pos next) t'.type_number ≡ false
  pub taken : Taken g t'

-- What becomes of a group that makes no track.
abbrev pub refusal : KeyGroup → Verdict
refusal g = if feng_str_is_unreserved (some g.group_name) then corrupted else invalid_name

pub record Round (g : KeyGroup) (n bound : ℕ) (valid : Bool) (r : ℤ × Verdict) : Type 0 where
  pub next : ℕ
  pub verdict : Verdict
  pub runs : r ≡ (pos next, verdict)
  pub grows : n ≤ next
  pub bounded : next ≤ suc bound
  pub made : valid ≡ true → Made g n next verdict
  pub refused : valid ≡ false → verdict ≡ refusal g

-- A round that ends before the number is given.
early :
    (g : KeyGroup) (n bound : ℕ) (v : Verdict)
    → n ≤ bound
    → v ≡ refusal g
    → Round g n bound false (pos n, v)
early g n bound v l h = record {
  next = n;
  verdict = v;
  runs = refl;
  grows = omega arith;
  bounded = omega arith;
  made = λ e. cc;
  refused = λ e. h;
}

same_media :
    (n : ℕ) (word : Option Text) → 96 ≤ n → media_of (pos n) word ≡ media_of (negsuc 0) word
same_media n none l =
    let a : leb n 23 ≡ false = ground arith in
    let b : leb n 95 ≡ false = ground arith in rw (a, b) refl
same_media n (some word) l = refl

-- A fresh number has no media type of its own, so that the keys are as in order with it as without.
same_keys :
    (g : KeyGroup) (n : ℕ) (asked number : ℤ)
    → 96 ≤ n
    → (is_minus_one asked ≡ true → number ≡ pos n)
    → (is_minus_one asked ≡ false → number ≡ asked)
    → keys_valid g number ≡ keys_valid g asked
same_keys g n (pos k) number l f h = ap (keys_valid g) (h refl)
same_keys g n (negsuc (suc k)) number l f h = ap (keys_valid g) (h refl)
same_keys g n (negsuc zero) number l f h =
    ap (keys_valid g) (f refl)
    ∙ ap (with_media_valid g.channels g.declared_rate) (same_media n g.declared_media l)

-- From the encoding on.
encoding-Round :
    (g : KeyGroup) (n bound : ℕ) (path : Text) (encoding : Option Text)
    → g.encoding ≡ encoding
    → feng_str_is_unreserved (some g.group_name) ≡ true
    → 96 ≤ n
    → n ≤ bound
    → bound < int32_max
    → leb_int (asked_type g) (pos bound) ≡ true
    → Round g n bound
        (is_some encoding && keys_valid g (asked_type g))
        (read_encoding g (pos n) path encoding)
unfolding read_encoding
encoding-Round g n bound path none e u a l s h = early g n bound corrupted l (rw u refl)
encoding-Round g n bound path (some name) e u a l s h =
    let t =
      declare_type g.declared_type
        (set_encoding_defaults (live_track_new g.group_name path name)) in
    let f = fresh_track g path name e in
    let c =
      counted_at n bound t t.type_number refl l s
        (subst (λ m. leb_int m (pos bound) ≡ true) (sym f.number) h) in
    let k =
      same_keys g n t.type_number c.t'.type_number a c.fresh c.kept ∙ ap (keys_valid g) f.number in
    let r = read_keys_lem g c.t' (c.media ∙ f.media) (c.name ∙ f.name) in
    record {
      next = c.next;
      verdict = read_keys g c.t';
      runs = rw c.counts refl;
      grows = c.grows;
      bounded = c.bounded;
      made = λ v.
          let m = r.0 (k ∙ v) in
          record {
            t' = m.t';
            accepts = m.accepts;
            fresh = λ o. m.number ∙ c.fresh (ap is_minus_one f.number ∙ o);
            kept = λ o. m.number ∙ (c.kept (ap is_minus_one f.number ∙ o) ∙ f.number);
            below = subst (λ x. leb_int (pos c.next) x ≡ false) (sym m.number) c.below;
            taken = m.taken;
          };
      refused = λ v. r.1 (k ∙ v) ∙ rw u refl;
    }

-- From the address of the message queue on.
mrl-Round :
    (g : KeyGroup) (n bound : ℕ) (mrl : Option Text)
    → feng_str_is_unreserved (some g.group_name) ≡ true
    → 96 ≤ n
    → n ≤ bound
    → bound < int32_max
    → leb_int (asked_type g) (pos bound) ≡ true
    → Round g n bound
        (mrl_valid mrl && (is_some g.encoding && keys_valid g (asked_type g)))
        (read_mrl g (pos n) mrl)
unfolding read_mrl
mrl-Round g n bound none u a l s h = early g n bound corrupted l (rw u refl)
mrl-Round g n bound (some mrl) u a l s h = elim (Bool-cases (starts_with mq_prefix mrl)) [
  | inl e ↦ rw e (encoding-Round g n bound (drop 5 mrl) g.encoding refl u a l s h)
  | inr e ↦ rw e (early g n bound corrupted l (rw u refl))
]

pub read_group-Round :
    (g : KeyGroup) (n bound : ℕ)
    → 96 ≤ n
    → n ≤ bound
    → bound < int32_max
    → leb_int (asked_type g) (pos bound) ≡ true
    → Round g n bound (is_valid g) (read_group g (pos n))
unfolding read_group
read_group-Round g n bound a l s h =
    elim (Bool-cases (feng_str_is_unreserved (some g.group_name))) [
      | inl e ↦ rw e (mrl-Round g n bound g.mrl e a l s h)
      | inr e ↦ rw e (early g n bound invalid_name l (rw e refl))
    ]
