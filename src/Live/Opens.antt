-- ===== src/Live/Opens.antt =====
-- What `sd2_open` makes of a file (src/media/resource_live.c).
use mathlib.Core.Path.{subst}
use feng.Base.{
  ℕ, suc, ◌≡◌, ◌≢◌, ◌≤◌, ◌+◌, refl, ◌∙◌, inl, inr, Bool, true, false, ◌||◌, none, some, List, [],
  ◌∷◌, ok, crash, ◌>>=◌, if◌then◌else◌, leb, length, All, Bool-cases, arith,
}
use feng.Base.Int.{ℤ, pos, negsuc, leb_int, int32_max}
use feng.Unreserved.{feng_str_is_unreserved}
use feng.Live.{KeyGroup, LiveTrack}
use feng.Live.Groups.{
  Verdict, is_minus_one, read_groups, accepted_tracks, free_names, open_tracks, sd2_open,
}
use feng.Live.Keys.{Taken}
use feng.Live.Rounds.{asked_type, is_valid}
use feng.Live.Made.{read_group-Round}

-- The groups that make a track, in their order.
abbrev pub valid_groups : List KeyGroup → List KeyGroup
valid_groups [] = []
valid_groups (g ∷ gs) = if is_valid g then g ∷ valid_groups gs else valid_groups gs

-- Whether some group has a name that may be a track's.
abbrev pub some_unreserved : List KeyGroup → Bool
some_unreserved [] = false
some_unreserved (g ∷ gs) = feng_str_is_unreserved (some g.group_name) || some_unreserved gs

-- The track of a group, after those in `seen`: its payload type is the one asked for, or a dynamic
-- one that none of them has.
pub record OfGroup (seen : List LiveTrack) (g : KeyGroup) (t : LiveTrack) : Type 0 where
  pub taken : Taken g t
  pub kept : is_minus_one (asked_type g) ≡ false → t.type_number ≡ asked_type g
  pub fresh :
      is_minus_one (asked_type g) ≡ true
      → (p : ℕ) × (t.type_number ≡ pos p × (96 ≤ p × All (λ s. s.type_number ≢ t.type_number) seen))

-- The tracks of the groups, one for each, in their order.
abbrev pub OfGroups : List LiveTrack → List KeyGroup → List LiveTrack → Type 0
OfGroups seen [] [] = Unit
OfGroups seen (g ∷ gs) (t ∷ ts) = OfGroup seen g t × OfGroups (t ∷ seen) gs ts
OfGroups seen _ _ = ⊥

-- All numbers given so far lie below the next one.
abbrev Below : ℕ → List LiveTrack → Type 0
Below n seen = All (λ s. leb_int (pos n) s.type_number ≡ false) seen

below_le : (m n : ℕ) (k : ℤ) → m ≤ n → leb_int (pos m) k ≡ false → leb_int (pos n) k ≡ false
below_le m n (pos k) l h = ground arith
below_le m n (negsuc k) l h = refl

Below-mono : (m n : ℕ) (seen : List LiveTrack) → m ≤ n → Below m seen → Below n seen
Below-mono m n [] l h = tt
Below-mono m n (s ∷ seen) l h = (below_le m n s.type_number l h.0, Below-mono m n seen l h.1)

differs : (n : ℕ) (k m : ℤ) → leb_int (pos n) k ≡ false → m ≡ pos n → k ≢ m
differs n k m h e f =
    let g : leb n n ≡ false = subst (λ x. leb_int (pos n) x ≡ false) (f ∙ e) h in
    absurd (ground arith)

Below-differs :
    (n : ℕ) (seen : List LiveTrack) (m : ℤ)
    → m ≡ pos n
    → Below n seen
    → All (λ s. s.type_number ≢ m) seen
Below-differs n [] m e h = tt
Below-differs n (s ∷ seen) m e h = (differs n s.type_number m h.0 e, Below-differs n seen m e h.1)

-- The groups' numbers are no larger than `bound`, and there is room for a number more per group.
abbrev pub Asks : ℕ → List KeyGroup → Type 0
Asks bound gs = All (λ g. leb_int (asked_type g) (pos bound) ≡ true) gs

leb_int-suc : (n : ℕ) (k : ℤ) → leb_int k (pos n) ≡ true → leb_int k (pos (suc n)) ≡ true
leb_int-suc n (pos k) h = ground arith
leb_int-suc n (negsuc k) h = refl

Asks-suc : (n : ℕ) (gs : List KeyGroup) → Asks n gs → Asks (suc n) gs
Asks-suc n [] h = tt
Asks-suc n (g ∷ gs) h = (leb_int-suc n (asked_type g) h.0, Asks-suc n gs h.1)

accepted_tracks-OfGroups :
    (gs : List KeyGroup) (n bound : ℕ) (seen : List LiveTrack)
    → 96 ≤ n
    → n ≤ bound
    → bound + length gs ≤ int32_max
    → Asks bound gs
    → Below n seen
    → OfGroups seen (valid_groups gs) (accepted_tracks (read_groups gs (pos n)))
unfolding read_groups accepted_tracks
accepted_tracks-OfGroups [] n bound seen a l s h b = tt
accepted_tracks-OfGroups (g ∷ gs) n bound seen a l s h b =
    let r = read_group-Round g n bound a l (omega arith) h.0 in
    let rest : (seen' : List LiveTrack)
        → Below r.next seen'
        → OfGroups seen' (valid_groups gs) (accepted_tracks (read_groups gs (pos r.next))) =
      λ seen' b'.
        accepted_tracks-OfGroups gs r.next (suc bound) seen' (omega (arith, r.grows)) r.bounded
          (omega arith) (Asks-suc bound gs h.1) b' in
    let b' = Below-mono n r.next seen r.grows b in
    elim (Bool-cases (is_valid g)) [
      | inl e ↦
          let m = r.made e in
          rw (e, r.runs, m.accepts)
            (
              record {
                taken = m.taken;
                kept = m.kept;
                fresh =
                    λ f. (n, (m.fresh f, (a, Below-differs n seen m.t'.type_number (m.fresh f) b)));
              },
              rest (m.t' ∷ seen) (m.below, b'),
            )
      | inr e ↦
          rw (e, r.runs, r.refused e)
            (elim (Bool-cases (feng_str_is_unreserved (some g.group_name))) [
              | inl u ↦ rw u (rest seen b')
              | inr u ↦ rw u (rest seen b')
            ])
    ]

no_group :
    (b : Bool) (g : KeyGroup) (gs : List KeyGroup)
    → (if b then g ∷ gs else gs) ≡ []
    → (b ≡ false) × (gs ≡ [])
no_group true g gs h = absurd (cc h)
no_group false g gs h = (refl, h)

-- Without a track, the names that were freed with theirs are freed again.
free_names_lem :
    (gs : List KeyGroup) (n bound : ℕ)
    → 96 ≤ n
    → n ≤ bound
    → bound + length gs ≤ int32_max
    → Asks bound gs
    → valid_groups gs ≡ []
    → free_names (read_groups gs (pos n)) ≡ (if some_unreserved gs then crash else ok tt)
unfolding read_groups free_names
free_names_lem [] n bound a l s h v = refl
free_names_lem (g ∷ gs) n bound a l s h v =
    let r = read_group-Round g n bound a l (omega arith) h.0 in
    let v' = no_group (is_valid g) g (valid_groups gs) v in
    let rest =
      free_names_lem gs r.next (suc bound) (omega (arith, r.grows)) r.bounded (omega arith)
        (Asks-suc bound gs h.1) v'.1 in
    elim (Bool-cases (feng_str_is_unreserved (some g.group_name))) [
      | inl u ↦ rw (r.runs, r.refused v'.0, u) refl
      | inr u ↦ rw (r.runs, r.refused v'.0, u) rest
    ]

-- What follows the loop: tracks for groups that make them, or no resource.
opens_some :
    (vs : List Verdict) (gs : List KeyGroup) (ts : List LiveTrack)
    → OfGroups [] gs ts
    → gs ≢ []
    → (rs : List LiveTrack) × ((open_tracks vs ts ≡ ok (some rs)) × OfGroups [] gs rs)
unfolding open_tracks
opens_some vs [] ts h n = absurd (n refl)
opens_some vs (g ∷ gs) [] h n = absurd h
opens_some vs (g ∷ gs) (t ∷ ts) h n = (t ∷ ts, (refl, h))

unopened :
    (vs : List Verdict) (gs : List KeyGroup) (ts : List LiveTrack)
    → OfGroups [] gs ts
    → gs ≡ []
    → open_tracks vs ts ≡ (free_names vs >>= λ _. ok none)
unfolding open_tracks
unopened vs [] [] h n = refl
unopened vs [] (t ∷ ts) h n = absurd h
unopened vs (g ∷ gs) ts h n = absurd (cc n)

pub sd2_open-OfGroups :
    (gs : List KeyGroup) (bound : ℕ)
    → 96 ≤ bound
    → bound + length gs ≤ int32_max
    → Asks bound gs
    → valid_groups gs ≢ []
    → (ts : List LiveTrack) × ((sd2_open (some gs) ≡ ok (some ts))
        × OfGroups [] (valid_groups gs) ts)
unfolding sd2_open
sd2_open-OfGroups gs bound l s h n =
    opens_some (read_groups gs (pos 96)) (valid_groups gs)
      (accepted_tracks (read_groups gs (pos 96)))
      (accepted_tracks-OfGroups gs 96 bound [] (omega arith) l s h tt) n

-- A file whose groups make no track crashes the server, by a second `g_free` of a name, if the name
-- of one of them is made up of unreserved characters; otherwise it gives no resource. The
-- condition on the numbers is the one of files that open.
pub sd2_open-crash :
    (gs : List KeyGroup) (bound : ℕ)
    → 96 ≤ bound
    → bound + length gs ≤ int32_max
    → Asks bound gs
    → valid_groups gs ≡ []
    → sd2_open (some gs) ≡ (if some_unreserved gs then crash else ok none)
unfolding sd2_open
sd2_open-crash gs bound l s h n =
    let vs = read_groups gs (pos 96) in
    let f = free_names_lem gs 96 bound (omega arith) l s h n in
    rw
      (
        unopened vs (valid_groups gs) (accepted_tracks vs)
            (accepted_tracks-OfGroups gs 96 bound [] (omega arith) l s h tt) n,
        f,
      )
      (elim (Bool-cases (some_unreserved gs)) [ inl e ↦ rw e refl | inr e ↦ rw e refl ])
