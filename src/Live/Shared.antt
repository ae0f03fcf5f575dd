-- ===== src/Live/Shared.antt =====
-- Clients that share a live resource, from its first opening on (`r_open`, `r_close`:
-- src/media/resource.c).
use mathlib.Core.Path.{subst}
use feng.Base.{
  ℕ, ◌≡◌, ◌≤◌, ◌<◌, ◌+◌, ◌-◌, ◌*◌, ◌%◌, ◌^◌, refl, ap₂, ◌∙◌, inl, inr, Option, none, some, List, [],
  ◌∷◌, Outcome, ok, All, if◌then◌else◌, Bool-cases, arith,
}
use feng.Base.Text.{Text, text_eq, text_eq_refl}
use feng.Live.{KeyGroup, LiveTrack}
use feng.Live.Groups.{sd2_open}
use feng.Live.Virtual.{
  LiveResource, Table, lookup_virtual, insert_virtual, new_live, open_found, r_open_virtual,
  r_open_url, release_live,
}
use feng.Live.Holders.{
  Use, opens, closes, use_step, run_uses, opened_times, closed_times, Stands, LoadsUse, open_step,
  close_step, Stands-same,
}

-- What a use does to the count, and what all do.
abbrev change : Text → Use → ℕ
change name (opens load url) = if text_eq url name then 1 else 0
change name (closes url) = if text_eq url name then 2 ^ 32 - 1 else 0

total : Text → List Use → ℕ → ℕ
total name us n = n + opened_times name us + (2 ^ 32 - 1) * closed_times name us

total_next :
    (name : Text) (u : Use) (us : List Use) (n : ℕ)
    → total name us (n + change name u) ≡ total name (u ∷ us) n
unfolding total
total_next name (opens load url) us n = elim (Bool-cases (text_eq url name)) [
  | inl e ↦ rw e (omega arith)
  | inr e ↦ rw e (omega arith)
]
total_next name (closes url) us n = elim (Bool-cases (text_eq url name)) [
  | inl e ↦ rw e (omega arith)
  | inr e ↦ rw e (omega arith)
]

module _ {ℓ} {A : Type ℓ} (avf_open : Option Text → Option A) where
  -- A table after some uses, in which a resource stands.
  record After (name : Text) (ts : List LiveTrack) (n : ℕ) (r : Outcome Table) : Type 0 where
    table' : Table
    runs : r ≡ ok table'
    stands : Stands name ts n table'

  use_step-Stands :
      (name : Text) (ts : List LiveTrack) (n : ℕ) (u : Use) (table : Table)
      → LoadsUse u
      → Stands name ts n table
      → After name ts (n + change name u) (use_step avf_open u table)
  unfolding use_step r_open_url r_open_virtual
  use_step-Stands name ts n (opens load url) table l s =
      let (r, (e, h)) = open_step load name url ts n table (lookup_virtual url table) l refl s in
      record { table' = r.1; runs = rw e refl; stands = h }
  use_step-Stands name ts n (closes url) table l s = record {
    table' = release_live url (lookup_virtual url table) table;
    runs = refl;
    stands = close_step name url ts n table (lookup_virtual url table) refl s;
  }

  run_uses-Stands :
      (name : Text) (ts : List LiveTrack) (n : ℕ) (us : List Use) (table : Table)
      → All LoadsUse us
      → Stands name ts n table
      → After name ts (total name us n) (run_uses avf_open us table)
  unfolding run_uses total
  run_uses-Stands name ts n [] table l s = record {
    table' = table;
    runs = refl;
    stands = subst (λ k. Stands name ts k table) (omega arith) s;
  }
  run_uses-Stands name ts n (u ∷ us) table l s =
      let a = use_step-Stands name ts n u table l.0 s in
      let b = run_uses-Stands name ts (n + change name u) us a.table' l.1 a.stands in
      record {
        table' = b.table';
        runs = rw a.runs b.runs;
        stands = subst (λ k. Stands name ts k b.table') (total_next name u us n) b.stands;
      }

left_over : (n m : ℕ) → m ≤ n → n < 2 ^ 32 → (0 + n + (2 ^ 32 - 1) * m) % 2 ^ 32 ≡ n - m
left_over n m h l = omega arith

-- A file below "/virtual/" that opens is read once, whatever else is opened and closed, and whatever
-- the files hold by then: the first `r_open` of its URL makes a resource of its tracks with the count
-- 0; after any further uses of the table, in which the URL is opened n times and closed m times, with
-- m at most n and n below 2^32, and in which each opening may find other contents of the files, the
-- tracks of the first opening stand in the table, and their count is n - m, one less than the n + 1 -
-- m openings that were not closed. The conditions: the URL was not in the table before, and no file
-- crashes `sd2_open`.
pub run_uses-shared {ℓ} :
    {A : Type ℓ} (load : Text → Option (List KeyGroup)) (avf_open : Option Text → Option A)
    (name : Text) (ts : List LiveTrack) (table : Table) (us : List Use)
    → All LoadsUse us
    → lookup_virtual name table ≡ none
    → sd2_open (load name) ≡ ok (some ts)
    → closed_times name us ≤ opened_times name us
    → opened_times name us < 2 ^ 32
    → (table' : Table) × ((run_uses avf_open (opens load name ∷ us) table ≡ ok table')
        × (lookup_virtual name table'
            ≡ some (record {
              holders = opened_times name us - closed_times name us;
              live_tracks = ts;
            })))
unfolding run_uses use_step r_open_url r_open_virtual open_found new_live total
run_uses-shared load avf_open name ts table us l f o c b =
    let r : LiveResource = record { holders = 0; live_tracks = ts } in
    let table1 = insert_virtual name (some r) table in
    let s = Stands-same name name ts 0 table r (text_eq_refl name) (omega arith) refl in
    let a = run_uses-Stands avf_open name ts 0 us table1 l s in
    (
      a.table',
      (
        rw (f, o) a.runs,
        a.stands.stands
            ∙ ap₂ (λ h t. some (record { holders = h; live_tracks = t }))
                (a.stands.counts ∙ left_over (opened_times name us) (closed_times name us) c b)
                a.stands.same,
      ),
    )
