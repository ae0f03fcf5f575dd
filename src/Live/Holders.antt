-- ===== src/Live/Holders.antt =====
-- What the clients that share a live resource see of it (`r_open`, `r_close`:
-- src/media/resource.c).
use mathlib.Core.Path.{subst}
use feng.Base.{
  ℕ, suc, ◌≡◌, ◌+◌, ◌-◌, ◌%◌, ◌^◌, refl, sym, ap, ◌∙◌, inl, inr, true, false, Option, none, some,
  List, [], ◌∷◌, ◌++◌, Outcome, ok, ◌>>=◌, if◌then◌else◌, Bool-cases, arith,
}
use feng.Base.Text.{Text, text_eq, text_eq_refl, text_eq→≡}
use feng.Live.{KeyGroup, LiveTrack}
use feng.Live.Groups.{sd2_open}
use feng.Live.Virtual.{
  LiveResource, Table, lookup_virtual, insert_virtual, new_live, open_found, virtual_prefix,
  r_open_url, release_live,
}

pub lookup-insert_same :
    (url : Text) (r : Option LiveResource) (table : Table)
    → lookup_virtual url (insert_virtual url r table) ≡ r
unfolding lookup_virtual insert_virtual
lookup-insert_same url r [] = rw (text_eq_refl url) refl
lookup-insert_same url r ((key, old) ∷ table) = elim (Bool-cases (text_eq key url)) [
  | inl e ↦ rw (e, e) refl
  | inr e ↦ rw (e, e) (lookup-insert_same url r table)
]

lookup-insert_other :
    (url other : Text) (r : Option LiveResource) (table : Table)
    → text_eq url other ≡ false
    → lookup_virtual other (insert_virtual url r table) ≡ lookup_virtual other table
unfolding lookup_virtual insert_virtual
lookup-insert_other url other r [] h = rw h refl
lookup-insert_other url other r ((key, old) ∷ table) h = elim (Bool-cases (text_eq key url)) [
  | inl e ↦
      let f : text_eq key other ≡ false = ap (λ k. text_eq k other) (text_eq→≡ key url e) ∙ h in
      rw (e, f) refl
  | inr e ↦ rw e (elim (Bool-cases (text_eq key other)) [
    | inl f ↦ rw f refl
    | inr f ↦ rw f (lookup-insert_other url other r table h)
  ])
]

-- What clients do: open a URL below "/virtual/", where the files are by then what `load` says, and
-- close the resource they got for it.
pub data Use : Type 0 where
  opens : (Text → Option (List KeyGroup)) → Text → Use
  closes : Text → Use

module _ {ℓ} {A : Type ℓ} (avf_open : Option Text → Option A) where
  unfoldable pub use_step : Use → Table → Outcome Table
  use_step (opens load name) table =
      r_open_url load avf_open (some (virtual_prefix ++ name)) table >>= λ r. ok r.1
  use_step (closes name) table = ok (release_live name (lookup_virtual name table) table)

  unfoldable pub run_uses : List Use → Table → Outcome Table
  unfolding use_step
  run_uses [] table = ok table
  run_uses (u ∷ us) table = use_step u table >>= λ table'. run_uses us table'

-- How often a URL is opened, and how often it is closed.
abbrev pub opened_times : Text → List Use → ℕ
opened_times name [] = 0
opened_times name (opens load url ∷ us) =
    let rest = opened_times name us in if text_eq url name then suc rest else rest
opened_times name (closes url ∷ us) = opened_times name us

abbrev pub closed_times : Text → List Use → ℕ
closed_times name [] = 0
closed_times name (opens load url ∷ us) = closed_times name us
closed_times name (closes url ∷ us) =
    let rest = closed_times name us in if text_eq url name then suc rest else rest

-- A resource with these tracks stands in the table, and its count is `n`, modulo 2^32.
pub record Stands (name : Text) (ts : List LiveTrack) (n : ℕ) (table : Table) : Type 0 where
  pub resource : LiveResource
  pub stands : lookup_virtual name table ≡ some resource
  pub counts : resource.holders ≡ n % 2 ^ 32
  pub same : resource.live_tracks ≡ ts

plus_zero : (n : ℕ) → n + 0 ≡ n
plus_zero n = omega arith

-- Another URL's entry changes.
Stands-other :
    (name url : Text) {ts : List LiveTrack} {n : ℕ} {table : Table} (r : Option LiveResource)
    → text_eq url name ≡ false
    → Stands name ts n table
    → Stands name ts n (insert_virtual url r table)
Stands-other name url {table = table} r h s = record {
  resource = s.resource;
  stands = lookup-insert_other url name r table h ∙ s.stands;
  counts = s.counts;
  same = s.same;
}

-- Its own entry does.
pub Stands-same :
    (name url : Text) (ts : List LiveTrack) (n : ℕ) (table : Table) (r : LiveResource)
    → text_eq url name ≡ true
    → r.holders ≡ n % 2 ^ 32
    → r.live_tracks ≡ ts
    → Stands name ts n (insert_virtual url (some r) table)
Stands-same name url ts n table r h c t = record {
  resource = r;
  stands =
      subst (λ k. lookup_virtual k (insert_virtual url (some r) table) ≡ some r)
        (text_eq→≡ url name h) (lookup-insert_same url (some r) table);
  counts = c;
  same = t;
}

same_resource :
    (name url : Text) (ts : List LiveTrack) (n : ℕ) (table : Table) (found : Option LiveResource)
    → lookup_virtual url table ≡ found
    → text_eq url name ≡ true
    → (s : Stands name ts n table) → found ≡ some s.resource
same_resource name url ts n table found f e s =
    sym f ∙ (ap (λ u. lookup_virtual u table) (text_eq→≡ url name e) ∙ s.stands)

pub close_step :
    (name url : Text) (ts : List LiveTrack) (n : ℕ) (table : Table) (found : Option LiveResource)
    → lookup_virtual url table ≡ found
    → Stands name ts n table
    → Stands name ts
        (n + (if text_eq url name then 2 ^ 32 - 1 else 0))
        (release_live url found table)
unfolding release_live
close_step name url ts n table none f s = elim (Bool-cases (text_eq url name)) [
  | inl e ↦ absurd (cc (same_resource name url ts n table none f e s))
  | inr e ↦ rw (e, plus_zero n) s
]
close_step name url ts n table (some r) f s =
    let r' : LiveResource = record r { holders = (r.holders + 2 ^ 32 - 1) % 2 ^ 32 } in
    elim (Bool-cases (text_eq url name)) [
      | inl e ↦
          let same : r ≡ s.resource = cc (same_resource name url ts n table (some r) f e s) in
          let c : r.holders ≡ n % 2 ^ 32 = ap (λ x. x.holders) same ∙ s.counts in
          rw e (
            Stands-same name url ts (n + (2 ^ 32 - 1)) table r' e (omega arith)
              (ap (λ x. x.live_tracks) same ∙ s.same))
      | inr e ↦ rw (e, plus_zero n) (Stands-other name url (some r') e s)
    ]

module _ (load : Text → Option (List KeyGroup)) where
  -- No file crashes the server.
  abbrev pub Loads : Type 0
  Loads = (url : Text) → (o : Option (List LiveTrack)) × (sd2_open (load url) ≡ ok o)

  pub open_step :
      (name url : Text) (ts : List LiveTrack) (n : ℕ) (table : Table) (found : Option LiveResource)
      → Loads
      → lookup_virtual url table ≡ found
      → Stands name ts n table
      → (r : Option LiveResource × Table) × ((open_found load url table found ≡ ok r)
          × Stands name ts (n + (if text_eq url name then 1 else 0)) r.1)
  unfolding open_found
  open_step name url ts n table none l f s = elim (Bool-cases (text_eq url name)) [
    | inl e ↦ absurd (cc (same_resource name url ts n table none f e s))
    | inr e ↦
        let (o, q) = l url in
        (
          (new_live o, insert_virtual url (new_live o) table),
          (rw q refl, rw (e, plus_zero n) (Stands-other name url (new_live o) e s)),
        )
  ]
  open_step name url ts n table (some r) l f s =
      let r' : LiveResource = record r { holders = (r.holders + 1) % 2 ^ 32 } in
      elim (Bool-cases (text_eq url name)) [
        | inl e ↦
            let same : r ≡ s.resource = cc (same_resource name url ts n table (some r) f e s) in
            let c : r.holders ≡ n % 2 ^ 32 = ap (λ x. x.holders) same ∙ s.counts in
            (
              (some r', insert_virtual url (some r') table),
              (
                refl,
                rw e (
                    Stands-same name url ts (n + 1) table r' e (omega arith)
                      (ap (λ x. x.live_tracks) same ∙ s.same)),
              ),
            )
        | inr e ↦ (
          (some r', insert_virtual url (some r') table),
          (refl, rw (e, plus_zero n) (Stands-other name url (some r') e s)),
        )
      ]

abbrev pub LoadsUse : Use → Type 0
LoadsUse (opens load url) = Loads load
LoadsUse (closes url) = Unit
