-- ===== src/Live/Virtual.antt =====
-- `r_open` and `r_open_virtual` (src/media/resource.c): live resources that several clients share.
--
-- The table `virtual_resources` is a list of its entries. A resource stands in it, so that every
-- holder of the pointer sees what is changed there; the lock around it makes each call one step.
use feng.Base.{
  ℕ, ◌+◌, ◌-◌, ◌%◌, ◌^◌, Option, none, some, List, [], ◌∷◌, Outcome, ok, ◌>>=◌, ◌⊎◌, inl, inr,
  if◌then◌else◌, drop,
}
use feng.Base.Text.{Text, text_eq, starts_with}
use feng.Live.{KeyGroup, LiveTrack}
use feng.Live.Groups.{sd2_open}

-- `struct Resource` with `LIVE_SOURCE`: `live.count` and the tracks.
pub record LiveResource : Type 0 where
  pub holders : ℕ  -- gint
  pub live_tracks : List LiveTrack

abbrev pub Table : Type 0
Table = List (Text × Option LiveResource)

-- `g_hash_table_lookup` and `g_hash_table_insert`: NULL is found for a missing key as for NULL.
unfoldable pub lookup_virtual : Text → Table → Option LiveResource
lookup_virtual url [] = none
lookup_virtual url ((key, r) ∷ table) =
    let rest = lookup_virtual url table in if text_eq key url then r else rest

unfoldable pub insert_virtual : Text → Option LiveResource → Table → Table
insert_virtual url r [] = (url, r) ∷ []
insert_virtual url r ((key, old) ∷ table) =
    let rest = insert_virtual url r table in
    if text_eq key url then (key, r) ∷ table else (key, old) ∷ rest

-- The resource that `sd2_open` returns, with the fields of `g_slice_new0`.
unfoldable pub new_live : Option (List LiveTrack) → Option LiveResource
new_live none = none
new_live (some ts) = some (record { holders = 0; live_tracks = ts })

module _ (load : Text → Option (List KeyGroup)) where
  unfoldable pub open_found :
      Text → Table → Option LiveResource → Outcome (Option LiveResource × Table)
  unfolding insert_virtual new_live
  open_found url table (some r) =
      let r' : LiveResource = record r { holders = (r.holders + 1) % 2 ^ 32 } in
      ok (some r', insert_virtual url (some r') table)
  open_found url table none =
      sd2_open (load url) >>= λ ts. ok (new_live ts, insert_virtual url (new_live ts) table)

  -- `r_open_virtual`; `load` is the key file of a URL.
  unfoldable pub r_open_virtual : Text → Table → Outcome (Option LiveResource × Table)
  unfolding open_found lookup_virtual
  r_open_virtual url table = open_found url table (lookup_virtual url table)

-- `"/virtual/"`.
abbrev pub virtual_prefix : Text
virtual_prefix = 47 ∷ 118 ∷ 105 ∷ 114 ∷ 116 ∷ 117 ∷ 97 ∷ 108 ∷ 47 ∷ []

abbrev pub as_live {ℓ} : {A : Type ℓ} → Option LiveResource → Option (LiveResource ⊎ A)
as_live none = none
as_live (some r) = some (inl r)

abbrev pub as_stored {ℓ} : {A : Type ℓ} → Option A → Option (LiveResource ⊎ A)
as_stored none = none
as_stored (some a) = some (inr a)

module _ {ℓ} {A : Type ℓ} (load : Text → Option (List KeyGroup))
    (avf_open : Option Text → Option A) where
  -- `r_open`. NULL has no prefix.
  unfoldable pub r_open_url : Option Text → Table → Outcome (Option (LiveResource ⊎ A) × Table)
  unfolding r_open_virtual
  r_open_url none table = ok (as_stored (avf_open none), table)
  r_open_url (some url) table =
      if starts_with virtual_prefix url
      then (r_open_virtual load (drop 9 url) table >>= λ r. ok (as_live r.0, r.1))
      else ok (as_stored (avf_open (some url)), table)

-- `r_close` of a live resource: it stays, with its count one lower.
unfoldable pub release_live : Text → Option LiveResource → Table → Table
unfolding insert_virtual
release_live url none table = table
release_live url (some r) table =
    insert_virtual url (some (record r { holders = (r.holders + 2 ^ 32 - 1) % 2 ^ 32 })) table
