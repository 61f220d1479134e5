-- ===== src/Listing/Retired.antt =====
-- What retiring the targets of removed countries and regions does.
use catnap.Common.{
  String, Bool, false, not, ◌&&◌, ◌≡◌, refl, ◌∙◌, ap, List, [], ◌∷◌, Option, none, some, arith,
  ◌==◌, eq_string, eq_option, if◌then◌else◌, get, get-remove, remove, map_some, any, Bool-cases,
  inl, inr,
}
use catnap.Topology.Targets.{Target, target_key}
use catnap.Listing.Store.{ConfigRow, Store, is_active}
use catnap.Listing.Apply.{delist_where, retire_catalog_targets, retire_row, is_retired, is_from}
use catnap.Listing.Rows.{get-delist_where}
use catnap.Listing.Exact.{is_listed}

-- Whether a package came from one of the targets.
abbrev pub is_from_any : {X : Type 0} → List Target → Option (ConfigRow X) → Bool
is_from_any ts none = false
is_from_any ts (some row) = any (λ t. is_from t.0 t.1 row) ts

retired-row :
    {X : Type 0} (at : String) (t : Target) (ts : List Target) (row : Option (ConfigRow X))
    → let after = map_some (λ r. if is_retired t r then retire_row at r else r) row in
      (is_listed after && not (is_from_any ts after))
      ≡ (is_listed row && not (is_from_any (t ∷ ts) row))
retired-row at t ts none = refl
retired-row at t ts (some row) = elim (Bool-cases (is_from t.0 t.1 row)) [
  | inl from ↦ elim (Bool-cases (is_active row.lifecycle_state)) [
    | inl listed ↦ rw (from, listed) refl
    | inr gone ↦ rw (from, gone) (rw gone refl)
  ]
  | inr other ↦ rw other refl
]

no-targets :
    {X : Type 0} (row : Option (ConfigRow X))
    → is_listed row ≡ (is_listed row && not (is_from_any [] row))
no-targets none = refl
no-targets (some row) = ground arith

-- After some targets are retired, a package is in the catalog exactly when it was and came from
-- none of them, and a page has a cached list exactly when it had and is none of theirs.
pub retired_exact :
    {X : Type 0} (at : String) (ts : List Target) (s : Store X) (id k : String)
    → let after = (retire_catalog_targets at ts s).0 in
      (is_listed (get id after.configs)
        ≡ (is_listed (get id s.configs) && not (is_from_any ts (get id s.configs))))
      × (get k after.url_cache
          ≡ (if any (λ t. target_key t == k) ts then none else get k s.url_cache))
unfolding retire_catalog_targets
retired_exact at [] s id k = (no-targets (get id s.configs), refl)
retired_exact at (t ∷ ts) s id k =
    let retired : Store _ = record s {
      configs = delist_where (λ i row. is_retired t row) (retire_row at) s.configs;
      url_cache = remove (target_key t) s.url_cache;
    } in
    let rest = retired_exact at ts retired id k in
    let row = get-delist_where (λ i r. is_retired t r) (retire_row at) id s.configs in
    (
      rest.0
          ∙ ap (λ r. is_listed r && not (is_from_any ts r)) row
          ∙ retired-row at t ts (get id s.configs),
      rest.1 ∙ ground (arith, get-remove (target_key t) k s.url_cache),
    )
