-- ===== src/Listing/Exact.antt =====
-- What a successful fetch of a page does to the listing of every package.
use catnap.Common.{
  String, Bool, true, false, not, ◌&&◌, ◌||◌, ◌≡◌, refl, ◌∙◌, ap, subst, List, [], ◌∷◌, Option,
  none, some, arith, ◌==◌, eq_string, if◌then◌else◌, get, insert, get-insert, get-insert_self,
  contains, contains-keep, map_some, has_key, has_key-dedup, dedup, Bool-cases, inl, inr, some_inj,
  none-ne-some,
}
use catnap.Listing.Store.{ConfigBase, ConfigRow, is_active, Store, UrlCache}
use catnap.Listing.Apply.{
  Fetched, ApplyCatalogUrlResult, config_ids, upserted_row, upsert_configs, delist_row,
  previous_ids, apply_catalog_url_fetch_success, written, result_of, refuses, listed_ids_of,
  delisted_ids_of, fetched_ids,
}
use catnap.Listing.Rows.{get-delist_where, contains-config_ids, id_of}

-- Whether a package is in the catalog.
abbrev pub is_listed : {X : Type 0} → Option (ConfigRow X) → Bool
is_listed none = false
is_listed (some row) = is_active row.lifecycle_state

is_listed-upserted :
    {X : Type 0} (at : String) (c : ConfigBase X) (old : Option (ConfigRow X))
    → is_listed (some (upserted_row at c old)) ≡ true
is_listed-upserted at c none = refl
is_listed-upserted at c (some old) = refl

is_listed-upsert_configs :
    {X : Type 0} (at id : String) (cs : List (ConfigBase X)) (rows : List (String × ConfigRow X))
    → is_listed (get id (upsert_configs at cs rows))
      ≡ (has_key id_of id cs || is_listed (get id rows))
unfolding upsert_configs
is_listed-upsert_configs at id [] rows = refl
is_listed-upsert_configs at id (c ∷ cs) rows =
    is_listed-upsert_configs at id cs (insert c.id (upserted_row at c (get c.id rows)) rows)
    ∙ (elim (Bool-cases (c.id == id)) [
      | inl same ↦
          rw (get-insert c.id id (upserted_row at c (get c.id rows)) rows, same)
            (rw (is_listed-upserted at c (get c.id rows)) (ground arith))
      | inr other ↦ rw (get-insert c.id id (upserted_row at c (get c.id rows)) rows, other) refl
    ])

is_listed-delisted :
    {X : Type 0} (at : String) (b : Bool) (row : Option (ConfigRow X))
    → is_listed (map_some (λ r. if b then delist_row at r else r) row) ≡ (is_listed row && not b)
is_listed-delisted at b none = refl
is_listed-delisted at b (some row) = ground arith

contains-has_key : (k : String) (xs : List String) → contains k xs ≡ has_key (λ x. x) k xs
contains-has_key k [] = refl
contains-has_key k (x ∷ xs) = ground (arith, contains-has_key k xs)

contains-dedup : (k : String) (xs : List String) → contains k (dedup (λ x. x) [] xs) ≡ contains k xs
contains-dedup k xs =
    contains-has_key k (dedup (λ x. x) [] xs)
    ∙ has_key-dedup (λ x. x) k [] xs
    ∙ ground (arith, contains-has_key k xs)

contains-fetched :
    {X : Type 0} (id : String) (cs : List (ConfigBase X))
    → contains id (dedup (λ x. x) [] (config_ids cs)) ≡ has_key id_of id cs
contains-fetched id cs = contains-dedup id (config_ids cs) ∙ contains-config_ids id cs

-- The ids that a cache row names.
abbrev pub ids_of : Option UrlCache → List String
ids_of none = []
ids_of (some cache) = cache.config_ids

-- A fetch that is applied has written its rows and gives its result.
pub applied-written :
    {X : Type 0} (s : Store X) (f : Fetched X) (after : Store X) (result : ApplyCatalogUrlResult)
    → apply_catalog_url_fetch_success s f ≡ some (after, result)
    → ◌≡◌ {A = Store X × ApplyCatalogUrlResult}
        (written (previous_ids s f) s f, result_of (previous_ids s f) s f)
        (after, result)
unfolding apply_catalog_url_fetch_success
applied-written s f after result h = elim (Bool-cases (refuses (previous_ids s f) f)) [
  | inl refused ↦ absurd (none-ne-some (rw refused at h))
  | inr fine ↦ some_inj (rw fine at h)
]

abbrev Exact :
    {X : Type 0} → Store X → Fetched X → String → Store X × ApplyCatalogUrlResult → Type 0
Exact s f id (after, result) =
    (contains id result.listed_ids
      ≡ (has_key id_of id f.configs && not (contains id (previous_ids s f))))
    × (contains id result.delisted_ids
        ≡ (contains id (previous_ids s f) && not (has_key id_of id f.configs)))
    × (is_listed (get id after.configs) ≡ (
        has_key id_of id f.configs
        || (is_listed (get id s.configs) && not (contains id (previous_ids s f)))))
    × (ids_of (get f.url_key after.url_cache) ≡ config_ids f.configs)

pub contains-listed :
    {X : Type 0} (id : String) (previous : List String) (f : Fetched X)
    → contains id (listed_ids_of previous f)
      ≡ (has_key id_of id f.configs && not (contains id previous))
contains-listed id previous f = ground (
  arith,
  contains-keep id (λ k. not (contains k previous)) (fetched_ids f),
  contains-fetched id f.configs,
)

pub contains-delisted :
    {X : Type 0} (id : String) (previous : List String) (f : Fetched X)
    → contains id (delisted_ids_of previous f)
      ≡ (contains id previous && not (has_key id_of id f.configs))
contains-delisted id previous f = ground (
  arith,
  contains-keep id (λ k. not (contains k (fetched_ids f))) (dedup (λ x. x) [] previous),
  contains-dedup id previous,
  contains-fetched id f.configs,
)

written-Exact :
    {X : Type 0} (s : Store X) (f : Fetched X) (id : String)
    → Exact s f id (written (previous_ids s f) s f, result_of (previous_ids s f) s f)
unfolding written
written-Exact s f id =
    let previous = previous_ids s f in
    let upserted = upsert_configs f.fetched_at f.configs s.configs in
    let gone = λ (k : String) (row : ConfigRow _). contains k (delisted_ids_of previous f) in
    (
      contains-listed id previous f,
      contains-delisted id previous f,
      ap is_listed (get-delist_where gone (delist_row f.fetched_at) id upserted)
          ∙ is_listed-delisted f.fetched_at (contains id (delisted_ids_of previous f))
              (get id upserted)
          ∙ ground (
            arith,
            is_listed-upsert_configs f.fetched_at id f.configs s.configs,
            contains-delisted id previous f,
          ),
      ap ids_of (get-insert_self f.url_key _ s.url_cache),
    )

-- A fetch that is applied lists the packages of the page that the page did not have before and
-- delists those that it had and has no more; then a package is in the catalog exactly when the page
-- has it, or when it was in the catalog and not of the page; and the page's ids are noted for the
-- next fetch.
pub applied_exact :
    {X : Type 0} (s : Store X) (f : Fetched X) (after : Store X) (result : ApplyCatalogUrlResult)
    (id : String)
    → apply_catalog_url_fetch_success s f ≡ some (after, result)
    → (contains id result.listed_ids
        ≡ (has_key id_of id f.configs && not (contains id (previous_ids s f))))
      × (contains id result.delisted_ids
          ≡ (contains id (previous_ids s f) && not (has_key id_of id f.configs)))
      × (is_listed (get id after.configs) ≡ (
          has_key id_of id f.configs
          || (is_listed (get id s.configs) && not (contains id (previous_ids s f)))))
      × (ids_of (get f.url_key after.url_cache) ≡ config_ids f.configs)
applied_exact s f after result id h =
    subst (Exact s f id) (applied-written s f after result h) (written-Exact s f id)
