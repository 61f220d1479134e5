-- ===== src/Listing/Announced.antt =====
-- How often a package that comes into the catalog is announced as listed.
pub mod Once
use catnap.Common.{
  ℕ, suc, ◌+◌, String, Bool, true, false, not, ◌&&◌, ◌||◌, ◌≡◌, ◌≢◌, refl, ◌∙◌, sym, ap, subst,
  List, [], ◌∷◌, ◌++◌, Option, none, some, arith, ◌==◌, ==_iff, ==_refl, eq_string, if◌then◌else◌,
  get, insert, get-insert_self, contains, keep, map, map_some, filter_some, is_some, find, has_key,
  Unique, count, All, any, Bool-cases, Option-cases, inl, inr, some_inj, none-ne-some, is_empty,
  trim, ℤ,
}
use catnap.Listing.Store.{
  ConfigBase, ConfigRow, LifecycleState, active, delisted, is_active, Store, UrlCache, is_positive,
  event_at, new_row,
}
use catnap.Listing.Apply.{
  Fetched, ApplyCatalogUrlResult, config_ids, upserted_row, upsert_configs, delist_row,
  delist_where, previous_ids, apply_catalog_url_fetch_success, is_nil, announces, is_unannounced,
  written, result_of, refuses, delisted_ids_of,
}
use catnap.Listing.Rows.{get-delist_where, get-upsert_configs, contains-config_ids, id_of}
use catnap.Listing.Exact.{is_listed, ids_of, contains-delisted}

false-ne-true : false ≢ true
false-ne-true h = cc

-- The announcements of a package over some fetches; one that is refused leaves the store.
unfoldable pub announcements : {X : Type 0} → String → Store X → List (Fetched X) → ℕ
announcements id s [] = 0
announcements id s (f ∷ fs) = elim (apply_catalog_url_fetch_success s f) [
  | none ↦ announcements id s fs
  | some (after, result) ↦ count id result.listed_event_ids + announcements id after fs
]

-- Whether a page has a package in stock.
abbrev pub in_stock : {X : Type 0} → String → Fetched X → Bool
in_stock id f = any (λ c. c.id == id && is_positive c.quantity) f.configs

-- A fetch of one page that has a package, each of its packages once.
abbrev pub Shows : {X : Type 0} → String → String → Fetched X → Type 0
Shows url_key id f =
    (f.url_key ≡ url_key)
    × Unique id_of f.configs
    × (has_key id_of id f.configs ≡ true)
    × (is_empty (trim f.fetched_at) ≡ false)

pub find-of_has_key :
    {X : Type 0} (id : String) (cs : List (ConfigBase X))
    → has_key id_of id cs ≡ true
    → (c : ConfigBase X) × (find id_of id cs ≡ some c)
find-of_has_key id [] h = cc
find-of_has_key id (d ∷ cs) h = elim (Bool-cases (d.id == id)) [
  | inl same ↦ (d, rw same refl)
  | inr other ↦ rw other (find-of_has_key id cs (rw other at h))
]

count-absent :
    {X : Type 0} (p : ConfigBase X → Bool) (id : String) (cs : List (ConfigBase X))
    → has_key id_of id cs ≡ false
    → count id (config_ids (keep p cs)) ≡ 0
count-absent p id [] h = refl
count-absent p id (c ∷ cs) h = ground (arith, count-absent p id cs)

any-absent :
    {X : Type 0} (p : ConfigBase X → Bool) (id : String) (cs : List (ConfigBase X))
    → has_key id_of id cs ≡ false
    → any (λ c. c.id == id && p c) cs ≡ false
any-absent p id [] h = refl
any-absent p id (c ∷ cs) h = ground (arith, any-absent p id cs)

-- Where ids are distinct, a test of a package is a test of the one with its id.
pub picked :
    {X : Type 0} (p : ConfigBase X → Bool) (id : String) (cs : List (ConfigBase X))
    (c : ConfigBase X)
    → Unique id_of cs
    → find id_of id cs ≡ some c
    → (count id (config_ids (keep p cs)) ≡ (if p c then 1 else 0))
      × (any (λ d. d.id == id && p d) cs ≡ p c)
picked p id [] c u h = cc
picked p id (d ∷ cs) c u h = elim (Bool-cases (d.id == id)) [
  | inl same ↦
      let e : d.id ≡ id = (==_iff d.id id).0 same in
      let f : d ≡ c = some_inj (rw same at h) in
      let gone : has_key id_of id cs ≡ false = subst (λ k. has_key id_of k cs ≡ false) e u.0 in
      rw (← f) (
        ground (arith, same, count-absent p id cs gone),
        ground (arith, same, any-absent p id cs gone),
      )
  | inr other ↦
      let rest = picked p id cs c u.1 (rw other at h) in
      (ground (arith, other, rest), ground (arith, other, rest))
]

is_nil-of_has_key :
    {X : Type 0} (id : String) (cs : List (ConfigBase X))
    → has_key id_of id cs ≡ true
    → is_nil cs ≡ false
is_nil-of_has_key id [] h = cc
is_nil-of_has_key id (c ∷ cs) h = refl

pub applied :
    {X : Type 0} (s : Store X) (f : Fetched X) (id : String)
    → has_key id_of id f.configs ≡ true
    → apply_catalog_url_fetch_success s f
      ≡ some (written (previous_ids s f) s f, result_of (previous_ids s f) s f)
unfolding apply_catalog_url_fetch_success
applied s f id h = rw (is_nil-of_has_key id f.configs h) refl

pub announcements-step :
    {X : Type 0} (id : String) (s : Store X) (f : Fetched X) (fs : List (Fetched X))
    → has_key id_of id f.configs ≡ true
    → announcements id s (f ∷ fs)
      ≡ count id (config_ids (keep (announces (previous_ids s f) s.configs) f.configs))
        + announcements id (written (previous_ids s f) s f) fs
unfolding announcements
announcements-step id s f fs h = rw (applied s f id h, announcements) refl

-- Whether the store knows the page and that it has the package.
abbrev pub Known : {X : Type 0} → String → String → Store X → Type 0
Known url_key id s = contains id (ids_of (get url_key s.url_cache)) ≡ true

pub previous-of_Known :
    {X : Type 0} (id : String) (s : Store X) (f : Fetched X)
    → Known f.url_key id s
    → contains id (previous_ids s f) ≡ true
unfolding previous_ids
previous-of_Known id s f h = elim (Option-cases (get f.url_key s.url_cache)) [
  | inl e ↦ absurd (false-ne-true (rw e at h))
  | inr (cache, e) ↦ rw e (rw e at h)
]

pub written-Known :
    {X : Type 0} (url_key id : String) (s : Store X) (f : Fetched X)
    → Shows url_key id f
    → Known url_key id (written (previous_ids s f) s f)
unfolding written
written-Known url_key id s f (key, u, has, clock) =
    ap (λ k. contains id (ids_of (get k (written (previous_ids s f) s f).url_cache))) (sym key)
    ∙ ap (λ c. contains id (ids_of c)) (get-insert_self f.url_key _ s.url_cache)
    ∙ contains-config_ids id f.configs
    ∙ has

pub has_key-of_find :
    {X : Type 0} (id : String) (cs : List (ConfigBase X)) (c : ConfigBase X)
    → find id_of id cs ≡ some c
    → has_key id_of id cs ≡ true
has_key-of_find id [] c h = absurd (none-ne-some h)
has_key-of_find id (d ∷ cs) c h = elim (Bool-cases (d.id == id)) [
  | inl same ↦ ground (arith, same)
  | inr other ↦ ground (arith, other, has_key-of_find id cs c (rw other at h))
]

-- The row of a package that the page has.
pub written-row :
    {X : Type 0} (s : Store X) (f : Fetched X) (c : ConfigBase X) (id : String)
    → Unique id_of f.configs
    → find id_of id f.configs ≡ some c
    → get id (written (previous_ids s f) s f).configs
      ≡ some (upserted_row f.fetched_at c (get id s.configs))
unfolding written
written-row s f c id u h =
    get-delist_where (λ k row. contains k (delisted_ids_of (previous_ids s f) f))
      (delist_row f.fetched_at) id (upsert_configs f.fetched_at f.configs s.configs)
    ∙ ap
        (map_some (λ row.
          if contains id (delisted_ids_of (previous_ids s f) f)
          then delist_row f.fetched_at row
          else row))
        (get-upsert_configs f.fetched_at id f.configs s.configs c u h)
    ∙ (rw (contains-delisted id (previous_ids s f) f, has_key-of_find id f.configs c h)
        (ground arith))

-- The announcement of a package is noted.
abbrev pub is_told : {X : Type 0} → Option (ConfigRow X) → Bool
is_told none = false
is_told (some row) =
    is_active row.lifecycle_state
    && is_some (filter_some (λ v. not (is_empty (trim v))) row.listed_event_at)

-- A package that is not announced: not in the catalog, or with no announcement at all.
abbrev pub is_silent : {X : Type 0} → Option (ConfigRow X) → Bool
is_silent none = true
is_silent (some row) = not (is_active row.lifecycle_state && is_some row.listed_event_at)

pub is_told-upserted :
    {X : Type 0} (at : String) (c : ConfigBase X) (old : Option (ConfigRow X))
    → is_told old ≡ true
    → is_told (some (upserted_row at c old)) ≡ true
is_told-upserted at c none h = cc
is_told-upserted at c (some old) h = ground arith

pub first-told :
    {X : Type 0} (at : String) (c : ConfigBase X) (old : Option (ConfigRow X))
    → is_empty (trim at) ≡ false
    → is_silent old ≡ true
    → is_positive c.quantity ≡ true
    → is_told (some (upserted_row at c old)) ≡ true
first-told at c none clock h q = ground arith
first-told at c (some old) clock h q = ground arith

pub still-silent :
    {X : Type 0} (at : String) (c : ConfigBase X) (old : Option (ConfigRow X))
    → is_silent old ≡ true
    → is_positive c.quantity ≡ false
    → is_silent (some (upserted_row at c old)) ≡ true
still-silent at c none h q = ground arith
still-silent at c (some old) h q = ground arith
