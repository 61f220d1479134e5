-- ===== src/Listing/Examples.antt =====
-- The stored packages at a concrete page.
use catnap.Common.{
  ℕ, String, true, false, ◌≡◌, refl, [], ◌∷◌, none, some, eq_string, eq_option, get, insert,
  contains, pos, dedup, trim, trim_start, trim_end, is_whitespace,
}
use catnap.Catalog.{catalog_region_key}
use catnap.Listing.Store.{ConfigBase, Store}
use catnap.Listing.Apply.{
  Fetched, previous_ids, apply_catalog_url_fetch_success, written, result_of,
  retire_catalog_targets, upsert_configs, delist_where,
}
use catnap.Listing.Exact.{is_listed, ids_of, applied_exact}
use catnap.Listing.Announced.{announcements, Shows, is_silent}
use catnap.Listing.Announced.Once.{announced_once}
use catnap.Listing.Retired.{retired_exact}

-- A package of a page, with its name as the copied columns.
abbrev box : ℕ → ConfigBase String
box quantity = record {
  id = "box";
  columns = "Box";
  quantity = pos quantity;
  source_pid = some "9";
  source_fid = some "7";
  source_gid = none;
}

abbrev page : ℕ → String → Fetched String
page quantity at = record {
  fid = "7";
  gid = none;
  url_key = "7:0";
  url = "https://shop.example/cart?fid=7";
  configs = box quantity ∷ [];
  region_notice = none;
  empty_result_authoritative = false;
  fetched_at = at;
  ts_minute = none;
}

abbrev empty_store : Store String
empty_store = record { configs = []; url_cache = []; notices = []; archives = []; samples = [] }

abbrev filled : Store String
filled = written [] empty_store (page 2 "t1")

box_is_new : contains "box" (previous_ids empty_store (page 0 "t")) ≡ false
unfolding previous_ids get
box_is_new = refl

box_is_silent : is_silent (get "box" empty_store.configs) ≡ true
unfolding get
box_is_silent = refl

page_listed : (quantity : ℕ) → Shows "7:0" "box" (page quantity "t")
unfolding trim trim_start trim_end is_whitespace
page_listed quantity = (refl, (refl, tt), refl, refl)

announced_once_example :
    announcements "box" empty_store (page 0 "t" ∷ page 3 "t" ∷ page 0 "t" ∷ page 5 "t" ∷ []) ≡ 1
announced_once_example =
    announced_once "7:0" "box" empty_store (page 0 "t") (page 3 "t" ∷ page 0 "t" ∷ page 5 "t" ∷ [])
      (page_listed 0) (page_listed 3, (page_listed 0, (page_listed 5, tt))) box_is_new box_is_silent

first_fetch_applies :
    apply_catalog_url_fetch_success empty_store (page 2 "t1")
    ≡ some (filled, result_of [] empty_store (page 2 "t1"))
unfolding apply_catalog_url_fetch_success previous_ids get
first_fetch_applies = refl

applied_exact_example :
    let result = result_of [] empty_store (page 2 "t1") in
    (contains "box" result.listed_ids ≡ true)
    × (contains "box" result.delisted_ids ≡ false)
    × (is_listed (get "box" filled.configs) ≡ true)
    × (ids_of (get "7:0" filled.url_cache) ≡ "box" ∷ [])
unfolding previous_ids get
applied_exact_example =
    applied_exact empty_store (page 2 "t1") filled (result_of [] empty_store (page 2 "t1")) "box"
      first_fetch_applies

retired_exact_example :
    let after = (retire_catalog_targets "t2" (("7", none) ∷ []) filled).0 in
    (is_listed (get "box" after.configs) ≡ false) × (get "7:0" after.url_cache ≡ none)
unfolding get written upsert_configs insert delist_where dedup catalog_region_key
retired_exact_example = retired_exact "t2" (("7", none) ∷ []) filled "box" "7:0"
