-- ===== src/Topology/Examples.antt =====
-- The catalog's theorems at a small catalog: two countries, of which one has a region.
use catnap.Common.{
  true, false, ◌&&◌, ◌||◌, ◌≡◌, [], ◌∷◌, none, some, eq_string, eq_option, eq_pair, contains, find,
  Unique, has_key,
}
use catnap.Catalog.{
  Country, Region, RegionNotice, CatalogSnapshot, CatalogTopologySnapshot, catalog_region_key,
  notice_place,
}
use catnap.Topology.Targets.{
  target_key, catalog_targets_from_snapshot, known_catalog_targets, known_targets_exact,
}
use catnap.Topology.Preserve.{preserve_ambiguous_country_regions}
use catnap.Topology.Preserve.Regions.{has_region, preserved_regions_exact}
use catnap.Topology.Apply.{active_keys, active_url_keys, apply_topology_snapshot, applied_notices}

abbrev japan : Country
japan = record { id = "7"; name = "Japan" }

abbrev france : Country
france = record { id = "2"; name = "France" }

abbrev tokyo : Region
tokyo = record { country_id = "7"; id = "3"; name = "Tokyo"; location_name = none }

abbrev tokyo_notice : RegionNotice
tokyo_notice = record { country_id = "7"; region_id = some "3"; text = "Restocking" }

abbrev before : CatalogSnapshot
before = record {
  countries = japan ∷ [];
  regions = tokyo ∷ [];
  region_notices = tokyo_notice ∷ [];
  region_notice_initialized_keys = "7:3" ∷ [];
  fetched_at = "2026-01-01T00:00:00Z";
  source_url = "https://shop.example/cart";
  topology_refreshed_at = none;
  topology_request_count = 0;
  topology_status = "idle";
  topology_message = none;
}

-- A topology in which Japan's page could not be read with certainty.
abbrev fetched : CatalogTopologySnapshot
fetched = record {
  countries = japan ∷ france ∷ [];
  regions = [];
  region_notices = [];
  region_notice_initialized_keys = "2:0" ∷ [];
  ambiguous_country_ids = "7" ∷ [];
  refreshed_at = "2026-01-02T00:00:00Z";
  request_count = 3;
}

tokyo_preserved :
    has_region "7" "3" (preserve_ambiguous_country_regions fetched before).0.regions ≡ true
tokyo_preserved = preserved_regions_exact before fetched "7" "3"

preserved_regions_exact_example :
    has_region "7" "3" (preserve_ambiguous_country_regions fetched before).0.regions ≡ (
      has_region "7" "3" fetched.regions
      || (contains "7" fetched.ambiguous_country_ids && has_region "7" "3" before.regions))
preserved_regions_exact_example = preserved_regions_exact before fetched "7" "3"

applied_notices_example :
    let applied = apply_topology_snapshot before fetched "https://shop.example/cart" in
    (find notice_place ("7", some "3") applied.region_notices ≡ none)
    × (contains "7:3" applied.region_notice_initialized_keys ≡ false)
unfolding active_keys active_url_keys catalog_region_key
applied_notices_example =
    applied_notices before fetched "https://shop.example/cart" ("7", some "3") "7:3"

known_targets_exact_example :
    let targets = known_catalog_targets [] (("7", some "3") ∷ []) before in
    Unique target_key targets
    × (has_key target_key "7:3" targets ≡ (
        has_key target_key "7:3" []
        || has_key target_key "7:3" (("7", some "3") ∷ [])
        || has_key target_key "7:3" (catalog_targets_from_snapshot before)))
known_targets_exact_example = known_targets_exact [] (("7", some "3") ∷ []) before "7:3"
