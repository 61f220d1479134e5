-- ===== src/Topology/Targets.antt =====
-- src/poller.rs: the targets that are fetched, `build_added_topology_targets`,
-- `catalog_targets_from_snapshot` and `known_catalog_targets`.
use catnap.Common.{
  String, Bool, false, not, ◌&&◌, ◌||◌, ◌≡◌, refl, List, [], ◌∷◌, ◌++◌, Option, none, some, arith,
  ◌==◌, ==_iff, eq_string, contains, keep, map, any, Unique, has_key, dedup, dedup-Unique,
  has_key-dedup, any-append, any-map,
}
use catnap.Catalog.{Country, Region, CatalogSnapshot, catalog_region_key}
use catnap.Topology.Changes.{CountryTopologyChange, RegionTopologyChange}

abbrev pub Target : Type 0
Target = String × Option String

abbrev pub target_key : Target → String
target_key target = catalog_region_key target.0 target.1

abbrev country_target : CountryTopologyChange → Target
country_target country = (country.id, none)

abbrev region_target : RegionTopologyChange → Target
region_target region = (region.country_id, some region.region_id)

-- The two loops share what they have seen: one pass over the countries and then the regions.
unfoldable pub build_added_topology_targets :
    List CountryTopologyChange → List RegionTopologyChange → List Target
build_added_topology_targets added_countries added_regions =
    dedup target_key [] (map country_target added_countries ++ map region_target added_regions)

abbrev pub region_targets : List Region → List Target
region_targets [] = []
region_targets (r ∷ rs) = (r.country_id, some r.id) ∷ region_targets rs

abbrev pub countries_with_regions : List Region → List String
countries_with_regions = map (λ r. r.country_id)

abbrev country_page : Country → Target
country_page c = (c.id, none)

abbrev country_pages : List String → List Country → List Target
country_pages with_regions countries =
    map country_page (keep (λ c. not (contains c.id with_regions)) countries)

-- Each region, and each country that has none.
unfoldable pub catalog_targets_from_snapshot : CatalogSnapshot → List Target
catalog_targets_from_snapshot snapshot =
    region_targets snapshot.regions
    ++ country_pages (countries_with_regions snapshot.regions) snapshot.countries

-- From the task keys and the known targets that the database lists, and the snapshot.
unfoldable pub known_catalog_targets : List Target → List Target → CatalogSnapshot → List Target
known_catalog_targets task_keys known snapshot =
    dedup target_key [] ((task_keys ++ known) ++ catalog_targets_from_snapshot snapshot)

-- A discovery round asks for each known URL once: no two targets have one key, and a key is listed
-- exactly when the database's task keys, its known targets or the snapshot's targets have it.
pub known_targets_exact :
    (task_keys known : List Target) (snapshot : CatalogSnapshot) (k : String)
    → let targets = known_catalog_targets task_keys known snapshot in
      Unique target_key targets
      × (has_key target_key k targets ≡ (
          has_key target_key k task_keys
          || has_key target_key k known
          || has_key target_key k (catalog_targets_from_snapshot snapshot)))
unfolding known_catalog_targets
known_targets_exact task_keys known snapshot k =
    let all = (task_keys ++ known) ++ catalog_targets_from_snapshot snapshot in
    (
      dedup-Unique target_key [] all,
      ground (
        arith,
        has_key-dedup target_key k [] all,
        any-append (λ t. target_key t == k) (task_keys ++ known)
            (catalog_targets_from_snapshot snapshot),
        any-append (λ t. target_key t == k) task_keys known,
      ),
    )

-- The targets of a prefetch have distinct keys, and cover each added country and region.
added_targets_exact :
    (countries : List CountryTopologyChange) (regions : List RegionTopologyChange) (k : String)
    → let targets = build_added_topology_targets countries regions in
      Unique target_key targets
      × (has_key target_key k targets ≡ (
          any (λ c. catalog_region_key c.id none == k) countries
          || any (λ r. catalog_region_key r.country_id (some r.region_id) == k) regions))
unfolding build_added_topology_targets
added_targets_exact countries regions k =
    let all = map country_target countries ++ map region_target regions in
    (
      dedup-Unique target_key [] all,
      ground (
        arith,
        has_key-dedup target_key k [] all,
        any-append (λ t. target_key t == k) (map country_target countries)
            (map region_target regions),
        any-map (λ t. target_key t == k) country_target countries,
        any-map (λ t. target_key t == k) region_target regions,
      ),
    )

abbrev pub is_whole_country : String → Target → Bool
is_whole_country id (fid, none) = fid == id
is_whole_country id (fid, some gid) = false

abbrev pub is_region_of : String → String → Target → Bool
is_region_of id region (fid, none) = false
is_region_of id region (fid, some gid) = fid == id && gid == region

any-region_targets :
    (id region : String) (regions : List Region)
    → (any (is_whole_country id) (region_targets regions) ≡ false)
      × (any (is_region_of id region) (region_targets regions)
          ≡ any (λ r. r.country_id == id && r.id == region) regions)
any-region_targets id region [] = (refl, refl)
any-region_targets id region (r ∷ rs) = ground (arith, any-region_targets id region rs)

any-whole_countries :
    (id region : String) (with_regions : List String) (countries : List Country)
    → let targets = country_pages with_regions countries in
      (any (is_whole_country id) targets
        ≡ (any (λ c. c.id == id) countries && not (contains id with_regions)))
      × (any (is_region_of id region) targets ≡ false)
any-whole_countries id region with_regions [] = (refl, refl)
any-whole_countries id region with_regions (c ∷ cs) =
    ground (arith, any-whole_countries id region with_regions cs, ==_iff c.id id)

-- A snapshot's targets are its regions, and the countries that have no region: a country's own page
-- is a target exactly when the country is listed and no region names it.
snapshot_targets_exact :
    (snapshot : CatalogSnapshot) (id region : String)
    → let targets = catalog_targets_from_snapshot snapshot in
      (any (is_whole_country id) targets ≡ (
        any (λ c. c.id == id) snapshot.countries
        && not (contains id (countries_with_regions snapshot.regions))))
      × (any (is_region_of id region) targets
          ≡ any (λ r. r.country_id == id && r.id == region) snapshot.regions)
unfolding catalog_targets_from_snapshot
snapshot_targets_exact snapshot id region = ground (
  arith,
  any-append (is_whole_country id) (region_targets snapshot.regions)
      (country_pages (countries_with_regions snapshot.regions) snapshot.countries),
  any-append (is_region_of id region) (region_targets snapshot.regions)
      (country_pages (countries_with_regions snapshot.regions) snapshot.countries),
  any-region_targets id region snapshot.regions,
  any-whole_countries id region (countries_with_regions snapshot.regions) snapshot.countries,
)
