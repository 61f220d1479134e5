-- ===== src/Alerts/Places/Refreshed.antt =====
-- Who is told of what a refresh of the topology changed.
use catnap.Common.{
  ◌≤◌, ltb, String, Bool, not, ◌&&◌, ◌≡◌, refl, ap, ◌∙◌, List, [], ◌∷◌, none, ◌==◌, eq_string,
  eq_pair, map, any, count, any-sort_by, has_key-upsert_all, arith,
}
use catnap.Catalog.{Country, CatalogSnapshot, CatalogTopologySnapshot, region_place}
use catnap.Topology.Merge.{merge_topology_probe_result}
use catnap.Topology.Changes.{
  CountryTopologyChange, RegionTopologyChange, TopologyNotificationChanges, countries_beyond,
  regions_beyond, any-countries_beyond, sort_countries, sort_regions,
}
use catnap.Topology.Refreshed.{
  topology_refresh_changes, has_country, has_place, has_region_key, contains-country_ids,
  has_region_key-place, any-regions_beyond,
}
use catnap.Alerts.Texts.{Formats}
use catnap.Alerts.Audience.{monitoring_partition_key}
use catnap.Alerts.Told.{when}
use catnap.Alerts.Places.{
  region_added, region_removed, partition_added, partition_removed, PlaceAudience, PlaceReadings,
  wants_regions, notify_topology_changes,
}
use catnap.Alerts.Places.Told.{placed, has_place_row, country_place, topology_told}

ltb-count :
    {A : Type 0} (b : Bool) (place : String × String) (key : A → String × String) (xs : List A)
    → ltb 0 (when b (count place (map key xs))) ≡ (b && any (λ x. key x == place) xs)
ltb-count b place key [] = ground arith
ltb-count b place key (x ∷ xs) = ground (arith, ltb-count b place key xs)

any-country_place :
    (id : String) (xs : List CountryTopologyChange)
    → any (λ c. country_place c == (id, "")) xs ≡ any (λ c. c.id == id) xs
any-country_place id [] = refl
any-country_place id (x ∷ xs) = ground (arith, any-country_place id xs)

module _ (previous : CatalogSnapshot) (topology : CatalogTopologySnapshot) where
  abbrev changes : TopologyNotificationChanges
  changes = topology_refresh_changes previous topology

  abbrev merged : CatalogTopologySnapshot
  merged = merge_topology_probe_result previous topology

  any-added_countries :
      (id : String)
      → any (λ c. country_place c == (id, "")) changes.added_countries
        ≡ (has_country id topology.countries && not (has_country id previous.countries))
  unfolding topology_refresh_changes merge_topology_probe_result sort_countries
  any-added_countries id =
      any-country_place id changes.added_countries
      ∙ any-sort_by _ _ (countries_beyond previous.countries merged.countries)
      ∙ any-countries_beyond id previous.countries merged.countries
      ∙ ground (
        arith,
        contains-country_ids id previous.countries,
        has_key-upsert_all (λ (c : Country). c.id) id previous.countries topology.countries,
      )

  any-removed_countries :
      (id : String)
      → any (λ c. country_place c == (id, "")) changes.removed_countries
        ≡ (has_country id previous.countries && not (has_country id topology.countries))
  unfolding topology_refresh_changes sort_countries
  any-removed_countries id =
      any-country_place id changes.removed_countries
      ∙ any-sort_by _ _ (countries_beyond topology.countries previous.countries)
      ∙ any-countries_beyond id topology.countries previous.countries
      ∙ ground (arith, contains-country_ids id topology.countries)

  any-added_regions :
      (place : String × String)
      → any
          (λ (c : RegionTopologyChange). (c.country_id, c.region_id) == place)
          changes.added_regions
        ≡ (has_place place topology.regions && not (has_region_key place previous.regions))
  unfolding topology_refresh_changes merge_topology_probe_result sort_regions
  any-added_regions place =
      any-sort_by _ _ (regions_beyond previous.regions merged.countries merged.regions)
      ∙ any-regions_beyond place previous.regions merged.countries merged.regions
      ∙ ground (
        arith,
        has_region_key-place place previous.regions,
        has_key-upsert_all region_place place previous.regions topology.regions,
      )

  any-removed_regions :
      (place : String × String)
      → any
          (λ (c : RegionTopologyChange). (c.country_id, c.region_id) == place)
          changes.removed_regions
        ≡ (has_place place previous.regions && not (has_region_key place topology.regions))
  unfolding topology_refresh_changes sort_regions
  any-removed_regions place =
      any-sort_by _ _ (regions_beyond topology.regions previous.countries previous.regions)
      ∙ any-regions_beyond place topology.regions previous.countries previous.regions

-- Where a user has settings at most once, a refresh tells them of a country exactly where they asked
-- for changes of countries and its id is in one of the old catalog and the new topology and not in the
-- other, as added or as removed; and of a region so where they asked for changes of regions and follow
-- its country, and its key is not in the other.
pub refresh_tells :
    {F Z : Type 0} (f : Formats F) (a : PlaceAudience) (r : PlaceReadings F Z)
    (previous : CatalogSnapshot) (topology : CatalogTopologySnapshot) (user country region : String)
    → count user (map (λ row. row.0.user_id) a.settings) ≤ 1
    → let notices = notify_topology_changes f a r (topology_refresh_changes previous topology) in
      let site = has_place_row user (λ row. row.1.0) a in
      let follows =
        has_place_row user (wants_regions a (monitoring_partition_key country none)) a in
      (ltb 0 (placed region_added user (country, "") notices) ≡ (
        site
        && (has_country country topology.countries
            && not (has_country country previous.countries))))
      × (ltb 0 (placed region_removed user (country, "") notices) ≡ (
          site
          && (has_country country previous.countries
              && not (has_country country topology.countries))))
      × (ltb 0 (placed partition_added user (country, region) notices) ≡ (
          follows
          && (has_place (country, region) topology.regions
              && not (has_region_key (country, region) previous.regions))))
      × (ltb 0 (placed partition_removed user (country, region) notices) ≡ (
          follows
          && (has_place (country, region) previous.regions
              && not (has_region_key (country, region) topology.regions))))
refresh_tells f a r previous topology user country region rows =
    let changes = topology_refresh_changes previous topology in
    let site = has_place_row user (λ row. row.1.0) a in
    let follows = has_place_row user (wants_regions a (monitoring_partition_key country none)) a in
    let (came, went, opened, closed) = topology_told f a r changes user country region rows in
    (
      ap (ltb 0) came
          ∙ ltb-count site (country, "") country_place changes.added_countries
          ∙ ap (λ b. site && b) (any-added_countries previous topology country),
      ap (ltb 0) went
          ∙ ltb-count site (country, "") country_place changes.removed_countries
          ∙ ap (λ b. site && b) (any-removed_countries previous topology country),
      ap (ltb 0) opened
          ∙ ltb-count follows (country, region) (λ c. (c.country_id, c.region_id))
              changes.added_regions
          ∙ ap (λ b. follows && b) (any-added_regions previous topology (country, region)),
      ap (ltb 0) closed
          ∙ ltb-count follows (country, region) (λ c. (c.country_id, c.region_id))
              changes.removed_regions
          ∙ ap (λ b. follows && b) (any-removed_regions previous topology (country, region)),
    )
