-- ===== src/Topology/Refreshed.antt =====
-- src/poller.rs, `refresh_catalog_topology`: the changes that users are told of, and which places
-- are among them. What came is read off the catalog with the topology merged into it, and what went off
-- the topology.
use catnap.Common.{
  String, Bool, true, not, ◌&&◌, ◌≡◌, refl, ap, List, [], ◌∷◌, some, arith, ◌==◌, ==_iff, eq_string,
  eq_pair, contains, map, any, has_key, Bool-cases, inl, inr,
}
use catnap.Catalog.{
  Country, Region, CatalogSnapshot, CatalogTopologySnapshot, catalog_region_key, region_place,
}
use catnap.Topology.Merge.{merge_topology_probe_result}
use catnap.Topology.Changes.{
  RegionTopologyChange, TopologyNotificationChanges, country_ids, region_key, regions_beyond,
  collect_topology_notification_changes,
}

unfoldable pub topology_refresh_changes :
    CatalogSnapshot → CatalogTopologySnapshot → TopologyNotificationChanges
unfolding merge_topology_probe_result collect_topology_notification_changes
topology_refresh_changes previous topology =
    let merged = merge_topology_probe_result previous topology in
    let added = collect_topology_notification_changes previous merged.countries merged.regions in
    let removed =
      collect_topology_notification_changes previous topology.countries topology.regions in
    record {
      added_countries = added.added_countries;
      removed_countries = removed.removed_countries;
      added_regions = added.added_regions;
      removed_regions = removed.removed_regions;
    }

abbrev pub has_country : String → List Country → Bool
has_country id = has_key (λ (c : Country). c.id) id

abbrev pub has_place : String × String → List Region → Bool
has_place place = has_key region_place place

-- A place's key is among those of some regions.
abbrev pub has_region_key : String × String → List Region → Bool
has_region_key place regions =
    contains (catalog_region_key place.0 (some place.1)) (map region_key regions)

pub contains-country_ids :
    (id : String) (cs : List Country) → contains id (country_ids cs) ≡ has_country id cs
contains-country_ids id [] = refl
contains-country_ids id (c ∷ cs) =
    ground (arith, contains-country_ids id cs, ==_iff id c.id, ==_iff c.id id)

key-place :
    (place : String × String) (r : Region)
    → (region_place r == place) ≡ true
    → region_key r ≡ catalog_region_key place.0 (some place.1)
key-place place r h =
    ap (λ (p : String × String). catalog_region_key p.0 (some p.1))
      ((==_iff (region_place r) place).0 h)

pub has_region_key-place :
    (place : String × String) (rs : List Region)
    → has_place place rs ≡ true
    → has_region_key place rs ≡ true
has_region_key-place place [] h = h
has_region_key-place place (r ∷ rs) h = ground (
  arith,
  h,
  key-place place r,
  ==_iff (region_key r) (catalog_region_key place.0 (some place.1)),
  has_region_key-place place rs,
)

pub any-regions_beyond :
    (place : String × String) (others : List Region) (named : List Country) (rs : List Region)
    → any
        (λ (c : RegionTopologyChange). (c.country_id, c.region_id) == place)
        (regions_beyond others named rs)
      ≡ (has_place place rs && not (has_region_key place others))
unfolding regions_beyond
any-regions_beyond place others named [] = refl
any-regions_beyond place others named (r ∷ rs) = elim (Bool-cases (region_place r == place)) [
  | inl same ↦
      rw (key-place place r same) (ground (arith, same, any-regions_beyond place others named rs))
  | inr other ↦ ground (arith, other, any-regions_beyond place others named rs)
]
