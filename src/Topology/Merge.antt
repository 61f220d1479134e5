-- ===== src/Topology/Merge.antt =====
-- src/poller.rs, `merge_topology_probe_result`: a probe adds to the catalog and removes nothing.
use catnap.Common.{
  String, ◌≡◌, Option, eq_string, eq_option, eq_pair, find, find_last, upsert_all, find-upsert_all,
  upsert_all-Unique, Unique, extend,
}
use catnap.Catalog.{Country, CatalogSnapshot, CatalogTopologySnapshot, region_place, notice_place}

unfoldable pub merge_topology_probe_result :
    CatalogSnapshot → CatalogTopologySnapshot → CatalogTopologySnapshot
merge_topology_probe_result previous topology = record {
  countries = upsert_all (λ (c : Country). c.id) previous.countries topology.countries;
  regions = upsert_all region_place previous.regions topology.regions;
  region_notices = upsert_all notice_place previous.region_notices topology.region_notices;
  region_notice_initialized_keys =
      extend previous.region_notice_initialized_keys topology.region_notice_initialized_keys;
  ambiguous_country_ids = topology.ambiguous_country_ids;
  refreshed_at = topology.refreshed_at;
  request_count = topology.request_count;
}

-- What the merged topology gives for an id or a place is the last entry of the probe for it, or
-- else the one known before: a probe never takes a country, a region or a notice away.
merge_lookup :
    (previous : CatalogSnapshot) (topology : CatalogTopologySnapshot) (id : String)
    (place : String × String) (notice : String × Option String)
    → let merged = merge_topology_probe_result previous topology in
      (find (λ (c : Country). c.id) id merged.countries
        ≡ find_last
            (λ (c : Country). c.id)
            id
            topology.countries
            (find (λ (c : Country). c.id) id previous.countries))
      × (find region_place place merged.regions
          ≡ find_last region_place place topology.regions
              (find region_place place previous.regions))
      × (find notice_place notice merged.region_notices
          ≡ find_last notice_place notice topology.region_notices
              (find notice_place notice previous.region_notices))
unfolding merge_topology_probe_result
merge_lookup previous topology id place notice = (
  find-upsert_all (λ (c : Country). c.id) id previous.countries topology.countries,
  find-upsert_all region_place place previous.regions topology.regions,
  find-upsert_all notice_place notice previous.region_notices topology.region_notices,
)

-- A probe keeps ids and places distinct, whether or not its own lists repeat them.
merge-Unique :
    (previous : CatalogSnapshot) (topology : CatalogTopologySnapshot)
    → Unique (λ (c : Country). c.id) previous.countries
    → Unique region_place previous.regions
    → let merged = merge_topology_probe_result previous topology in
      Unique (λ (c : Country). c.id) merged.countries × Unique region_place merged.regions
unfolding merge_topology_probe_result
merge-Unique previous topology h k = (
  upsert_all-Unique (λ (c : Country). c.id) previous.countries topology.countries h,
  upsert_all-Unique region_place previous.regions topology.regions k,
)
