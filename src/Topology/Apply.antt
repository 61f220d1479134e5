-- ===== src/Topology/Apply.antt =====
-- src/poller.rs, `apply_topology_snapshot`: the catalog in memory takes a topology over.
use catnap.Common.{
  String, ◌&&◌, ◌||◌, ◌≡◌, refl, ◌∙◌, List, [], ◌∷◌, ◌++◌, Option, none, some, arith, ◌==◌, ==_iff,
  eq_string, eq_option, eq_pair, contains, keep, map, extend, contains-extend, contains-keep,
  if◌then◌else◌, find, find_last, upsert, upsert_all, find-upsert_all, find-keep, ap, Bool-cases,
  inl, inr,
}
use catnap.Catalog.{
  RegionNotice, CatalogSnapshot, CatalogTopologySnapshot, catalog_region_key, notice_place,
}

abbrev Place : Type 0
Place = String × Option String

-- The places of a topology: each country and each region.
unfoldable pub active_keys : CatalogTopologySnapshot → List Place
active_keys topology =
    map (λ c. (c.id, none)) topology.countries
    ++ map (λ r. (r.country_id, some r.id)) topology.regions

unfoldable pub active_url_keys : CatalogTopologySnapshot → List String
active_url_keys topology = map (λ p. catalog_region_key p.0 p.1) (active_keys topology)

-- A notice of the topology replaces the text of the one at its place, or is pushed.
unfoldable pub set_notice : List RegionNotice → RegionNotice → List RegionNotice
set_notice [] n = n ∷ []
set_notice (x ∷ xs) n =
    if notice_place x == notice_place n
    then record x { text = n.text } ∷ xs
    else x ∷ set_notice xs n

unfoldable pub set_notices : List RegionNotice → List RegionNotice → List RegionNotice
set_notices notices [] = notices
set_notices notices (n ∷ ns) = set_notices (set_notice notices n) ns

unfoldable pub apply_topology_snapshot :
    CatalogSnapshot → CatalogTopologySnapshot → String → CatalogSnapshot
apply_topology_snapshot snap topology source_url = record snap {
  countries = topology.countries;
  regions = topology.regions;
  region_notices =
      set_notices (keep (λ n. contains (notice_place n) (active_keys topology)) snap.region_notices)
        topology.region_notices;
  region_notice_initialized_keys =
      extend
        (keep (λ key. contains key (active_url_keys topology)) snap.region_notice_initialized_keys)
        topology.region_notice_initialized_keys;
  source_url = source_url;
  topology_refreshed_at = some topology.refreshed_at;
  topology_request_count = topology.request_count;
  topology_status = "success";
  topology_message = none;
}

text-at_place :
    (x n : RegionNotice) → notice_place x ≡ notice_place n → record x { text = n.text } ≡ n
text-at_place x n h = grind arith

set_notice-upsert :
    (notices : List RegionNotice) (n : RegionNotice)
    → set_notice notices n ≡ upsert notice_place notices n
unfolding set_notice upsert
set_notice-upsert [] n = refl
set_notice-upsert (x ∷ xs) n = elim (Bool-cases (notice_place x == notice_place n)) [
  | inl same ↦
      rw (same, set_notice)
        (ap (λ y. y ∷ xs) (text-at_place x n ((==_iff (notice_place x) (notice_place n)).0 same)))
  | inr other ↦ rw (other, set_notice) (ap (λ ys. x ∷ ys) (set_notice-upsert xs n))
]

set_notices-upsert_all :
    (notices ns : List RegionNotice) → set_notices notices ns ≡ upsert_all notice_place notices ns
unfolding set_notices upsert_all
set_notices-upsert_all notices [] = refl
set_notices-upsert_all notices (n ∷ ns) =
    set_notices-upsert_all (set_notice notices n) ns
    ∙ ap (λ xs. upsert_all notice_place xs ns) (set_notice-upsert notices n)

-- After a topology is applied, a place shows the topology's last notice for it; else the notice it
-- had, if the place is a country or a region of the topology; else none. A notice counts as
-- initialised exactly where the topology read it, or where it was before and the place remains.
pub applied_notices :
    (snap : CatalogSnapshot) (topology : CatalogTopologySnapshot) (source_url : String)
    (place : Place) (key : String)
    → let applied = apply_topology_snapshot snap topology source_url in
      (find notice_place place applied.region_notices
        ≡ find_last notice_place place topology.region_notices (
            if contains place (active_keys topology)
            then find notice_place place snap.region_notices
            else none))
      × (contains key applied.region_notice_initialized_keys ≡ (
          (contains key snap.region_notice_initialized_keys
            && contains key (active_url_keys topology))
          || contains key topology.region_notice_initialized_keys))
unfolding apply_topology_snapshot
applied_notices snap topology source_url place key =
    let kept = keep (λ n. contains (notice_place n) (active_keys topology)) snap.region_notices in
    (
      ap (find notice_place place) (set_notices-upsert_all kept topology.region_notices)
          ∙ find-upsert_all notice_place place kept topology.region_notices
          ∙ ap (find_last notice_place place topology.region_notices)
              (find-keep notice_place place (active_keys topology) snap.region_notices),
      contains-extend key _ topology.region_notice_initialized_keys
          ∙ (rw (
              contains-keep key (λ key. contains key (active_url_keys topology))
                snap.region_notice_initialized_keys)),
    )
