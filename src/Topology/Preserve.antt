-- ===== src/Topology/Preserve.antt =====
-- src/poller.rs, `preserve_ambiguous_country_regions`: a country whose page could not be read with
-- certainty keeps the regions and notices that are known of it.
pub mod Regions
use catnap.Common.{
  String, Bool, true, false, not, ◌&&◌, ◌||◌, ◌≡◌, refl, ◌∙◌, List, [], ◌∷◌, ◌++◌, Option, none,
  some, arith, ◌==◌, ==_iff, ==_refl, eq_string, eq_option, eq_pair, contains, keep, map, any, add,
  extend, if◌then◌else◌, any-append, is_empty, Bool-cases, inl, inr,
}
use catnap.Catalog.{
  Region, RegionNotice, CatalogSnapshot, CatalogTopologySnapshot, catalog_region_key, notice_place,
  region_place,
}

abbrev pub regions_of : String → List Region → List Region
regions_of country_id = keep (λ r. r.country_id == country_id)

-- The loop over the previous regions: a region is pushed unless its id is there.
unfoldable pub push_missing_regions : List String → List Region → List Region → List Region
push_missing_regions ids regions [] = regions
push_missing_regions ids regions (r ∷ previous) =
    push_missing_regions (if contains r.id ids then ids else r.id ∷ ids)
      (if contains r.id ids then regions else regions ++ r ∷ []) previous

abbrev region_url_key : Region → String
region_url_key r = catalog_region_key r.country_id (some r.id)

-- The keys of the country and of its previous regions.
abbrev preserved_url_keys : String → List Region → List String
preserved_url_keys country_id previous =
    catalog_region_key country_id none ∷ map region_url_key previous

-- The loop over the previous notices of the country.
unfoldable pub push_missing_notices :
    List String → List RegionNotice → List RegionNotice → List RegionNotice
push_missing_notices keys notices [] = notices
push_missing_notices keys notices (n ∷ previous) =
    push_missing_notices keys
      (if contains (catalog_region_key n.country_id n.region_id) keys
          && not (any (λ current. notice_place current == notice_place n) notices)
        then notices ++ n ∷ []
        else notices)
      previous

-- One country that has previous regions.
unfoldable pub preserve_country :
    CatalogSnapshot → String → CatalogTopologySnapshot → CatalogTopologySnapshot
preserve_country previous country_id topology =
    let known = regions_of country_id previous.regions in
    let keys = preserved_url_keys country_id known in
    record topology {
      regions =
          push_missing_regions (map (λ r. r.id) (regions_of country_id topology.regions))
            topology.regions known;
      region_notices =
          push_missing_notices keys topology.region_notices
            (keep (λ n. n.country_id == country_id) previous.region_notices);
      region_notice_initialized_keys =
          extend topology.region_notice_initialized_keys
            (keep (λ key. contains key keys) previous.region_notice_initialized_keys);
    }

abbrev pub no_regions : List Region → Bool
no_regions [] = true
no_regions (r ∷ rs) = false

-- The loop over the ambiguous countries, with the ids preserved so far.
unfoldable pub preserve_from :
    CatalogSnapshot
    → List String
    → CatalogTopologySnapshot
    → List String
    → CatalogTopologySnapshot × List String
preserve_from previous preserved topology [] = (topology, preserved)
preserve_from previous preserved topology (country_id ∷ ids) =
    let skip = no_regions (regions_of country_id previous.regions) in
    preserve_from previous (if skip then preserved else preserved ++ country_id ∷ [])
      (if skip then topology else preserve_country previous country_id topology) ids

unfoldable pub preserve_ambiguous_country_regions :
    CatalogTopologySnapshot → CatalogSnapshot → CatalogTopologySnapshot × List String
preserve_ambiguous_country_regions topology previous =
    preserve_from previous [] topology topology.ambiguous_country_ids
