-- ===== src/Topology/Changes.antt =====
-- src/poller.rs, `collect_topology_notification_changes`: what the users are told of a new topology.
use catnap.Common.{
  String, not, ◌&&◌, ◌≡◌, refl, ◌∙◌, List, [], ◌∷◌, some, arith, ◌==◌, ==_iff, eq_string, eq_pair,
  contains, keep, map, any, get, insert, unwrap_or, sort_by, any-sort_by, str_ltb, pair_ltb,
}
use catnap.Catalog.{Country, Region, CatalogSnapshot, catalog_region_key}

-- src/ops.rs
pub record CountryTopologyChange : Type 0 where
  pub id : String
  pub name : String

-- src/ops.rs
pub record RegionTopologyChange : Type 0 where
  pub country_id : String
  pub country_name : String
  pub region_id : String
  pub region_name : String

pub record TopologyNotificationChanges : Type 0 where
  pub added_countries : List CountryTopologyChange
  pub removed_countries : List CountryTopologyChange
  pub added_regions : List RegionTopologyChange
  pub removed_regions : List RegionTopologyChange

abbrev pub country_ids : List Country → List String
country_ids = map (λ c. c.id)

abbrev pub region_key : Region → String
region_key region = catalog_region_key region.country_id (some region.id)

-- The names of a list of countries by id: a later entry of an id replaces an earlier one.
unfoldable pub names_from : List (String × String) → List Country → List (String × String)
names_from names [] = names
names_from names (c ∷ cs) = names_from (insert c.id c.name names) cs

abbrev country_change : Country → CountryTopologyChange
country_change c = record { id = c.id; name = c.name }

-- The countries of one list whose id another does not have, as changes.
unfoldable pub countries_beyond : List Country → List Country → List CountryTopologyChange
countries_beyond others countries =
    map country_change (keep (λ c. not (contains c.id (country_ids others))) countries)

abbrev region_change : List Country → Region → RegionTopologyChange
region_change named region = record {
  country_id = region.country_id;
  country_name = unwrap_or (get region.country_id (names_from [] named)) region.country_id;
  region_id = region.id;
  region_name = region.name;
}

-- The regions of one list whose key another does not have, with the names of their countries.
unfoldable pub regions_beyond : List Region → List Country → List Region → List RegionTopologyChange
regions_beyond others named regions =
    map (region_change named)
      (keep (λ r. not (contains (region_key r) (map region_key others))) regions)

unfoldable pub sort_countries : List CountryTopologyChange → List CountryTopologyChange
sort_countries = sort_by (λ a b. str_ltb a.id b.id)

unfoldable pub sort_regions : List RegionTopologyChange → List RegionTopologyChange
sort_regions = sort_by (λ a b. pair_ltb (a.country_id, a.region_id) (b.country_id, b.region_id))

unfoldable pub collect_topology_notification_changes :
    CatalogSnapshot → List Country → List Region → TopologyNotificationChanges
unfolding countries_beyond regions_beyond sort_countries sort_regions
collect_topology_notification_changes previous next_countries next_regions = record {
  added_countries = sort_countries (countries_beyond previous.countries next_countries);
  removed_countries = sort_countries (countries_beyond next_countries previous.countries);
  added_regions = sort_regions (regions_beyond previous.regions next_countries next_regions);
  removed_regions = sort_regions (regions_beyond next_regions previous.countries previous.regions);
}

pub any-countries_beyond :
    (id : String) (others countries : List Country)
    → any (λ c. c.id == id) (countries_beyond others countries)
      ≡ (any (λ c. c.id == id) countries && not (contains id (country_ids others)))
unfolding countries_beyond
any-countries_beyond id others [] = refl
any-countries_beyond id others (c ∷ cs) =
    ground (arith, any-countries_beyond id others cs, ==_iff c.id id)

any-regions_beyond :
    (k : String) (others : List Region) (named : List Country) (regions : List Region)
    → any
        (λ c. catalog_region_key c.country_id (some c.region_id) == k)
        (regions_beyond others named regions)
      ≡ (any (λ r. region_key r == k) regions && not (contains k (map region_key others)))
unfolding regions_beyond
any-regions_beyond k others named [] = refl
any-regions_beyond k others named (r ∷ rs) =
    ground (arith, any-regions_beyond k others named rs, ==_iff (region_key r) k)

-- The ids and the keys that the four lists have, whatever the order of the catalogs.
changes_exact :
    (previous : CatalogSnapshot) (countries : List Country) (regions : List Region) (id k : String)
    → let changes = collect_topology_notification_changes previous countries regions in
      (any (λ c. c.id == id) changes.added_countries
        ≡ (any (λ c. c.id == id) countries && not (contains id (country_ids previous.countries))))
      × (any (λ c. c.id == id) changes.removed_countries
          ≡ (any (λ c. c.id == id) previous.countries && not (contains id (country_ids countries))))
      × (any (λ c. catalog_region_key c.country_id (some c.region_id) == k) changes.added_regions
          ≡ (any (λ r. region_key r == k) regions
              && not (contains k (map region_key previous.regions))))
      × (any (λ c. catalog_region_key c.country_id (some c.region_id) == k) changes.removed_regions
          ≡ (any (λ r. region_key r == k) previous.regions
              && not (contains k (map region_key regions))))
unfolding collect_topology_notification_changes
changes_exact previous countries regions id k = (
  any-sort_by _ _ (countries_beyond previous.countries countries)
      ∙ any-countries_beyond id previous.countries countries,
  any-sort_by _ _ (countries_beyond countries previous.countries)
      ∙ any-countries_beyond id countries previous.countries,
  any-sort_by _ _ (regions_beyond previous.regions countries regions)
      ∙ any-regions_beyond k previous.regions countries regions,
  any-sort_by _ _ (regions_beyond regions previous.countries previous.regions)
      ∙ any-regions_beyond k regions previous.countries previous.regions,
)
