-- ===== src/Catalog.antt =====
-- src/models.rs and src/upstream.rs: the catalog's countries, regions and notices, and the two
-- snapshots of it. A `HashSet` is a list of its elements.
use catnap.Common.{ℕ, String, String-append, List, [], Option, none, unwrap_or}

pub record Country : Type 0 where
  pub id : String
  pub name : String

pub record Region : Type 0 where
  pub id : String
  pub country_id : String
  pub name : String
  pub location_name : Option String

pub record RegionNotice : Type 0 where
  pub country_id : String
  pub region_id : Option String
  pub text : String

-- `CatalogSnapshot` without its configs.
pub record CatalogSnapshot : Type 0 where
  pub countries : List Country
  pub regions : List Region
  pub region_notices : List RegionNotice
  pub region_notice_initialized_keys : List String
  pub fetched_at : String
  pub source_url : String
  pub topology_refreshed_at : Option String
  pub topology_request_count : ℕ
  pub topology_status : String
  pub topology_message : Option String

pub record CatalogTopologySnapshot : Type 0 where
  pub countries : List Country
  pub regions : List Region
  pub region_notices : List RegionNotice
  pub region_notice_initialized_keys : List String
  pub ambiguous_country_ids : List String
  pub refreshed_at : String
  pub request_count : ℕ

-- `format!("{fid}:{}", gid.unwrap_or("0"))`
unfoldable pub catalog_region_key : String → Option String → String
catalog_region_key fid gid = String-append fid (String-append ":" (unwrap_or gid "0"))

-- `CatalogSnapshot::empty` at the time given.
unfoldable pub empty_snapshot : String → String → CatalogSnapshot
empty_snapshot now source_url = record {
  countries = [];
  regions = [];
  region_notices = [];
  region_notice_initialized_keys = [];
  fetched_at = now;
  source_url = source_url;
  topology_refreshed_at = none;
  topology_request_count = 0;
  topology_status = "idle";
  topology_message = none;
}

abbrev pub region_place : Region → String × String
region_place region = (region.country_id, region.id)

abbrev pub notice_place : RegionNotice → String × Option String
notice_place notice = (notice.country_id, notice.region_id)
