-- ===== src/Listing/Store.antt =====
-- src/db.rs: the tables that a fetched page is written to. A table with a key is a list of its rows
-- by key. `X` stands for the columns of a package that are copied as they are: country, region, name,
-- specs, price, inventory status and digest.
use catnap.Common.{
  String, Bool, true, false, not, List, Option, none, some, ltb, eq_string, eq_option,
  if◌then◌else◌, ℤ, pos, negsuc,
}

-- src/upstream.rs
pub record ConfigBase (X : Type 0) : Type 0 where
  pub id : String
  pub columns : X
  pub quantity : ℤ
  pub source_pid : Option String
  pub source_fid : Option String
  pub source_gid : Option String

-- `lifecycle_state`, of which these two are ever written.
pub data LifecycleState : Type 0 where
  active delisted : LifecycleState

abbrev pub is_active : LifecycleState → Bool
is_active active = true
is_active delisted = false

-- A row of `catalog_configs`.
pub record ConfigRow (X : Type 0) : Type 0 where
  pub columns : X
  pub quantity : ℤ
  pub checked_at : String
  pub lifecycle_state : LifecycleState
  pub listed_at : Option String
  pub delisted_at : Option String
  pub last_seen_at : Option String
  pub listed_event_at : Option String
  pub source_pid : Option String
  pub source_fid : Option String
  pub source_gid : Option String

-- A row of `catalog_url_cache`, with its ids parsed.
pub record UrlCache : Type 0 where
  pub url : String
  pub config_ids : List String
  pub last_success_at : String
  pub updated_at : String

-- A row of `catalog_region_notices`.
pub record NoticeRow : Type 0 where
  pub country_id : String
  pub region_id : Option String
  pub text : String
  pub updated_at : String

pub record Store (X : Type 0) : Type 0 where
  pub configs : List (String × ConfigRow X)
  pub url_cache : List (String × UrlCache)
  pub notices : List (String × NoticeRow)
  pub archives : List (String × String)
  pub samples : List ((String × String) × ℤ)

abbrev pub is_positive : ℤ → Bool
is_positive (pos n) = ltb 0 n
is_positive (negsuc n) = false

abbrev pub is_zero : ℤ → Bool
is_zero (pos n) = not (ltb 0 n)
is_zero (negsuc n) = false

-- `max(0)`
abbrev pub not_negative : ℤ → ℤ
not_negative (pos n) = pos n
not_negative (negsuc n) = pos 0

-- The time at which a package in stock is announced.
abbrev pub event_at : String → ℤ → Option String
event_at at quantity = if is_positive quantity then some at else none

-- `VALUES (…)` of the upsert.
abbrev pub new_row : {X : Type 0} → String → ConfigBase X → ConfigRow X
new_row at c = record {
  columns = c.columns;
  quantity = c.quantity;
  checked_at = at;
  lifecycle_state = active;
  listed_at = some at;
  delisted_at = none;
  last_seen_at = some at;
  listed_event_at = event_at at c.quantity;
  source_pid = c.source_pid;
  source_fid = c.source_fid;
  source_gid = c.source_gid;
}
