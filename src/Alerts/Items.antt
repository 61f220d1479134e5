-- ===== src/Alerts/Items.antt =====
-- src/ops.rs and src/db.rs: the rows of packages as notifications read them.
pub mod Read
use catnap.Common.{
  ℕ, String, Bool, true, false, not, ◌&&◌, ◌||◌, List, [], ◌∷◌, ◌++◌, Option, none, some, ◌==◌,
  eq_string, eq_option, if◌then◌else◌, get, contains, keep, map, map_some, filter_some, trim,
  is_empty, length, insert,
}
use catnap.Catalog.{RegionNotice, CatalogSnapshot, catalog_region_key}
use catnap.Listing.Store.{ConfigBase, ConfigRow, UrlCache, Store}
use catnap.Listing.Apply.{Fetched, ApplyCatalogUrlResult, apply_catalog_url_fetch_success, is_nil}
use catnap.Ops.Reasons.{ReasonCounts, task_freshness_window_seconds, should_emit_lifecycle_notify}
use catnap.Ops.State.{TaskKey, TaskEntry, RuntimeState, eq_task_key}
use catnap.Ops.Worker.{CacheRow, answers_from_cache}
use catnap.Alerts.Texts.{Formats, Money, text}
use catnap.Alerts.Records.{NotificationRecordItemView}
use catnap.Alerts.Lifecycle.{ConfigLifecycleRecord, Readings, Notices, notify_lifecycle_events}
use catnap.Alerts.Audience.{Audience}

-- The columns of a package that are copied, `X`, with the names of its country and region joined.
pub record Columns (X F Z : Type 0) : Type 0 where
  pub name : X → String
  pub price : X → Money F
  pub country_name : X → String
  pub region_name : X → Option String
  pub rest : ConfigRow X → Z

abbrev pub lifecycle_record :
    {X F Z : Type 0} → Columns X F Z → String × ConfigRow X → ConfigLifecycleRecord F
lifecycle_record cols (id, row) = record {
  id = id;
  name = cols.name row.columns;
  price = cols.price row.columns;
  quantity = row.quantity;
}

unfoldable pub load_config_lifecycle_records :
    {X F Z : Type 0}
    → Columns X F Z
    → List String
    → List (String × ConfigRow X)
    → List (String × ConfigLifecycleRecord F)
load_config_lifecycle_records cols ids rows =
    map (λ row. (row.0, lifecycle_record cols row)) (keep (λ row. contains row.0 ids) rows)

-- src/db.rs
abbrev label_parts : String → Option String → Option String
label_parts country none = some country
label_parts country (some region) = some (text (country ∷ " / " ∷ region ∷ []))

unfoldable pub build_partition_label : String → Option String → Option String
build_partition_label country region =
    let name = trim country in
    let part = filter_some (λ v. not (is_empty v)) (map_some trim region) in
    if is_empty name then none else label_parts name part

abbrev pub notification_record_item_view_from_row :
    {X F Z : Type 0} → Columns X F Z → String × ConfigRow X → NotificationRecordItemView F Z
notification_record_item_view_from_row cols (id, row) = record {
  config_id = some id;
  country_name = cols.country_name row.columns;
  region_name = cols.region_name row.columns;
  partition_label =
      build_partition_label (cols.country_name row.columns) (cols.region_name row.columns);
  name = cols.name row.columns;
  price = cols.price row.columns;
  quantity = row.quantity;
  rest = cols.rest row;
}

unfoldable pub load_notification_record_item_map :
    {X F Z : Type 0}
    → Columns X F Z
    → List String
    → List (String × ConfigRow X)
    → List (String × NotificationRecordItemView F Z)
unfolding build_partition_label
load_notification_record_item_map cols ids rows =
    map (λ row. (row.0, notification_record_item_view_from_row cols row))
      (keep (λ row. contains row.0 ids) rows)

-- The ids that the notifications are about.
abbrev pub ids_of_result : ApplyCatalogUrlResult → List String
ids_of_result applied =
    applied.listed_event_ids ++ (applied.listed_pending_zero_stock_ids ++ applied.delisted_ids)

abbrev pub readings_of :
    {X F Z : Type 0}
    → Columns X F Z
    → Option String
    → List String
    → ApplyCatalogUrlResult
    → Store X
    → Readings F Z
readings_of cols label waiters applied s = record {
  partition_label = label;
  config_by_id = load_config_lifecycle_records cols (ids_of_result applied) s.configs;
  item_by_id = load_notification_record_item_map cols (ids_of_result applied) s.configs;
  poller_waiter_user_ids = waiters;
}
