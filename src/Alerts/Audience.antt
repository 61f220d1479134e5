-- ===== src/Alerts/Audience.antt =====
-- src/ops.rs and src/db.rs: the users that a run may tell, and the label of its partition.
use catnap.Common.{
  String, Bool, false, ◌&&◌, List, [], ◌∷◌, Option, none, some, eq_string, eq_option, eq_pair, get,
  keep, map, any, trim, unwrap_or,
}
use catnap.Alerts.Texts.{text}
use catnap.Alerts.Records.{NotificationDeliveryTarget}

-- A row of `settings`: the target of its user, and `monitoring_events_partition_catalog_change_enabled`.
-- Then what a user monitors, packages and partitions, with whether it is enabled.
pub record Audience : Type 0 where
  pub settings : List (NotificationDeliveryTarget × Bool)
  pub monitoring_configs : List ((String × String) × Bool)
  pub monitoring_partitions : List ((String × String) × Bool)

-- src/db.rs
unfoldable pub monitoring_partition_key : String → Option String → String
monitoring_partition_key fid gid = text (trim fid ∷ "::" ∷ trim (unwrap_or gid "") ∷ [])

abbrev pub is_monitored : Audience → String → String → Bool
is_monitored a user id = unwrap_or (get (user, id) a.monitoring_configs) false

abbrev pub in_scope : Audience → String → NotificationDeliveryTarget × Bool → Bool
in_scope a partition_key row =
    row.1 && unwrap_or (get (row.0.user_id, partition_key) a.monitoring_partitions) false

-- The query of `notify_lifecycle_events`, `load_monitored_delivery_targets` and
-- `load_enabled_monitoring_ids`.
unfoldable pub scope_targets : Audience → String → List NotificationDeliveryTarget
scope_targets a partition_key = map (λ row. row.0) (keep (in_scope a partition_key) a.settings)

unfoldable pub load_monitored_delivery_targets :
    Audience → List String → List NotificationDeliveryTarget
load_monitored_delivery_targets a ids =
    map (λ row. row.0) (keep (λ row. any (is_monitored a row.0.user_id) ids) a.settings)

abbrev pub load_enabled_monitoring_ids : Audience → String → List String → List String
load_enabled_monitoring_ids a user ids = keep (is_monitored a user) ids

-- From the names of the country and of the region, where there are.
abbrev pub load_partition_label : Option String → Option String → Option String → Option String
load_partition_label none region_id region_name = none
load_partition_label (some country) none region_name = some country
load_partition_label (some country) (some region) none = some country
load_partition_label (some country) (some region) (some name) =
    some (text (country ∷ " / " ∷ name ∷ []))
