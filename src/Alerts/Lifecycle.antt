-- ===== src/Alerts/Lifecycle.antt =====
-- src/ops.rs, `notify_lifecycle_events`: who is told of the packages that a fetched page listed or
-- delisted. The tables that are read do not change meanwhile, and logs are left out.
use catnap.Common.{
  ℕ, String, Bool, true, false, not, ◌&&◌, List, [], ◌∷◌, ◌++◌, Option, none, some, eq_string,
  eq_option, eq_pair, if◌then◌else◌, get, contains, keep, map, ℤ, pos,
}
use catnap.Listing.Apply.{ApplyCatalogUrlResult}
use catnap.Alerts.Texts.{Formats, Money}
use catnap.Alerts.Content.{
  MonitoringChangeNotification, build_monitoring_change_notification, added, removed,
  ConfigLifecycleNotificationKind, build_config_lifecycle_notification,
}
use catnap.Alerts.Records.{NotificationRecordItemView, NotificationDeliveryTarget, Ledger, Outside}
use catnap.Alerts.Deliver.{Sending, outbound_sending, monitoring_sending, deliver}
use catnap.Alerts.Audience.{
  Audience, monitoring_partition_key, scope_targets, load_monitored_delivery_targets,
  load_enabled_monitoring_ids,
}

pub record ConfigLifecycleRecord (F : Type 0) : Type 0 where
  pub id : String
  pub name : String
  pub price : Money F
  pub quantity : ℤ

pub data NoticeKind : Type 0 where
  restock_notice added_notice removed_notice : NoticeKind

-- A delivery, with the package that it is about.
pub record Notice (F Z : Type 0) : Type 0 where
  pub target : NotificationDeliveryTarget
  pub kind : NoticeKind
  pub config_id : String
  pub sending : Sending F Z

-- What is read for a run, with the users that wait for it as pollers.
pub record Readings (F Z : Type 0) : Type 0 where
  pub partition_label : Option String
  pub config_by_id : List (String × ConfigLifecycleRecord F)
  pub item_by_id : List (String × NotificationRecordItemView F Z)
  pub poller_waiter_user_ids : List String

-- The deliveries until the end or a panic, and whether there was one.
abbrev pub Notices : Type 0 → Type 0 → Type 0
Notices F Z = List (Notice F Z) × Bool

abbrev pub then_notices : {F Z : Type 0} → Notices F Z → Notices F Z → Notices F Z
then_notices (first, true) rest = (first, true)
then_notices (first, false) rest = (first ++ rest.0, rest.1)

unfoldable pub records_of :
    {F : Type 0}
    → List (String × ConfigLifecycleRecord F)
    → List String
    → List (ConfigLifecycleRecord F)
records_of config_by_id [] = []
records_of config_by_id (id ∷ ids) =
    let rest = records_of config_by_id ids in
    elim (get id config_by_id) [ none ↦ rest | some r ↦ r ∷ rest ]

-- The notification of a restock that is made up: from no stock, with nothing else changed.
abbrev pub restock_notification :
    {F Z : Type 0}
    → Formats F
    → Option String
    → NotificationRecordItemView F Z
    → Option MonitoringChangeNotification
restock_notification f site_base_url item =
    build_monitoring_change_notification f item.name
      (record {
        inventory_quantity = pos 0;
        price = item.price;
        digest = "lifecycle-listed-pending";
      })
      (record {
        inventory_quantity = item.quantity;
        price = item.price;
        digest = "lifecycle-listed-pending";
      })
      site_base_url

-- `expect` panics where there is no notification.
abbrev pub expected_notice :
    {F Z : Type 0}
    → NotificationDeliveryTarget
    → String
    → NotificationRecordItemView F Z
    → Option MonitoringChangeNotification
    → Notices F Z
expected_notice t id item none = ([], true)
expected_notice t id item (some n) = (
  (record {
    target = t;
    kind = restock_notice;
    config_id = id;
    sending = monitoring_sending n (item ∷ []);
  })
      ∷ [],
  false,
)

abbrev pub item_notice :
    {F Z : Type 0}
    → Formats F
    → NotificationDeliveryTarget
    → String
    → Option (NotificationRecordItemView F Z)
    → Notices F Z
item_notice f t id none = ([], false)
item_notice f t id (some item) =
    expected_notice t id item (restock_notification f t.site_base_url item)

abbrev pub is_allowed :
    {F Z : Type 0} → Readings F Z → ApplyCatalogUrlResult → String → String → Bool
is_allowed r applied user id =
    if contains user r.poller_waiter_user_ids then contains id applied.listed_ids else true

abbrev pub fallback_notice :
    {F Z : Type 0}
    → Formats F
    → Readings F Z
    → ApplyCatalogUrlResult
    → NotificationDeliveryTarget
    → List String
    → String
    → Notices F Z
fallback_notice f r applied t monitored_ids id =
    if contains id monitored_ids && is_allowed r applied t.user_id id
    then item_notice f t id (get id r.item_by_id)
    else ([], false)

unfoldable pub deliver_monitored_restock_fallbacks :
    {F Z : Type 0}
    → Formats F
    → Readings F Z
    → ApplyCatalogUrlResult
    → NotificationDeliveryTarget
    → List String
    → List (ConfigLifecycleRecord F)
    → Notices F Z
unfolding build_monitoring_change_notification
deliver_monitored_restock_fallbacks f r applied t monitored_ids [] = ([], false)
deliver_monitored_restock_fallbacks f r applied t monitored_ids (c ∷ cs) =
    let rest = deliver_monitored_restock_fallbacks f r applied t monitored_ids cs in
    then_notices (fallback_notice f r applied t monitored_ids c.id) rest

abbrev items_of : {A : Type 0} → Option A → List A
items_of none = []
items_of (some a) = a ∷ []

abbrev pub lifecycle_notice :
    {F Z : Type 0}
    → Formats F
    → Readings F Z
    → NotificationDeliveryTarget
    → NoticeKind
    → ConfigLifecycleNotificationKind
    → String
    → ConfigLifecycleRecord F
    → Notice F Z
lifecycle_notice f r t kind change record_kind c = record {
  target = t;
  kind = kind;
  config_id = c.id;
  sending =
      outbound_sending record_kind
        (build_config_lifecycle_notification f change c.name r.partition_label c.quantity c.price
          t.site_base_url)
        (items_of (get c.id r.item_by_id));
}

abbrev pub added_notices :
    {F Z : Type 0}
    → Formats F
    → Readings F Z
    → NotificationDeliveryTarget
    → List String
    → List (ConfigLifecycleRecord F)
    → List (Notice F Z)
added_notices f r t monitored_ids cs =
    map (lifecycle_notice f r t added_notice added "catalog.config.added")
      (keep (λ c. not (contains c.id monitored_ids)) cs)

abbrev pub removed_notices :
    {F Z : Type 0}
    → Formats F
    → Readings F Z
    → NotificationDeliveryTarget
    → List (ConfigLifecycleRecord F)
    → List (Notice F Z)
removed_notices f r t cs =
    map (lifecycle_notice f r t removed_notice removed "catalog.config.removed") cs

abbrev pub scope_notices :
    {F Z : Type 0}
    → Formats F
    → Audience
    → Readings F Z
    → ApplyCatalogUrlResult
    → NotificationDeliveryTarget
    → Notices F Z
scope_notices f a r applied t =
    let monitored_ids = load_enabled_monitoring_ids a t.user_id applied.listed_event_ids in
    let listed = records_of r.config_by_id applied.listed_event_ids in
    then_notices (deliver_monitored_restock_fallbacks f r applied t monitored_ids listed) (
      added_notices f r t monitored_ids listed
          ++ removed_notices f r t (records_of r.config_by_id applied.delisted_ids),
      false,
    )

-- A user in the scope was told already; one that monitors nothing of it gets nothing.
abbrev pub monitored_notices :
    {F Z : Type 0}
    → Formats F
    → Audience
    → Readings F Z
    → ApplyCatalogUrlResult
    → List String
    → NotificationDeliveryTarget
    → Notices F Z
monitored_notices f a r applied told t =
    if contains t.user_id told
    then ([], false)
    else deliver_monitored_restock_fallbacks f r applied t
        (load_enabled_monitoring_ids a t.user_id applied.listed_event_ids)
        (records_of r.config_by_id applied.listed_event_ids)

unfoldable pub each_target :
    {F Z : Type 0}
    → (NotificationDeliveryTarget → Notices F Z)
    → List NotificationDeliveryTarget
    → Notices F Z
each_target notices [] = ([], false)
each_target notices (t ∷ ts) = then_notices (notices t) (each_target notices ts)

unfoldable pub notify_lifecycle_events :
    {F Z : Type 0}
    → Formats F
    → Audience
    → Readings F Z
    → ApplyCatalogUrlResult
    → String
    → Option String
    → Notices F Z
unfolding scope_targets load_monitored_delivery_targets records_of
    deliver_monitored_restock_fallbacks each_target build_config_lifecycle_notification
notify_lifecycle_events f a r applied fid gid =
    let scope = scope_targets a (monitoring_partition_key fid gid) in
    then_notices (each_target (scope_notices f a r applied) scope) (
      each_target (monitored_notices f a r applied (map (λ t. t.user_id) scope))
        (load_monitored_delivery_targets a applied.listed_event_ids))

-- The deliveries, one after the other.
unfoldable pub delivered :
    {F Z S : Type 0} → Outside S → ℕ → List (Notice F Z) → Ledger F Z → Ledger F Z
unfolding deliver
delivered out run_id [] l = l
delivered out run_id (n ∷ ns) l = delivered out run_id ns (deliver out run_id n.target n.sending l)
