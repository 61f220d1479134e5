-- ===== src/Alerts/Poll.antt =====
-- src/poller.rs, `poll_once`: what a user is told after a poll of the packages that they monitor. The
-- tables are read as they stand at each read, and a statement does not fail; logs are left out.
pub mod Exactly
use catnap.Common.{
  ℕ, String, Bool, true, false, List, [], ◌∷◌, ◌++◌, Option, none, some, ◌==◌, eq_string, eq_option,
  eq_pair, get, insert, unwrap_or, map,
}
use catnap.Alerts.Texts.{Formats, text, join}
use catnap.Alerts.Content.{
  as_str, MonitoringSnapshot, MonitoringChangeNotification, build_monitoring_change_notification,
}
use catnap.Alerts.Records.{NotificationRecordItemView, NotificationDeliveryTarget, Ledger, Outside}
use catnap.Alerts.Deliver.{Sending, deliver, monitoring_sending}

abbrev pub RegionKey : Type 0
RegionKey = String × Option String

-- What a poll reads: the region of a package; for each region its packages before the run, the run's
-- id or that waiting for it failed, and its packages after, by name; and the items.
pub record PollReadings (F Z : Type 0) : Type 0 where
  pub regions : List (String × RegionKey)
  pub before : RegionKey → List (String × MonitoringSnapshot F)
  pub run : RegionKey → Option ℕ
  pub after : RegionKey → List (String × (String × MonitoringSnapshot F))
  pub items : List (String × NotificationRecordItemView F Z)

pub record PollNotice (F Z : Type 0) : Type 0 where
  pub run_id : ℕ
  pub config_id : String
  pub sending : Sending F Z

-- The notices until the end or an error, and whether there was one.
abbrev pub PollNotices : Type 0 → Type 0 → Type 0
PollNotices F Z = List (PollNotice F Z) × Bool

abbrev pub then_polled : {F Z : Type 0} → PollNotices F Z → PollNotices F Z → PollNotices F Z
then_polled (first, true) rest = (first, true)
then_polled (first, false) rest = (first ++ rest.0, rest.1)

-- The order of a `HashMap` is not given: here a region comes where its first package does.
unfoldable pub by_region : List (String × RegionKey) → List (RegionKey × List String)
by_region [] = []
by_region ((id, key) ∷ rows) =
    let rest = by_region rows in insert key (id ∷ unwrap_or (get key rest) []) rest

abbrev region_label : {F Z : Type 0} → NotificationRecordItemView F Z → Option String → String
region_label item none = item.country_name
region_label item (some region) = text (item.country_name ∷ " / " ∷ region ∷ [])

abbrev pub poll_sending :
    {F Z : Type 0} → MonitoringChangeNotification → NotificationRecordItemView F Z → Sending F Z
poll_sending n item = record (monitoring_sending n (item ∷ [])) {
  partition_label = some (region_label item item.region_name);
}

abbrev pub item_polled :
    {F Z : Type 0}
    → ℕ
    → String
    → MonitoringChangeNotification
    → Option (NotificationRecordItemView F Z)
    → PollNotices F Z
item_polled run_id id n none = ([], true)
item_polled run_id id n (some item) =
    ((record { run_id = run_id; config_id = id; sending = poll_sending n item }) ∷ [], false)

-- A notification has an event.
abbrev pub change_polled :
    {F Z : Type 0}
    → PollReadings F Z
    → ℕ
    → String
    → Option MonitoringChangeNotification
    → PollNotices F Z
change_polled p run_id id none = ([], false)
change_polled p run_id id (some n) = item_polled run_id id n (get id p.items)

abbrev pub notification_of :
    {F : Type 0}
    → Formats F
    → Option String
    → Option (MonitoringSnapshot F)
    → Option (String × MonitoringSnapshot F)
    → Option MonitoringChangeNotification
notification_of f site_base_url old none = none
notification_of f site_base_url none (some new) = none
notification_of f site_base_url (some old) (some (name, new)) =
    build_monitoring_change_notification f name old new site_base_url

unfoldable pub poll_packages :
    {F Z : Type 0}
    → Formats F
    → Option String
    → PollReadings F Z
    → RegionKey
    → ℕ
    → List String
    → PollNotices F Z
poll_packages f site_base_url p key run_id [] = ([], false)
poll_packages f site_base_url p key run_id (id ∷ ids) =
    then_polled
      (change_polled p run_id id
        (notification_of f site_base_url (get id (p.before key)) (get id (p.after key))))
      (poll_packages f site_base_url p key run_id ids)

abbrev pub poll_region :
    {F Z : Type 0}
    → Formats F
    → Option String
    → PollReadings F Z
    → RegionKey
    → Option ℕ
    → List String
    → PollNotices F Z
poll_region f site_base_url p key none ids = ([], true)
poll_region f site_base_url p key (some run_id) ids = poll_packages f site_base_url p key run_id ids

abbrev poll_regions :
    {F Z : Type 0}
    → Formats F
    → Option String
    → PollReadings F Z
    → List (RegionKey × List String)
    → PollNotices F Z
poll_regions f site_base_url p [] = ([], false)
poll_regions f site_base_url p ((key, ids) ∷ regions) =
    then_polled (poll_region f site_base_url p key (p.run key) ids)
      (poll_regions f site_base_url p regions)

unfoldable pub poll_once :
    {F Z : Type 0} → Formats F → Option String → PollReadings F Z → PollNotices F Z
unfolding by_region poll_packages build_monitoring_change_notification
poll_once f site_base_url p = poll_regions f site_base_url p (by_region p.regions)

-- A poll sends by Telegram alone.
abbrev pub poll_target : NotificationDeliveryTarget → NotificationDeliveryTarget
poll_target t = record t { wp_enabled = false }

-- The records and sends of the notices, one after the other.
unfoldable pub poll_delivered :
    {F Z S : Type 0}
    → Outside S
    → NotificationDeliveryTarget
    → List (PollNotice F Z)
    → Ledger F Z
    → Ledger F Z
unfolding deliver
poll_delivered out t [] l = l
poll_delivered out t (n ∷ ns) l =
    poll_delivered out t ns (deliver out n.run_id (poll_target t) n.sending l)
