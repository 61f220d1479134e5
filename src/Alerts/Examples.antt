-- ===== src/Alerts/Examples.antt =====
-- The deliveries, the events of a package and the runs at concrete inputs.
use catnap.Common.{
  ℕ, ltb, String, Bool, true, false, not, ◌≡◌, refl, [], ◌∷◌, none, some, ◌==◌, eq_string, get,
  insert, ℤ, pos, arith, eq_nat, ==_iff, some_inj, none-ne-some, ==_refl, if◌then◌else◌, trim, sym,
  ◌∙◌, ap,
}
use catnap.Listing.Apply.{ApplyCatalogUrlResult}
use catnap.Alerts.Texts.{Formats, Money, append_notification_record_link}
use catnap.Alerts.Content.{build_monitoring_change_notification}
use catnap.Alerts.Records.{
  NotificationRecordItemView, NotificationDeliveryTarget, Ledger, subscription, Outside,
}
use catnap.Alerts.Deliver.{Sending, draft_of, deliver}
use catnap.Alerts.Settled.{delivered_settled}
use catnap.Alerts.Statuses.{telegram_status_of, web_push_status_of}
use catnap.Alerts.Lifecycle.{
  ConfigLifecycleRecord, restock_notice, added_notice, removed_notice, Readings,
  deliver_monitored_restock_fallbacks, notify_lifecycle_events,
}
use catnap.Alerts.Audience.{Audience, monitoring_partition_key}
use catnap.Alerts.Panics.{fallbacks_panic}
use catnap.Topology.Changes.{TopologyNotificationChanges}
use catnap.Alerts.Places.{
  region_added, region_removed, partition_added, partition_removed, PlaceAudience, PlaceReadings,
  notify_topology_changes,
}
use catnap.Alerts.Places.Refreshed.{refresh_tells}
use catnap.Topology.Refreshed.{topology_refresh_changes}
use catnap.Catalog.{CatalogSnapshot, CatalogTopologySnapshot}
use catnap.Alerts.Places.Told.{placed, topology_told}
use catnap.Alerts.Poll.{PollReadings, poll_once}
use catnap.Alerts.Poll.Exactly.{polled, poll_exactly}
use catnap.Alerts.Told.{told, told_exactly}

-- Amounts in cents.
abbrev formats : Formats ℕ
formats = record {
  differ = λ a b. not (a == b);
  two_decimals = λ a. "1.00";
  shown = λ a. "1";
  shown_int = λ n. "3";
}

abbrev price : Money ℕ
price = record { amount = 100; currency = "¥"; period = "month" }

abbrev item : ℤ → NotificationRecordItemView ℕ ℕ
item n = record {
  config_id = some "hk";
  country_name = "Hong Kong";
  region_name = none;
  partition_label = none;
  name = "HK-1";
  price = price;
  quantity = n;
  rest = 0;
}

abbrev target : NotificationDeliveryTarget
target = record {
  user_id = "ann";
  site_base_url = none;
  tg_enabled = true;
  tg_bot_token = some "token";
  tg_targets = "one" ∷ "two" ∷ [];
  wp_enabled = true;
}

abbrev hk : ConfigLifecycleRecord ℕ
hk = record { id = "hk"; name = "HK-1"; price = price; quantity = pos 3 }

-- One chat is reached and the other not; the push is answered.
abbrev outside : Outside ℕ
outside = record {
  uuid = λ n. if n == 0 then "first" else "later";
  send_telegram = λ token chat message. if chat == "one" then none else some "blocked";
  latest_subscription = λ user. subscription 0;
  send_web_push = λ s title body url. none;
}

abbrev sending : Sending ℕ ℕ
sending = record {
  kind = "monitoring.restock";
  title = "补货";
  summary = "HK-1";
  partition_label = none;
  telegram_text = "HK-1";
  web_push_title = "补货";
  web_push_body = "HK-1";
  web_push_url = "/monitoring";
  items = item (pos 3) ∷ [];
}

abbrev ledger : Ledger ℕ ℕ
ledger = record { records = []; deliveries = []; notify_runs = []; inserted = 0 }

partial : telegram_status_of outside target "HK-1" ≡ "partial_success"
unfolding trim
partial = refl

delivered_settled_example :
    (get "first" (deliver outside 7 target sending ledger).records
      ≡ some (
        "ann",
        record (draft_of target sending) {
          telegram_status =
              telegram_status_of outside target
                (append_notification_record_link "HK-1" none "first");
          web_push_status = web_push_status_of outside target sending;
        },
      ))
    × (get "old" (deliver outside 7 target sending ledger).records ≡ none)
unfolding get
delivered_settled_example = delivered_settled outside 7 target sending ledger "old" refl

-- Ann monitors the package and its partition.
abbrev audience : Audience
audience = record {
  settings = (target, true) ∷ [];
  monitoring_configs = (("ann", "hk"), true) ∷ [];
  monitoring_partitions = (("ann", "hk::"), true) ∷ [];
}

abbrev readings : ℤ → Readings ℕ ℕ
readings n = record {
  partition_label = none;
  config_by_id = ("hk", hk) ∷ [];
  item_by_id = ("hk", item n) ∷ [];
  poller_waiter_user_ids = "ann" ∷ [];
}

abbrev applied : ApplyCatalogUrlResult
applied = record {
  listed_ids = "hk" ∷ [];
  listed_event_ids = "hk" ∷ [];
  listed_pending_zero_stock_ids = [];
  delisted_ids = [];
  fetched_at = "2026-01-01T00:00:00Z";
}

same : (x : ℕ) → formats.differ x x ≡ false
same x = ap not (==_refl x)

-- Of a package that was read with nothing left.
fallbacks_panic_example :
    (deliver_monitored_restock_fallbacks formats
      (readings (pos 0))
      applied
      target
      ("hk" ∷ [])
      (hk ∷ [])).1
    ≡ true
unfolding get
fallbacks_panic_example =
    fallbacks_panic formats same (readings (pos 0)) applied target ("hk" ∷ []) (hk ∷ [])

keyed_at :
    (k : String) (c : ConfigLifecycleRecord ℕ) (b : Bool)
    → ("hk" == k) ≡ b
    → (if b then some hk else none) ≡ some c
    → c.id ≡ k
keyed_at k c true e h = ap (λ r. r.id) (sym (some_inj h)) ∙ (==_iff "hk" k).0 e
keyed_at k c false e h = absurd (none-ne-some h)

keyed :
    (k : String) (c : ConfigLifecycleRecord ℕ)
    → get k (readings (pos 3)).config_by_id ≡ some c
    → c.id ≡ k
unfolding get
keyed k c h = keyed_at k c ("hk" == k) refl h

no_panic : (notify_lifecycle_events formats audience (readings (pos 3)) applied "hk" none).1 ≡ false
unfolding notify_lifecycle_events monitoring_partition_key get trim
    build_monitoring_change_notification
no_panic = refl

told_exactly_example :
    let notices =
      (notify_lifecycle_events formats audience (readings (pos 3)) applied "hk" none).0 in
    (told restock_notice "ann" "hk" notices ≡ 1)
    × (told added_notice "ann" "hk" notices ≡ 0)
    × (told removed_notice "ann" "hk" notices ≡ 0)
unfolding monitoring_partition_key get trim
told_exactly_example =
    told_exactly formats audience (readings (pos 3)) applied "ann" "hk" "hk" none no_panic
      (omega arith) keyed (omega arith) (omega arith)

-- The package was sold out before the run of its region and is not after it.
abbrev poll_readings : PollReadings ℕ ℕ
poll_readings = record {
  regions = ("hk", ("7", none)) ∷ [];
  before = λ key. ("hk", record { inventory_quantity = pos 0; price = price; digest = "d" }) ∷ [];
  run = λ key. some 7;
  after = λ key.
      ("hk", ("HK-1", record { inventory_quantity = pos 3; price = price; digest = "d" })) ∷ [];
  items = ("hk", item (pos 3)) ∷ [];
}

no_error : (poll_once formats none poll_readings).1 ≡ false
unfolding poll_once get insert trim
no_error = refl

poll_exactly_example : polled "hk" (poll_once formats none poll_readings).0 ≡ 1
unfolding get
poll_exactly_example = poll_exactly formats none poll_readings "hk" no_error

-- A country and a region of it came; Ann asked for both and follows the country.
abbrev place_audience : PlaceAudience
place_audience = record {
  settings = (target, (true, true)) ∷ [];
  monitoring_partitions = (("ann", "7::"), true) ∷ [];
}

abbrev place_readings : PlaceReadings ℕ ℕ
place_readings = record {
  country = λ id. record { shown = []; total = 0; items = [] };
  region = λ country id. record { shown = []; total = 0; items = [] };
  added_catalog_fetch_failures = [];
}

abbrev place_changes : TopologyNotificationChanges
place_changes = record {
  added_countries = (record { id = "7"; name = "Japan" }) ∷ [];
  removed_countries = [];
  added_regions =
      (record { country_id = "7"; country_name = "Japan"; region_id = "3"; region_name = "Tokyo" })
      ∷ [];
  removed_regions = [];
}

topology_told_example :
    let notices = notify_topology_changes formats place_audience place_readings place_changes in
    (placed region_added "ann" ("7", "") notices ≡ 1)
    × (placed region_removed "ann" ("7", "") notices ≡ 0)
    × (placed partition_added "ann" ("7", "3") notices ≡ 1)
    × (placed partition_removed "ann" ("7", "3") notices ≡ 0)
unfolding monitoring_partition_key get trim
topology_told_example =
    topology_told formats place_audience place_readings place_changes "ann" "7" "3" (omega arith)

abbrev no_regions : CatalogSnapshot
no_regions = record {
  countries = (record { id = "2"; name = "France" }) ∷ [];
  regions = [];
  region_notices = [];
  region_notice_initialized_keys = [];
  fetched_at = "2026-01-01T00:00:00Z";
  source_url = "https://shop.example/cart";
  topology_refreshed_at = none;
  topology_request_count = 0;
  topology_status = "idle";
  topology_message = none;
}

abbrev new_topology : CatalogTopologySnapshot
new_topology = record {
  countries = (record { id = "7"; name = "Japan" }) ∷ [];
  regions = (record { country_id = "7"; id = "3"; name = "Tokyo"; location_name = none }) ∷ [];
  region_notices = [];
  region_notice_initialized_keys = [];
  ambiguous_country_ids = [];
  refreshed_at = "2026-01-02T00:00:00Z";
  request_count = 2;
}

-- Japan and Tokyo came.
refresh_tells_example :
    let changes = topology_refresh_changes no_regions new_topology in
    let notices = notify_topology_changes formats place_audience place_readings changes in
    (ltb 0 (placed region_added "ann" ("7", "") notices) ≡ true)
    × (ltb 0 (placed region_removed "ann" ("7", "") notices) ≡ false)
    × (ltb 0 (placed partition_added "ann" ("7", "3") notices) ≡ true)
    × (ltb 0 (placed partition_removed "ann" ("7", "3") notices) ≡ false)
unfolding monitoring_partition_key get trim
refresh_tells_example =
    refresh_tells formats place_audience place_readings no_regions new_topology "ann" "7" "3"
      (omega arith)
