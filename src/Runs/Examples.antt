-- ===== src/Runs/Examples.antt =====
-- A run at concrete inputs: a package comes into stock on a page that did not have it.
use catnap.Common.{
  ℕ, true, false, not, ◌≡◌, refl, ap, [], ◌∷◌, none, some, ◌==◌, ==_refl, eq_nat, eq_string, get,
  trim, arith, pos,
}
use catnap.Catalog.{catalog_region_key, empty_snapshot}
use catnap.Listing.Store.{ConfigBase}
use catnap.Listing.Apply.{previous_ids}
use catnap.Ops.Reasons.{
  task_freshness_window_seconds, reason_freshness_window_seconds, should_emit_lifecycle_notify,
}
use catnap.Ops.Worker.{answers_from_cache}
use catnap.Ops.State.{task_key_beq, TaskKey, pending, RuntimeState}
use catnap.Alerts.Texts.{Formats}
use catnap.Alerts.Records.{NotificationDeliveryTarget}
use catnap.Alerts.Lifecycle.{restock_notice, added_notice, removed_notice}
use catnap.Alerts.Audience.{monitoring_partition_key}
use catnap.Alerts.Told.{told}
use catnap.Runs.{
  Setting, Surroundings, RegionFetchDetailed, answered, World, current_lifecycle_notify_state,
  run_task,
}
use catnap.Alerts.Items.{Columns}
use catnap.Runs.Agree.{shown_notices, stored_notices, notices_agree}
use catnap.Runs.Told.{run_tells}

abbrev formats : Formats ℕ
formats = record {
  differ = λ a b. not (a == b);
  two_decimals = λ a. "1.00";
  shown = λ a. "1";
  shown_int = λ n. "3";
}

abbrev columns : Columns ℕ ℕ ℕ
columns = record {
  name = λ x. "HK-1";
  price = λ x. record { amount = 100; currency = "CNY"; period = "month" };
  country_name = λ x. "Hong Kong";
  region_name = λ x. none;
  rest = λ row. 0;
}

abbrev target : NotificationDeliveryTarget
target = record {
  user_id = "ann";
  site_base_url = none;
  tg_enabled = true;
  tg_bot_token = none;
  tg_targets = [];
  wp_enabled = false;
}

-- Ann monitors the package and follows its partition.
abbrev pub setting : Setting ℕ ℕ ℕ
setting = record {
  formats = formats;
  columns = columns;
  audience = record {
    settings = (target, true) ∷ [];
    monitoring_configs = (("ann", "hk"), true) ∷ [];
    monitoring_partitions = (("ann", "7::"), true) ∷ [];
  };
}

abbrev pub plan : ConfigBase ℕ
plan = record {
  id = "hk";
  columns = 0;
  quantity = pos 3;
  source_pid = none;
  source_fid = some "7";
  source_gid = none;
}

abbrev detail : RegionFetchDetailed ℕ
detail = record {
  url = "https://example.com/cart?fid=7";
  http_status = 200;
  bytes = 10;
  elapsed_ms = 1;
  parse_elapsed_ms = 1;
  configs = plan ∷ [];
  region_notice = some " sold out ";
  empty_result_authoritative = false;
}

abbrev pub surroundings : Surroundings ℕ
surroundings = record {
  now = 0;
  parse_time = λ t. none;
  upstream = answered detail;
  fetched_at = "2026-01-01T00:00:00Z";
  ts_minute = none;
  failed_statement = none;
  refusal = "refused";
  country_name = some "Hong Kong";
  region_name = none;
}

abbrev pub key : TaskKey
key = record { fid = "7"; gid = none }

abbrev pub state : RuntimeState
state = record {
  deduped = 0;
  pending = [];
  tasks =
      (
        key,
        record {
          state = pending;
          enqueued_at = "2026-01-01T00:00:00Z";
          reason_counts = ("poller_due", 1) ∷ [];
          force_fetch = false;
          joiners = [];
          poller_waiter_user_ids = "ann" ∷ [];
        },
      )
      ∷ [];
  workers = [];
}

abbrev pub world : World ℕ
world = record {
  store = record { configs = []; url_cache = []; notices = []; archives = []; samples = [] };
  catalog = empty_snapshot "2026-01-01T00:00:00Z" "https://example.com/cart";
}

run_tells_example :
    let notices = (run_task setting surroundings state state key world).notices in
    (notices.1 ≡ false)
    × (told restock_notice "ann" "hk" notices.0 ≡ 1)
    × (told added_notice "ann" "hk" notices.0 ≡ 0)
    × (told removed_notice "ann" "hk" notices.0 ≡ 0)
unfolding answers_from_cache get task_key_beq task_freshness_window_seconds
    reason_freshness_window_seconds should_emit_lifecycle_notify current_lifecycle_notify_state
    previous_ids monitoring_partition_key trim
run_tells_example =
    run_tells setting surroundings state state key world detail plan "ann" (λ x. ap not (==_refl x))
      refl refl (refl, tt) refl (omega arith)

notices_agree_example :
    let after = (run_task setting surroundings state state key world).world in
    (shown_notices after.catalog "7" none ≡ stored_notices after.store "7" none)
    × (shown_notices after.catalog "8" (some "3") ≡ stored_notices after.store "8" (some "3"))
unfolding get catalog_region_key empty_snapshot
notices_agree_example =
    notices_agree setting surroundings state state key world "8" (some "3") refl refl refl
