-- ===== src/Runs.antt =====
-- src/ops.rs, `run_task`: what the worker does for a key, from the cache or by a fetch of its page,
-- which db.rs applies and whose changes users are told of. Logs are left out.
pub mod Agree
mod Page
pub mod Told
pub mod Examples
use catnap.Common.{
  ℕ, String, Bool, true, false, not, ◌&&◌, ◌||◌, List, [], ◌∷◌, ◌++◌, Option, none, some, ◌==◌,
  eq_string, eq_option, if◌then◌else◌, get, contains, keep, map, map_some, filter_some, unwrap_or,
  trim, is_empty, length, insert,
}
use catnap.Catalog.{RegionNotice, CatalogSnapshot, catalog_region_key}
use catnap.Listing.Store.{ConfigBase, ConfigRow, UrlCache, Store}
use catnap.Listing.Apply.{Fetched, ApplyCatalogUrlResult, apply_catalog_url_fetch_success, is_nil}
use catnap.Ops.Reasons.{ReasonCounts, task_freshness_window_seconds, should_emit_lifecycle_notify}
use catnap.Ops.State.{TaskKey, TaskEntry, RuntimeState, eq_task_key}
use catnap.Ops.Worker.{CacheRow, answers_from_cache}
use catnap.Alerts.Texts.{Formats, Money, text}
use catnap.Alerts.Records.{NotificationRecordItemView}
use catnap.Alerts.Lifecycle.{ConfigLifecycleRecord, Readings, Notices, notify_lifecycle_events}
use catnap.Alerts.Audience.{load_partition_label, Audience}
use catnap.Alerts.Items.{
  Columns, lifecycle_record, load_config_lifecycle_records, build_partition_label,
  notification_record_item_view_from_row, load_notification_record_item_map, ids_of_result,
  readings_of,
}

pub record TaskFetchMeta : Type 0 where
  pub url : String
  pub http_status : ℕ
  pub bytes : ℕ
  pub elapsed_ms : ℕ
  pub action : String
  pub freshness_window_seconds : Option ℕ

pub record TaskParseMeta : Type 0 where
  pub ok : Bool
  pub produced_configs : ℕ
  pub elapsed_ms : ℕ

pub record TaskOk : Type 0 where
  pub fetch : TaskFetchMeta
  pub parse : TaskParseMeta

pub record TaskErr : Type 0 where
  pub code : String
  pub message : String
  pub fetch : Option TaskFetchMeta
  pub parse : Option TaskParseMeta

pub data TaskResult : Type 0 where
  task_ok : TaskOk → TaskResult
  task_err : TaskErr → TaskResult

-- src/upstream.rs
pub record RegionFetchDetailed (X : Type 0) : Type 0 where
  pub url : String
  pub http_status : ℕ
  pub bytes : ℕ
  pub elapsed_ms : ℕ
  pub parse_elapsed_ms : ℕ
  pub configs : List (ConfigBase X)
  pub region_notice : Option String
  pub empty_result_authoritative : Bool

pub data Upstream (X : Type 0) : Type 0 where
  answered : RegionFetchDetailed X → Upstream X
  failed : String → Upstream X

-- What a run meets: the time in nanoseconds, the reading of a stored time, the answer of the fetch, the
-- time and minute at which it is applied, the error of a statement of the transaction if one fails,
-- which undoes it all, the text of a refused page, and the names of the place.
pub record Surroundings (X : Type 0) : Type 0 where
  pub now : ℕ
  pub parse_time : String → Option ℕ
  pub upstream : Upstream X
  pub fetched_at : String
  pub ts_minute : Option String
  pub failed_statement : Option String
  pub refusal : String
  pub country_name : Option String
  pub region_name : Option String

-- The tables and the catalog in memory.
pub record World (X : Type 0) : Type 0 where
  pub store : Store X
  pub catalog : CatalogSnapshot

-- What a run leaves and answers, and what it told; a panic leaves no answer.
pub record Effects (X F Z : Type 0) : Type 0 where
  pub world : World X
  pub result : TaskResult
  pub notices : Notices F Z

abbrev pub pushed_notice : String → Option String → Option String → List RegionNotice
pushed_notice fid gid none = []
pushed_notice fid gid (some t) = (record { country_id = fid; region_id = gid; text = t }) ∷ []

unfoldable pub upsert_region_notice_in_snapshot :
    String → Option String → Option String → CatalogSnapshot → CatalogSnapshot
upsert_region_notice_in_snapshot fid gid notice snap =
    let key = catalog_region_key fid gid in
    let keys = snap.region_notice_initialized_keys in
    let others = keep (λ n. not (n.country_id == fid && n.region_id == gid)) snap.region_notices in
    record snap {
      region_notice_initialized_keys = if contains key keys then keys else key ∷ keys;
      region_notices =
          others
          ++ pushed_notice fid gid (filter_some (λ t. not (is_empty t)) (map_some trim notice));
    }

-- The entry's reasons and waiting users as they stand then, else those of the start of the run.
unfoldable pub current_lifecycle_notify_state :
    RuntimeState → TaskKey → ReasonCounts × List String → ReasonCounts × List String
current_lifecycle_notify_state st key fallback = elim (get key st.tasks) [
  | none ↦ fallback
  | some entry ↦ (entry.reason_counts, entry.poller_waiter_user_ids)
]

abbrev pub initial_state : Option TaskEntry → ReasonCounts × List String
initial_state none = ([], [])
initial_state (some entry) = (entry.reason_counts, entry.poller_waiter_user_ids)

abbrev pub cache_row : {X : Type 0} → Surroundings X → UrlCache → CacheRow
cache_row sur cached = record {
  last_success_at = sur.parse_time cached.last_success_at;
  produced_configs = length cached.config_ids;
}

abbrev cache_ok : UrlCache → Option ℕ → TaskOk
cache_ok cached window = record {
  fetch = record {
    url = cached.url;
    http_status = 0;
    bytes = 0;
    elapsed_ms = 0;
    action = "cache";
    freshness_window_seconds = window;
  };
  parse = record { ok = true; produced_configs = length cached.config_ids; elapsed_ms = 0 };
}

abbrev fetch_meta : {X : Type 0} → RegionFetchDetailed X → Option ℕ → TaskFetchMeta
fetch_meta d window = record {
  url = d.url;
  http_status = d.http_status;
  bytes = d.bytes;
  elapsed_ms = d.elapsed_ms;
  action = "fetch";
  freshness_window_seconds = window;
}

abbrev parse_meta : {X : Type 0} → RegionFetchDetailed X → Bool → TaskParseMeta
parse_meta d ok = record {
  ok = ok;
  produced_configs = length d.configs;
  elapsed_ms = d.parse_elapsed_ms;
}

abbrev pub tells_any : ApplyCatalogUrlResult → Bool
tells_any applied =
    not (is_nil applied.listed_event_ids)
    || not (is_nil applied.listed_pending_zero_stock_ids)
    || not (is_nil applied.delisted_ids)

-- What is the same in every run: the formats, the columns and the users.
pub record Setting (X F Z : Type 0) : Type 0 where
  pub formats : Formats F
  pub columns : Columns X F Z
  pub audience : Audience

abbrev pub label_of_run : {X : Type 0} → Surroundings X → TaskKey → Option String
label_of_run sur key = load_partition_label sur.country_name key.gid sur.region_name

abbrev pub run_notices :
    {X F Z : Type 0}
    → Setting X F Z
    → Surroundings X
    → TaskKey
    → ReasonCounts × List String
    → Store X
    → ApplyCatalogUrlResult
    → Notices F Z
run_notices g sur key (counts, waiters) s applied =
    if should_emit_lifecycle_notify counts && tells_any applied
    then notify_lifecycle_events g.formats g.audience
        (readings_of g.columns (label_of_run sur key) waiters applied s) applied key.fid key.gid
    else ([], false)

abbrev pub task_applied :
    {X F Z : Type 0}
    → Setting X F Z
    → Surroundings X
    → TaskKey
    → ReasonCounts × List String
    → Option ℕ
    → World X
    → RegionFetchDetailed X
    → Option (Store X × ApplyCatalogUrlResult)
    → Effects X F Z
task_applied g sur key notify window w d none = record {
  world = w;
  result = task_err (record {
    code = "apply_failed";
    message = unwrap_or sur.failed_statement sur.refusal;
    fetch = some (fetch_meta d window);
    parse = some (parse_meta d false);
  });
  notices = ([], false);
}
task_applied g sur key notify window w d (some (s, applied)) = record {
  world = record {
    store = s;
    catalog =
        upsert_region_notice_in_snapshot key.fid key.gid d.region_notice
          (record w.catalog { fetched_at = applied.fetched_at });
  };
  result = task_ok (record { fetch = fetch_meta d window; parse = parse_meta d true });
  notices = run_notices g sur key notify s applied;
}

abbrev pub page_of : {X : Type 0} → Surroundings X → TaskKey → RegionFetchDetailed X → Fetched X
page_of sur key d = record {
  fid = key.fid;
  gid = key.gid;
  url_key = catalog_region_key key.fid key.gid;
  url = d.url;
  configs = d.configs;
  region_notice = d.region_notice;
  empty_result_authoritative = d.empty_result_authoritative;
  fetched_at = sur.fetched_at;
  ts_minute = sur.ts_minute;
}

abbrev pub unless_failed : {A : Type 0} → Option String → Option A → Option A
unless_failed none applied = applied
unless_failed (some err) applied = none

abbrev pub task_fetched :
    {X F Z : Type 0}
    → Setting X F Z
    → Surroundings X
    → TaskKey
    → ReasonCounts × List String
    → Option ℕ
    → World X
    → Upstream X
    → Effects X F Z
task_fetched g sur key notify window w (failed message) = record {
  world = w;
  result =
      task_err (record { code = "upstream_fetch"; message = message; fetch = none; parse = none });
  notices = ([], false);
}
task_fetched g sur key notify window w (answered d) = task_applied g sur key notify window w d (
    unless_failed sur.failed_statement
      (apply_catalog_url_fetch_success w.store (page_of sur key d)))

abbrev pub task_answered :
    {X F Z : Type 0}
    → Setting X F Z
    → Surroundings X
    → TaskKey
    → ReasonCounts × List String
    → Option ℕ
    → World X
    → Option UrlCache
    → Effects X F Z
task_answered g sur key notify window w none = task_fetched g sur key notify window w sur.upstream
task_answered g sur key notify window w (some cached) = record {
  world = w;
  result = task_ok (cache_ok cached window);
  notices = ([], false);
}

-- The state of the queue is read when the run begins and again when users are told.
unfoldable pub run_task :
    {X F Z : Type 0}
    → Setting X F Z
    → Surroundings X
    → RuntimeState
    → RuntimeState
    → TaskKey
    → World X
    → Effects X F Z
unfolding apply_catalog_url_fetch_success answers_from_cache notify_lifecycle_events
    upsert_region_notice_in_snapshot current_lifecycle_notify_state load_config_lifecycle_records
    load_notification_record_item_map should_emit_lifecycle_notify task_freshness_window_seconds
run_task g sur started later key w =
    let initial = initial_state (get key started.tasks) in
    let cached = get (catalog_region_key key.fid key.gid) w.store.url_cache in
    task_answered g sur key (current_lifecycle_notify_state later key initial)
      (task_freshness_window_seconds initial.0) w
      (if answers_from_cache started key sur.now (map_some (cache_row sur) cached)
        then cached
        else none)
