-- ===== src/Config/Examples.antt =====
-- The configuration of an environment that sets some numbers out of range.
use catnap.Common.{
  ℕ, ◌≤◌, String, Bool, true, ◌≡◌, refl, Option, none, some, leb, ◌==◌, eq_string, if◌then◌else◌,
  at_least, between, pos, trim, trim_start, trim_end, parse_i64, parse_digits, is_whitespace,
}
use catnap.Config.{RuntimeConfig, Env, from_env, number_or}
use catnap.Config.Bounds.{from_env-bounds}

abbrev zero_workers : Env
zero_workers name =
    if name == "CATNAP_OPS_WORKER_CONCURRENCY"
    then some " 0 "
    else if name == "CATNAP_UPDATE_CHECK_TIMEOUT_MS"
    then some "+30000"
    else none

-- A jitter in thousandths.
abbrev thousandths : ℕ → Bool
thousandths n = leb n 1000

abbrev no_parser : String → Option ℕ
no_parser s = none

abbrev pub config : RuntimeConfig ℕ
config = from_env no_parser thousandths 100 "0.1.0" zero_workers

timeout_is_read : config.update_check_timeout_ms ≡ pos 30000
unfolding from_env number_or trim trim_start trim_end parse_i64 parse_digits is_whitespace
timeout_is_read = refl

from_env-bounds_example :
    (at_least 0 config.update_check_ttl_seconds ≡ true)
    × (between 200 30000 config.update_check_timeout_ms ≡ true)
    × (at_least 1 config.lazycat_site_sync_interval_minutes ≡ true)
    × (at_least 1 config.lazycat_panel_sync_interval_minutes ≡ true)
    × ((1 ≤ config.lazycat_panel_concurrency) × (config.lazycat_panel_concurrency ≤ 16))
    × (between 500 60000 config.lazycat_panel_timeout_ms ≡ true)
    × (at_least 1 config.default_poll_interval_minutes ≡ true)
    × (thousandths config.default_poll_jitter_pct ≡ true)
    × (at_least 0 config.log_retention_days ≡ true)
    × (at_least 0 config.log_retention_max_rows ≡ true)
    × (at_least 0 config.notification_retention_days ≡ true)
    × (at_least 0 config.notification_retention_max_rows ≡ true)
    × ((1 ≤ config.ops_worker_concurrency) × (config.ops_worker_concurrency ≤ 64))
    × (at_least 1 config.ops_sse_replay_window_seconds ≡ true)
    × (at_least 0 config.ops_log_retention_days ≡ true)
    × (between 1 500 config.ops_log_tail_limit_default ≡ true)
    × (between 1 500 config.ops_queue_task_limit_default ≡ true)
from_env-bounds_example = from_env-bounds no_parser thousandths 100 "0.1.0" zero_workers refl
