-- ===== src/Config/Bounds.antt =====
-- The configuration is in its ranges whatever the environment holds.
use catnap.Common.{
  ℕ, ◌≤◌, String, Bool, true, ◌≡◌, refl, Option, none, some, arith, filter_some, and_then,
  unwrap_or, trim, ℤ, pos, negsuc, at_least, between, parse_i64, Bool-cases, inl, inr,
}
use catnap.Config.{Env, number_or, from_env, as_usize}

filtered-valid :
    {A : Type 0} (is_valid : A → Bool) (o : Option A) (default : A)
    → is_valid default ≡ true
    → is_valid (unwrap_or (filter_some is_valid o) default) ≡ true
filtered-valid is_valid none default h = h
filtered-valid is_valid (some a) default h = elim (Bool-cases (is_valid a)) [
  | inl good ↦ rw good good
  | inr bad ↦ rw bad h
]

number_or-valid :
    (v : Option String) (is_valid : ℤ → Bool) (default : ℕ)
    → is_valid (pos default) ≡ true
    → is_valid (number_or v is_valid default) ≡ true
unfolding number_or
number_or-valid v is_valid default h =
    filtered-valid is_valid (and_then v (λ s. parse_i64 (trim s))) (pos default) h

as_usize-between :
    (low high : ℕ) (z : ℤ) → between low high z ≡ true → (low ≤ as_usize z) × (as_usize z ≤ high)
as_usize-between low high (pos n) h = ground arith
as_usize-between low high (negsuc n) h = cc

usize-valid :
    (v : Option String) (high default : ℕ)
    → between 1 high (pos default) ≡ true
    → let n = as_usize (number_or v (between 1 high) default) in (1 ≤ n) × (n ≤ high)
usize-valid v high default h =
    as_usize-between 1 high (number_or v (between 1 high) default)
      (number_or-valid v (between 1 high) default h)

-- The numbers of a configuration are in their ranges, and so is the jitter if the constant is.
pub from_env-bounds :
    {F : Type 0} (parse_f64 : String → Option F) (in_unit : F → Bool) (tenth : F)
    (pkg_version : String) (env : Env)
    → in_unit tenth ≡ true
    → let cfg = from_env parse_f64 in_unit tenth pkg_version env in
      (at_least 0 cfg.update_check_ttl_seconds ≡ true)
      × (between 200 30000 cfg.update_check_timeout_ms ≡ true)
      × (at_least 1 cfg.lazycat_site_sync_interval_minutes ≡ true)
      × (at_least 1 cfg.lazycat_panel_sync_interval_minutes ≡ true)
      × ((1 ≤ cfg.lazycat_panel_concurrency) × (cfg.lazycat_panel_concurrency ≤ 16))
      × (between 500 60000 cfg.lazycat_panel_timeout_ms ≡ true)
      × (at_least 1 cfg.default_poll_interval_minutes ≡ true)
      × (in_unit cfg.default_poll_jitter_pct ≡ true)
      × (at_least 0 cfg.log_retention_days ≡ true)
      × (at_least 0 cfg.log_retention_max_rows ≡ true)
      × (at_least 0 cfg.notification_retention_days ≡ true)
      × (at_least 0 cfg.notification_retention_max_rows ≡ true)
      × ((1 ≤ cfg.ops_worker_concurrency) × (cfg.ops_worker_concurrency ≤ 64))
      × (at_least 1 cfg.ops_sse_replay_window_seconds ≡ true)
      × (at_least 0 cfg.ops_log_retention_days ≡ true)
      × (between 1 500 cfg.ops_log_tail_limit_default ≡ true)
      × (between 1 500 cfg.ops_queue_task_limit_default ≡ true)
unfolding from_env
from_env-bounds parse_f64 in_unit tenth pkg_version env h = (
  number_or-valid (env "CATNAP_UPDATE_CHECK_TTL_SECONDS") (at_least 0) 21600 refl,
  number_or-valid (env "CATNAP_UPDATE_CHECK_TIMEOUT_MS") (between 200 30000) 1500 refl,
  number_or-valid (env "CATNAP_LAZYCAT_SITE_SYNC_INTERVAL_MINUTES") (at_least 1) 5 refl,
  number_or-valid (env "CATNAP_LAZYCAT_PANEL_SYNC_INTERVAL_MINUTES") (at_least 1) 10 refl,
  usize-valid (env "CATNAP_LAZYCAT_PANEL_CONCURRENCY") 16 2 refl,
  number_or-valid (env "CATNAP_LAZYCAT_PANEL_TIMEOUT_MS") (between 500 60000) 5000 refl,
  number_or-valid (env "CATNAP_DEFAULT_POLL_INTERVAL_MINUTES") (at_least 1) 1 refl,
  filtered-valid in_unit (and_then (env "CATNAP_DEFAULT_POLL_JITTER_PCT") (λ v. parse_f64 (trim v)))
      tenth h,
  number_or-valid (env "CATNAP_LOG_RETENTION_DAYS") (at_least 0) 7 refl,
  number_or-valid (env "CATNAP_LOG_RETENTION_MAX_ROWS") (at_least 0) 10000 refl,
  number_or-valid (env "CATNAP_NOTIFICATION_RETENTION_DAYS") (at_least 0) 30 refl,
  number_or-valid (env "CATNAP_NOTIFICATION_RETENTION_MAX_ROWS") (at_least 0) 50000 refl,
  usize-valid (env "CATNAP_OPS_WORKER_CONCURRENCY") 64 2 refl,
  number_or-valid (env "CATNAP_OPS_SSE_REPLAY_WINDOW_SECONDS") (at_least 1) 3600 refl,
  number_or-valid (env "CATNAP_OPS_LOG_RETENTION_DAYS") (at_least 0) 7 refl,
  number_or-valid (env "CATNAP_OPS_LOG_TAIL_LIMIT_DEFAULT") (between 1 500) 200 refl,
  number_or-valid (env "CATNAP_OPS_QUEUE_TASK_LIMIT_DEFAULT") (between 1 500) 200 refl,
)
