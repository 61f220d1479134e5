-- ===== src/Config.antt =====
-- src/config.rs: the configuration read from the environment.
pub mod Bounds
pub mod Examples
use catnap.Common.{
  ℕ, ◌*◌, String, Bool, true, false, not, ◌||◌, List, [], ◌∷◌, Option, none, some, leb, ◌==◌,
  eq_nat, if◌then◌else◌, map, filter_some, map_some, and_then, unwrap_or, is_empty, trim, codes, ℤ,
  pos, negsuc, at_least, between, parse_i64, ascii_lowercase, PartialEq, contains,
}

-- `RuntimeConfig`; its one floating-point field has a type of its own.
pub record RuntimeConfig (F : Type 0) : Type 0 where
  pub bind_addr : String
  pub effective_version : String
  pub repo_url : String
  pub update_repo : String
  pub update_check_enabled : Bool
  pub update_check_ttl_seconds : ℤ
  pub update_check_timeout_ms : ℤ
  pub github_api_base_url : String
  pub upstream_cart_url : String
  pub lazycat_base_url : String
  pub lazycat_site_sync_interval_minutes : ℤ
  pub lazycat_panel_sync_interval_minutes : ℤ
  pub lazycat_panel_concurrency : ℕ
  pub lazycat_panel_timeout_ms : ℤ
  pub lazycat_allow_invalid_tls : Bool
  pub telegram_api_base_url : String
  pub auth_user_header : Option String
  pub dev_user_id : Option String
  pub default_poll_interval_minutes : ℤ
  pub default_poll_jitter_pct : F
  pub log_retention_days : ℤ
  pub log_retention_max_rows : ℤ
  pub notification_retention_days : ℤ
  pub notification_retention_max_rows : ℤ
  pub ops_worker_concurrency : ℕ
  pub ops_sse_replay_window_seconds : ℤ
  pub ops_log_retention_days : ℤ
  pub ops_log_tail_limit_default : ℤ
  pub ops_queue_task_limit_default : ℤ
  pub db_url : String
  pub web_push_vapid_public_key : Option String
  pub web_push_vapid_private_key : Option String
  pub web_push_vapid_subject : Option String
  pub allow_insecure_local_web_push_endpoints : Bool

-- `env::var(…).ok()`
abbrev pub Env : Type 0
Env = String → Option String

abbrev is_non_empty : String → Bool
is_non_empty s = not (is_empty s)

-- `.map(|v| v.trim().to_string()).filter(|v| !v.is_empty())`
unfoldable pub trimmed : Option String → Option String
trimmed v = filter_some is_non_empty (map_some trim v)

unfoldable pub trimmed_or : Option String → String → String
unfolding trimmed
trimmed_or v default = unwrap_or (trimmed v) default

-- `.and_then(|v| v.trim().parse::<i64>().ok()).filter(…).unwrap_or(…)`
unfoldable pub number_or : Option String → (ℤ → Bool) → ℕ → ℤ
number_or v is_valid default =
    unwrap_or (filter_some is_valid (and_then v (λ s. parse_i64 (trim s)))) (pos default)

-- `as usize` of a number that is not negative.
abbrev pub as_usize : ℤ → ℕ
as_usize (pos n) = n
as_usize (negsuc n) = 0

abbrev lowered : String → List ℕ
lowered s = map ascii_lowercase (codes (trim s))

abbrev is_filled : List ℕ → Bool
is_filled [] = false
is_filled (c ∷ cs) = true

abbrev codes_eq : List ℕ → List ℕ → Bool
codes_eq [] [] = true
codes_eq [] (d ∷ ds) = false
codes_eq (c ∷ cs) [] = false
codes_eq (c ∷ cs) (d ∷ ds) = if c == d then codes_eq cs ds else false

-- `matches!(v.as_str(), "1" | "true" | "yes" | "y" | "on")`
abbrev is_yes : List ℕ → Bool
is_yes v =
    codes_eq v (codes "1")
    || codes_eq v (codes "true")
    || codes_eq v (codes "yes")
    || codes_eq v (codes "y")
    || codes_eq v (codes "on")

unfoldable pub flag_or_true : Option String → Bool
flag_or_true v = unwrap_or (map_some is_yes (filter_some is_filled (map_some lowered v))) true

-- From the environment, the version of the package, and `f64` as the program uses it: the parser, the
-- test of 0.0..=1.0, and the constant 0.1.
unfoldable pub from_env :
    {F : Type 0} → (String → Option F) → (F → Bool) → F → String → Env → RuntimeConfig F
unfolding trimmed trimmed_or number_or flag_or_true
from_env parse_f64 in_unit tenth pkg_version env = record {
  bind_addr = unwrap_or (env "BIND_ADDR") "0.0.0.0:18080";
  effective_version =
      unwrap_or (filter_some (λ v. is_non_empty (trim v)) (env "APP_EFFECTIVE_VERSION"))
        pkg_version;
  repo_url = trimmed_or (env "CATNAP_REPO_URL") "https://github.com/IvanLi-CN/catnap";
  update_repo = trimmed_or (env "CATNAP_UPDATE_REPO") "IvanLi-CN/catnap";
  update_check_enabled = flag_or_true (env "CATNAP_UPDATE_CHECK_ENABLED");
  update_check_ttl_seconds =
      number_or (env "CATNAP_UPDATE_CHECK_TTL_SECONDS") (at_least 0) (6 * 60 * 60);
  update_check_timeout_ms =
      number_or (env "CATNAP_UPDATE_CHECK_TIMEOUT_MS") (between 200 30000) 1500;
  github_api_base_url = trimmed_or (env "CATNAP_GITHUB_API_BASE_URL") "https://api.github.com";
  upstream_cart_url = unwrap_or (env "CATNAP_UPSTREAM_CART_URL") "https://lxc.lazycat.wiki/cart";
  lazycat_base_url = trimmed_or (env "CATNAP_LAZYCAT_BASE_URL") "https://lxc.lazycat.wiki";
  lazycat_site_sync_interval_minutes =
      number_or (env "CATNAP_LAZYCAT_SITE_SYNC_INTERVAL_MINUTES") (at_least 1) 5;
  lazycat_panel_sync_interval_minutes =
      number_or (env "CATNAP_LAZYCAT_PANEL_SYNC_INTERVAL_MINUTES") (at_least 1) 10;
  lazycat_panel_concurrency =
      as_usize (number_or (env "CATNAP_LAZYCAT_PANEL_CONCURRENCY") (between 1 16) 2);
  lazycat_panel_timeout_ms =
      number_or (env "CATNAP_LAZYCAT_PANEL_TIMEOUT_MS") (between 500 60000) 5000;
  lazycat_allow_invalid_tls = flag_or_true (env "CATNAP_LAZYCAT_ALLOW_INVALID_TLS");
  telegram_api_base_url =
      trimmed_or (env "CATNAP_TELEGRAM_API_BASE_URL") "https://api.telegram.org";
  auth_user_header = trimmed (env "CATNAP_AUTH_USER_HEADER");
  dev_user_id = trimmed (env "CATNAP_DEV_USER_ID");
  default_poll_interval_minutes =
      number_or (env "CATNAP_DEFAULT_POLL_INTERVAL_MINUTES") (at_least 1) 1;
  default_poll_jitter_pct =
      unwrap_or
        (filter_some in_unit
          (and_then (env "CATNAP_DEFAULT_POLL_JITTER_PCT") (λ v. parse_f64 (trim v))))
        tenth;
  log_retention_days = number_or (env "CATNAP_LOG_RETENTION_DAYS") (at_least 0) 7;
  log_retention_max_rows = number_or (env "CATNAP_LOG_RETENTION_MAX_ROWS") (at_least 0) 10000;
  notification_retention_days =
      number_or (env "CATNAP_NOTIFICATION_RETENTION_DAYS") (at_least 0) 30;
  notification_retention_max_rows =
      number_or (env "CATNAP_NOTIFICATION_RETENTION_MAX_ROWS") (at_least 0) 50000;
  ops_worker_concurrency =
      as_usize (number_or (env "CATNAP_OPS_WORKER_CONCURRENCY") (between 1 64) 2);
  ops_sse_replay_window_seconds =
      number_or (env "CATNAP_OPS_SSE_REPLAY_WINDOW_SECONDS") (at_least 1) 3600;
  ops_log_retention_days = number_or (env "CATNAP_OPS_LOG_RETENTION_DAYS") (at_least 0) 7;
  ops_log_tail_limit_default =
      number_or (env "CATNAP_OPS_LOG_TAIL_LIMIT_DEFAULT") (between 1 500) 200;
  ops_queue_task_limit_default =
      number_or (env "CATNAP_OPS_QUEUE_TASK_LIMIT_DEFAULT") (between 1 500) 200;
  db_url = unwrap_or (env "CATNAP_DB_URL") "sqlite:catnap.db";
  web_push_vapid_public_key = trimmed (env "CATNAP_WEB_PUSH_VAPID_PUBLIC_KEY");
  web_push_vapid_private_key = trimmed (env "CATNAP_WEB_PUSH_VAPID_PRIVATE_KEY");
  web_push_vapid_subject = trimmed (env "CATNAP_WEB_PUSH_VAPID_SUBJECT");
  allow_insecure_local_web_push_endpoints = false;
}
