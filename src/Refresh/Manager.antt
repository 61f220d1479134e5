-- ===== src/Refresh/Manager.antt =====
-- src/catalog_refresh.rs, `CatalogRefreshManager`: the status of the full refresh, the gate on manual
-- triggers and what subscribers are sent. Times at the gate are nanoseconds; the others are texts.
use catnap.Common.{
  ℕ, ◌+◌, ◌*◌, String, Bool, false, List, [], ◌∷◌, Option, none, some, ltb, ◌==◌, eq_string,
  if◌then◌else◌, get, insert,
}
use catnap.Ops.Worker.{nanos_per_second}

abbrev pub manual_min_interval_seconds : ℕ
manual_min_interval_seconds = 30

pub data RefreshTrigger : Type 0 where
  manual auto : RefreshTrigger

abbrev pub as_str : RefreshTrigger → String
as_str manual = "manual"
as_str auto = "auto"

-- src/models.rs
pub record CatalogRefreshCurrent : Type 0 where
  pub url_key : String
  pub url : String
  pub action : String
  pub note : Option String

-- src/models.rs
pub record CatalogRefreshStatus : Type 0 where
  pub job_id : String
  pub state : String
  pub trigger : String
  pub done : ℕ
  pub total : ℕ
  pub message : Option String
  pub started_at : String
  pub updated_at : String
  pub current : Option CatalogRefreshCurrent

-- `Inner`; `sent` is what went out on `tx`, the latest first.
pub record Inner : Type 0 where
  pub status : CatalogRefreshStatus
  pub sent : List CatalogRefreshStatus
  pub manual_gate : List (String × ℕ)

-- `CatalogRefreshManager::new` with the job id and the time given.
unfoldable pub new_manager : String → String → Inner
new_manager job_id now = record {
  status = record {
    job_id = job_id;
    state = "idle";
    trigger = as_str manual;
    done = 0;
    total = 0;
    message = none;
    started_at = now;
    updated_at = now;
    current = none;
  };
  sent = [];
  manual_gate = [];
}

-- Sets the status and sends a copy.
abbrev pub publish : Inner → CatalogRefreshStatus → Inner
publish m st = record m { status = st; sent = st ∷ m.sent }

abbrev pub too_soon : ℕ → Option ℕ → Bool
too_soon now none = false
too_soon now (some last) = ltb now (last + manual_min_interval_seconds * nanos_per_second)

-- The gate: `none` is `TriggerError::RateLimited`.
unfoldable pub pass_gate : Inner → RefreshTrigger → Option String → ℕ → Option Inner
pass_gate m auto user now = some m
pass_gate m manual none now = some m
pass_gate m manual (some user) now =
    if too_soon now (get user m.manual_gate)
    then none
    else some (record m { manual_gate = insert user now m.manual_gate })

-- The status a new job begins with.
abbrev pub begun : CatalogRefreshStatus → RefreshTrigger → String → String → CatalogRefreshStatus
begun st trigger job_id started_at = record st {
  job_id = job_id;
  state = "running";
  trigger = as_str trigger;
  done = 0;
  total = 0;
  message = none;
  started_at = started_at;
  updated_at = started_at;
  current = none;
}

pub data Triggered : Type 0 where
  rate_limited : Triggered
  joined_running : Inner → CatalogRefreshStatus → Triggered
  spawned : Inner → CatalogRefreshStatus → Triggered

abbrev begin : RefreshTrigger → String → String → Option Inner → Triggered
begin trigger job_id started_at none = rate_limited
begin trigger job_id started_at (some m) =
    let st = begun m.status trigger job_id started_at in
    if m.status.state == "running" then joined_running m m.status else spawned (publish m st) st

-- The two locks are taken one after the other: what another call does in between is of no matter to
-- the second part, since the gate and the status are separate.
unfoldable pub trigger_refresh :
    Inner → RefreshTrigger → Option String → ℕ → String → String → Triggered
trigger_refresh m trigger user now job_id started_at =
    begin trigger job_id started_at (pass_gate m trigger user now)

unfoldable pub finish_error : Inner → String → String → Inner
finish_error m message now = publish m (record (m.status) {
  state = "error";
  message = some message;
  updated_at = now;
  current = none;
})

unfoldable pub finish_success : Inner → String → Inner
finish_success m now =
    publish m
      (record (m.status) { state = "success"; message = none; updated_at = now; current = none })

unfoldable pub update_progress : Inner → ℕ → ℕ → Option CatalogRefreshCurrent → String → Inner
update_progress m done total current now =
    publish m
      (record (m.status) { done = done; total = total; updated_at = now; current = current })
