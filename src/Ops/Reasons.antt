-- ===== src/Ops/Reasons.antt =====
-- src/ops.rs, why a task was asked for: freshness windows and the lifecycle notifications.
pub mod Window
use catnap.Common.{
  ℕ, suc, ◌*◌, String, Bool, true, false, ◌||◌, List, [], ◌∷◌, Option, none, some, leb, ◌==◌,
  eq_string, if◌then◌else◌, get, insert, unwrap_or, ◌+◌,
}

-- `HashMap<String, i64>`
abbrev pub ReasonCounts : Type 0
ReasonCounts = List (String × ℕ)

abbrev pub poller_freshness_window_seconds : ℕ
poller_freshness_window_seconds = 45

abbrev pub discovery_freshness_window_seconds : ℕ
discovery_freshness_window_seconds = 150

abbrev pub manual_refresh_freshness_window_seconds : ℕ
manual_refresh_freshness_window_seconds = 5 * 60

abbrev pub auto_refresh_freshness_window_seconds : ℕ
auto_refresh_freshness_window_seconds = 5 * 60

unfoldable pub reason_freshness_window_seconds : String → Option ℕ
reason_freshness_window_seconds reason =
    if reason == "poller_due"
    then some poller_freshness_window_seconds
    else if reason == "discovery_due"
    then some discovery_freshness_window_seconds
    else if reason == "manual_refresh"
    then some manual_refresh_freshness_window_seconds
    else if reason == "auto_refresh"
    then some auto_refresh_freshness_window_seconds
    else none

-- `Iterator::max`, one element at a time.
abbrev pub max_some : Option ℕ → Option ℕ → Option ℕ
max_some none b = b
max_some (some a) none = some a
max_some (some a) (some b) = if leb a b then some b else some a

unfoldable pub task_freshness_window_seconds : ReasonCounts → Option ℕ
task_freshness_window_seconds [] = none
task_freshness_window_seconds ((reason, n) ∷ counts) =
    max_some (reason_freshness_window_seconds reason) (task_freshness_window_seconds counts)

abbrev emits : String → Bool
emits reason =
    reason == "manual_refresh"
    || reason == "auto_refresh"
    || reason == "poller_due"
    || reason == "discovery_due"

unfoldable pub should_emit_lifecycle_notify : ReasonCounts → Bool
should_emit_lifecycle_notify [] = false
should_emit_lifecycle_notify ((reason, n) ∷ counts) =
    emits reason || should_emit_lifecycle_notify counts

-- `*entry.reason_counts.entry(reason).or_insert(0) += 1`
unfoldable pub count_reason : String → ReasonCounts → ReasonCounts
count_reason reason counts = insert reason (unwrap_or (get reason counts) 0 + 1) counts
