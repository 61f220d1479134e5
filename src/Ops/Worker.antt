-- ===== src/Ops/Worker.antt =====
-- src/ops.rs, what a worker does to the state under the lock: `start_task`, `finish_task`,
-- `set_worker_error`, the end of a run, and the decision of `run_task` to answer from the cache.
use catnap.Common.{
  ℕ, ◌+◌, ◌*◌, ◌^◌, String, Bool, true, false, List, [], Option, none, some, leb, if◌then◌else◌,
  get, insert, remove, get_elem?, set, map,
}
use catnap.Ops.Reasons.{ReasonCounts, task_freshness_window_seconds}
use catnap.Ops.State.{
  TaskKey, eq_task_key, Sender, OpsRunOutcome, TaskEntry, TaskEntryState, WorkerState, WorkerError,
  WorkerRuntime, RuntimeState,
}

pub data StartError : Type 0 where
  worker_out_of_bounds task_missing : StartError
  insert_failed : String → StartError

-- What the insertion of the run's row gives: its id, or the database's error text.
pub data Inserted : Type 0 where
  row : ℕ → Inserted
  refused : String → Inserted

pub data Started : Type 0 where
  ok : ℕ → Started
  err : StartError → Started

abbrev take_up : WorkerRuntime → TaskKey → String → WorkerRuntime
take_up w key now = record w { state = WorkerState.busy; task = some key; started_at = some now }

-- The row of the run is inserted while the lock is held. The worker is marked before the entry is looked up and before the row is inserted.
abbrev pub start_entry :
    RuntimeState → TaskKey → String → Inserted → Option TaskEntry → RuntimeState × Started
start_entry st key now inserted none = (st, err StartError.task_missing)
start_entry st key now (refused text) (some entry) = (st, err (StartError.insert_failed text))
start_entry st key now (row run_id) (some entry) = (
  record st {
    tasks = insert key (record entry { state = TaskEntryState.running run_id now }) st.tasks;
  },
  ok run_id,
)

unfoldable pub start_task : RuntimeState → ℕ → TaskKey → String → Inserted → RuntimeState × Started
start_task st i key now inserted = elim (get_elem? st.workers i) [
  | none ↦ (st, err StartError.worker_out_of_bounds)
  | some w ↦
      start_entry (record st { workers = set st.workers i (take_up w key now) }) key now inserted
        (get key st.tasks)
]

abbrev put_down : WorkerRuntime → WorkerRuntime
put_down w = record w { state = WorkerState.idle; task = none; started_at = none }

-- `none` is the error "worker idx out of bounds": nothing is sent.
unfoldable pub finish_task :
    RuntimeState
    → ℕ
    → ℕ
    → Bool
    → List Sender
    → Option (RuntimeState × List (Sender × OpsRunOutcome))
finish_task st i run_id success joiners = elim (get_elem? st.workers i) [
  | none ↦ none
  | some w ↦ some (
    record st { workers = set st.workers i (put_down w) },
    map (λ j. (j, record { run_id = run_id; ok = success })) joiners,
  )
]

unfoldable pub set_worker_error : RuntimeState → ℕ → WorkerError → RuntimeState
set_worker_error st i error = elim (get_elem? st.workers i) [
  | none ↦ st
  | some w ↦ record st {
    workers = set st.workers i (record w { state = WorkerState.failed; last_error = some error });
  }
]

pub record TaskCompletion : Type 0 where
  pub reason_counts : ReasonCounts
  pub joiners : List Sender

abbrev pub completion_of : Option TaskEntry → TaskCompletion
completion_of none = record { reason_counts = []; joiners = [] }
completion_of (some entry) = record { reason_counts = entry.reason_counts; joiners = entry.joiners }

-- Also `seal_task_for_completion`, which is this under the lock.
unfoldable pub remove_task_completion : RuntimeState → TaskKey → RuntimeState × TaskCompletion
remove_task_completion st key =
    (record st { tasks = remove key st.tasks }, completion_of (get key st.tasks))

abbrev pub is_forced : Option TaskEntry → Bool
is_forced none = false
is_forced (some entry) = entry.force_fetch

-- `none`: a forced caller came while the cache was read, and the run is made again.
unfoldable pub complete_or_retry_cache_hit :
    RuntimeState → TaskKey → Option (RuntimeState × TaskCompletion)
unfolding remove_task_completion
complete_or_retry_cache_hit st key =
    if is_forced (get key st.tasks) then none else some (remove_task_completion st key)

-- A row of the URL cache as `run_task` reads it: the time of the last success, or `none` where the
-- stored text is no RFC 3339 time.
pub record CacheRow : Type 0 where
  pub last_success_at : Option ℕ
  pub produced_configs : ℕ

abbrev pub nanos_per_second : ℕ
nanos_per_second = 10 ^ 9

-- `now - last_success_at <= window`, also where the row is from the future.
abbrev is_fresh : ℕ → ℕ → Option CacheRow → Bool
is_fresh now window none = false
is_fresh now window (some cached) = elim cached.last_success_at [
  | none ↦ false
  | some last ↦ leb now (last + window * nanos_per_second)
]

abbrev answers : Bool → Option ℕ → ℕ → Option CacheRow → Bool
answers true window now cached = false
answers false none now cached = false
answers false (some window) now cached = is_fresh now window cached

abbrev counts_of : Option TaskEntry → ReasonCounts
counts_of none = []
counts_of (some entry) = entry.reason_counts

-- Whether `run_task` answers from the cache, by the entry as it stands when the run begins.
unfoldable pub answers_from_cache : RuntimeState → TaskKey → ℕ → Option CacheRow → Bool
answers_from_cache st key now cached =
    let entry = get key st.tasks in
    answers (is_forced entry) (task_freshness_window_seconds (counts_of entry)) now cached
