-- ===== src/Ops/State.antt =====
-- src/ops.rs, the state behind the manager's lock: `TaskKey`, `TaskEntry`, `WorkerRuntime` and
-- `RuntimeState`. Times are points on a line in nanoseconds where they are compared, and texts
-- where they are only stored.
use catnap.Common.{
  ℕ, zero, suc, max, length, ap, refl, String, ◌≡◌, ◌↔◌, Bool, true, ◌&&◌, List, [], ◌∷◌, Option,
  none, arith, PartialEq, ◌==◌, eq_nat, eq_string, eq_option, ==_iff,
}
use catnap.Ops.Reasons.{ReasonCounts}

pub record TaskKey : Type 0 where
  pub fid : String
  pub gid : Option String

unfoldable pub task_key_beq : TaskKey → TaskKey → Bool
task_key_beq a b = a.fid == b.fid && a.gid == b.gid

pub task_key_beq_iff : (a b : TaskKey) → (task_key_beq a b ≡ true) ↔ (a ≡ b)
unfolding task_key_beq
task_key_beq_iff a b = ground (arith, ==_iff a.fid b.fid, ==_iff a.gid b.gid)

-- `derive(PartialEq)`
instance abbrev pub eq_task_key : PartialEq TaskKey
eq_task_key = record { eq = task_key_beq; agrees = task_key_beq_iff }

-- The sending end of a oneshot channel. `wants_fetch` is the model's own record of the call that
-- made the channel: whether it asked for a forced fetch.
pub record Sender : Type 0 where
  pub id : ℕ
  pub wants_fetch : Bool

pub record OpsRunOutcome : Type 0 where
  pub run_id : ℕ
  pub ok : Bool

pub data TaskEntryState : Type 0 where
  pending : TaskEntryState
  running : ℕ → String → TaskEntryState

pub record TaskEntry : Type 0 where
  pub state : TaskEntryState
  pub enqueued_at : String
  pub reason_counts : ReasonCounts
  pub force_fetch : Bool
  pub joiners : List Sender
  pub poller_waiter_user_ids : List String

pub data WorkerState : Type 0 where
  idle busy failed : WorkerState

pub record WorkerError : Type 0 where
  pub ts : String
  pub message : String

pub record WorkerRuntime : Type 0 where
  pub worker_id : ℕ  -- the number n of `w{n}`
  pub state : WorkerState
  pub task : Option TaskKey
  pub started_at : Option String
  pub last_error : Option WorkerError

pub record RuntimeState : Type 0 where
  pub deduped : ℕ
  pub pending : List TaskKey
  pub tasks : List (TaskKey × TaskEntry)
  pub workers : List WorkerRuntime

-- The workers `w1`, `w2`, … of a new manager, from the number given.
unfoldable pub new_workers : ℕ → ℕ → List WorkerRuntime
new_workers i zero = []
new_workers i (suc n) =
    record { worker_id = suc i; state = idle; task = none; started_at = none; last_error = none }
    ∷ new_workers (suc i) n

-- `OpsManager::new`, with at least one worker.
unfoldable pub new_state : ℕ → RuntimeState
unfolding new_workers
new_state concurrency = record {
  deduped = 0;
  pending = [];
  tasks = [];
  workers = new_workers 0 (max concurrency 1);
}

pub length-new_workers : (i n : ℕ) → length (new_workers i n) ≡ n
unfolding new_workers
length-new_workers i zero = refl
length-new_workers i (suc n) = ap suc (length-new_workers (suc i) n)
