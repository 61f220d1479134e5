-- ===== src/Ops/System.antt =====
-- src/ops.rs, `worker_loop`: the workers and the callers as one machine. Each event is what happens
-- between two places where a task may be suspended; a list of events is an interleaving. An event
-- at a worker that is not where the event happens changes nothing.
pub mod Phases
pub mod Flight
pub mod Force
pub mod Joiners
pub mod Stranded
pub mod Answers
use catnap.Common.{
  ℕ, String, String-append, Bool, true, false, List, [], ◌∷◌, ◌++◌, Option, none, some,
  if◌then◌else◌, get_elem?, set, map, replicate, max,
}
use catnap.Ops.State.{TaskKey, Sender, OpsRunOutcome, RuntimeState, WorkerError, new_state}
use catnap.Ops.Queue.{Enqueued, enqueue}
use catnap.Ops.Worker.{
  StartError, worker_out_of_bounds, task_missing, insert_failed, Inserted, Started, ok, err,
  start_task, finish_task, set_worker_error, TaskCompletion, remove_task_completion,
  complete_or_retry_cache_hit, CacheRow, answers_from_cache,
}

pub data Action : Type 0 where
  cache fetch : Action

-- Where a worker is in its loop.
pub data Phase : Type 0 where
  polling : Phase
  popped : TaskKey → Phase
  running : TaskKey → ℕ → Phase
  cache_hit : TaskKey → ℕ → Phase
  fetching : TaskKey → ℕ → Phase
  sealed : ℕ → Bool → Action → List Sender → Phase

pub record Delivery : Type 0 where
  pub sender : Sender
  pub outcome : OpsRunOutcome
  pub action : Action

pub record System : Type 0 where
  pub runtime : RuntimeState
  pub phases : List Phase
  pub sent : List Delivery

pub data Event : Type 0 where
  enqueues : String → Option String → String → Bool → Option String → ℕ → String → Event
  pops : ℕ → Event
  starts : ℕ → String → Inserted → Event
  looks : ℕ → ℕ → Option CacheRow → Event
  confirms : ℕ → Event
  fetches : ℕ → Bool → Event
  finishes : ℕ → Event

unfoldable pub start : ℕ → System
start concurrency = record {
  runtime = new_state concurrency;
  phases = replicate (max concurrency 1) polling;
  sent = [];
}

abbrev pub move : System → ℕ → RuntimeState → Phase → System
move s i st p = record s { runtime = st; phases = set s.phases i p }

abbrev after_enqueue : System → Enqueued → System
after_enqueue s (Enqueued.ok st notified) = record s { runtime = st }
after_enqueue s (Enqueued.err e) = s

abbrev pub pop_from : System → ℕ → List TaskKey → System
pop_from s i [] = s
pop_from s i (key ∷ rest) = move s i (record (s.runtime) { pending = rest }) (popped key)

unfoldable pub pop_phase : System → ℕ → Phase → System
pop_phase s i polling = pop_from s i s.runtime.pending
pop_phase s i _ = s

abbrev start_error_text : StartError → String
start_error_text worker_out_of_bounds = "worker idx out of bounds"
start_error_text task_missing = "task missing"
start_error_text (insert_failed text) = text

abbrev pub start_error : String → StartError → WorkerError
start_error now e = record {
  ts = now;
  message = String-append "start task failed: " (start_error_text e);
}

-- After a failed start the worker goes on with the next key.
abbrev pub started : System → ℕ → TaskKey → String → RuntimeState × Started → System
started s i key now (st, ok run_id) = move s i st (running key run_id)
started s i key now (st, err e) = move s i (set_worker_error st i (start_error now e)) polling

unfoldable pub start_phase : System → ℕ → String → Inserted → Phase → System
start_phase s i now inserted (popped key) =
    started s i key now (start_task s.runtime i key now inserted)
start_phase s i now inserted _ = s

unfoldable pub look_phase : System → ℕ → ℕ → Option CacheRow → Phase → System
look_phase s i now cached (running key run_id) = move s i s.runtime (
    if answers_from_cache s.runtime key now cached
    then cache_hit key run_id
    else fetching key run_id)
look_phase s i now cached _ = s

abbrev confirmed : System → ℕ → TaskKey → ℕ → Option (RuntimeState × TaskCompletion) → System
confirmed s i key run_id none = move s i s.runtime (running key run_id)
confirmed s i key run_id (some (st, c)) = move s i st (sealed run_id true cache c.joiners)

unfoldable pub confirm_phase : System → ℕ → Phase → System
confirm_phase s i (cache_hit key run_id) =
    confirmed s i key run_id (complete_or_retry_cache_hit s.runtime key)
confirm_phase s i _ = s

unfoldable pub fetch_phase : System → ℕ → Bool → Phase → System
fetch_phase s i success (fetching key run_id) =
    let (st, c) = remove_task_completion s.runtime key in
    move s i st (sealed run_id success fetch c.joiners)
fetch_phase s i success _ = s

abbrev pub deliver : Action → Sender × OpsRunOutcome → Delivery
deliver action (sender, outcome) = record { sender = sender; outcome = outcome; action = action }

abbrev finished :
    System → ℕ → Action → Option (RuntimeState × List (Sender × OpsRunOutcome)) → System
finished s i action none = move s i s.runtime polling
finished s i action (some (st, out)) = record (move s i st polling) {
  sent = s.sent ++ map (deliver action) out;
}

unfoldable pub finish_phase : System → ℕ → Phase → System
finish_phase s i (sealed run_id success action joiners) =
    finished s i action (finish_task s.runtime i run_id success joiners)
finish_phase s i _ = s

-- What a worker does at its place, if there is such a worker.
abbrev pub at : System → ℕ → (Phase → System) → System
at s i f = elim (get_elem? s.phases i) [ none ↦ s | some p ↦ f p ]

unfoldable pub step : System → Event → System
step s (enqueues fid gid reason force_fetch waiter id now) = after_enqueue s (
    enqueue s.runtime fid gid reason force_fetch waiter
      (record { id = id; wants_fetch = force_fetch }) now)
step s (pops i) = at s i (pop_phase s i)
step s (starts i now inserted) = at s i (start_phase s i now inserted)
step s (looks i now cached) = at s i (look_phase s i now cached)
step s (confirms i) = at s i (confirm_phase s i)
step s (fetches i success) = at s i (fetch_phase s i success)
step s (finishes i) = at s i (finish_phase s i)

unfoldable pub run : System → List Event → System
run s [] = s
run s (e ∷ es) = run (step s e) es
