-- ===== src/Ops/Examples.antt =====
-- Runs of the queue and the workers, and the theorems at concrete inputs.
use catnap.Common.{
  ℕ, ◌≡◌, refl, true, false, List, [], ◌∷◌, ◌++◌, none, some, eq_string, get, insert, remove, add,
  get_elem?, map, map_some, total, trim,
}
use catnap.Ops.Reasons.{
  ReasonCounts, reason_freshness_window_seconds, task_freshness_window_seconds, count_reason,
}
use catnap.Ops.State.{
  TaskKey, eq_task_key, TaskEntry, TaskEntryState, WorkerRuntime, WorkerState, new_state,
  new_workers, task_key_beq,
}
use catnap.Ops.Queue.{enqueue, enqueue_key, task_key, join, fresh_entry}
use catnap.Ops.Worker.{
  row, refused, start_task, finish_task, set_worker_error, remove_task_completion,
  complete_or_retry_cache_hit, answers_from_cache,
}
use catnap.Ops.System.{
  fetch, Delivery, deliver, polling, System, Event, enqueues, pops, starts, looks, confirms,
  fetches, finishes, start, pop_phase, start_phase, look_phase, confirm_phase, fetch_phase,
  finish_phase, step, run,
}
use catnap.Ops.System.Flight.{Owned, run-start-Owned}
use catnap.Ops.System.Force.{forced_is_fetched}
use catnap.Ops.System.Joiners.{places, asked, callers_conserved}
use catnap.Ops.System.Stranded.{Stranded, refused_start_strands}
use catnap.Ops.System.Answers.{one_run, one_run_answers_all}

-- What a run computes with.
play : ℕ → List Event → System
unfolding run step start new_state new_workers enqueue enqueue_key task_key join fresh_entry trim
    count_reason get insert remove add task_key_beq pop_phase start_phase look_phase confirm_phase
    fetch_phase finish_phase start_task finish_task set_worker_error remove_task_completion
    complete_or_retry_cache_hit answers_from_cache task_freshness_window_seconds
    reason_freshness_window_seconds
play n es = run (start n) es

abbrev two_reasons : ReasonCounts
two_reasons = ("poller_due", 3) ∷ ("discovery_due", 1) ∷ []

two_reasons_window : task_freshness_window_seconds two_reasons ≡ some 150
unfolding task_freshness_window_seconds reason_freshness_window_seconds
two_reasons_window = refl

get-two_reasons : get "poller_due" two_reasons ≡ some 3
unfolding get
get-two_reasons = refl

-- A poller's call and a manual one for the same key, and one for another key.
abbrev calls : List Event
calls =
    enqueues "2" (some " 56 ") "poller_due" false (some "u_1") 1 "t1"
    ∷ enqueues "2" (some "56") "manual_refresh" false none 2 "t2"
    ∷ enqueues "7" (some "") "manual_refresh" false none 3 "t3"
    ∷ enqueues " " none "manual_refresh" false none 4 "t4"
    ∷ []

abbrev key_2_56 : TaskKey
key_2_56 = record { fid = "2"; gid = some "56" }

abbrev key_7 : TaskKey
key_7 = record { fid = "7"; gid = none }

calls_join :
    ((play 2 calls).runtime.pending ≡ key_2_56 ∷ key_7 ∷ []) × ((play 2 calls).runtime.deduped ≡ 1)
unfolding play
calls_join = (refl, refl)

-- A forced caller that joins while the cached row is read.
abbrev late_force : List Event
late_force =
    enqueues "2" (some "56") "manual_refresh" false none 1 "t1"
    ∷ pops 0
    ∷ starts 0 "t2" (row 10)
    ∷ looks 0 1000 (some (record { last_success_at = some 900; produced_configs = 4 }))
    ∷ enqueues "2" (some "56") "manual_refresh" true none 2 "t3"
    ∷ confirms 0
    ∷ looks 0 1100 (some (record { last_success_at = some 900; produced_configs = 4 }))
    ∷ fetches 0 true
    ∷ finishes 0
    ∷ []

late_force_fetches : map (λ d. d.action) (play 2 late_force).sent ≡ fetch ∷ fetch ∷ []
unfolding play
late_force_fetches = refl

run-start-Owned_example : Owned (run (start 2) late_force)
run-start-Owned_example = run-start-Owned 2 late_force

abbrev forced_answer : Delivery
forced_answer = record {
  sender = record { id = 2; wants_fetch = true };
  outcome = record { run_id = 10; ok = true };
  action = fetch;
}

forced_is_fetched_example : forced_answer.action ≡ fetch
unfolding play
forced_is_fetched_example = forced_is_fetched 2 late_force 1 forced_answer refl refl

callers_conserved_example : places 2 (run (start 2) late_force) ≡ total (asked 2) late_force
callers_conserved_example = callers_conserved 2 2 late_force

abbrev first_call : List Event
first_call = enqueues "2" (some "56") "poller_due" false none 1 "t1" ∷ pops 0 ∷ []

abbrev popped_state : System
popped_state = run (start 1) first_call

abbrev first_entry : TaskEntry
first_entry = record {
  state = TaskEntryState.pending;
  enqueued_at = "t1";
  reason_counts = ("poller_due", 1) ∷ [];
  force_fetch = false;
  joiners = record { id = 1; wants_fetch = false } ∷ [];
  poller_waiter_user_ids = [];
}

abbrev idle_worker : WorkerRuntime
idle_worker = record {
  worker_id = 1;
  state = WorkerState.idle;
  task = none;
  started_at = none;
  last_error = none;
}

refused_start_strands_example :
    Stranded key_2_56 first_entry.joiners
      (run (step popped_state (starts 0 "t2" (refused "disk full"))) calls)
unfolding play
refused_start_strands_example =
    refused_start_strands popped_state 0 key_2_56 first_entry idle_worker "t2" "disk full" calls
      (run-start-Owned 1 first_call) refl refl refl

abbrev one_call : List Event
one_call = enqueues "2" (some "56") "poller_due" false none 1 "t1" ∷ []

one_run_answers_all_example :
    let t = run (run (start 1) one_call) (one_run 0 "t2" 10 500 true) in
    (t.sent
      ≡ (run (start 1) one_call).sent
        ++ map
            (deliver fetch)
            (map (λ j. (j, record { run_id = 10; ok = true })) first_entry.joiners))
    × (get_elem? t.phases 0 ≡ some polling)
    × (t.runtime.pending ≡ [])
    × (map_some (λ (entry : TaskEntry). entry.joiners) (get key_2_56 t.runtime.tasks) ≡ none)
unfolding play
one_run_answers_all_example =
    one_run_answers_all (run (start 1) one_call) 0 key_2_56 [] first_entry idle_worker "t2" 10 500
      true refl refl refl refl
