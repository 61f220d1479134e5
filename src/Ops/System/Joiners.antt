-- ===== src/Ops/System/Joiners.antt =====
-- Callers are conserved: each accepted call has one answer to come or one answer given.
use catnap.Common.{
  ℕ, ◌+◌, ◌≡◌, refl, sym, ◌∙◌, String, Bool, not, ◌&&◌, List, [], ◌∷◌, Option, none, some, arith,
  ◌==◌, eq_nat, if◌then◌else◌, get_elem?, length, length-set, map, trim, is_empty, max, total,
  total-set, total-append, total-replicate, Distinct, insert-Distinct, remove-Distinct,
  total_values, value_or_zero, total_values-insert, total_values-remove, get_elem?-of_length,
  length-replicate,
}
use catnap.Ops.State.{
  TaskKey, eq_task_key, RuntimeState, Sender, TaskEntry, WorkerError, new_state, length-new_workers,
}
use catnap.Ops.Queue.{enqueue_key, enqueue, task_key, non_blank, join, fresh_entry}
use catnap.Ops.Worker.{
  Inserted, Started, ok, err, start_task, set_worker_error, remove_task_completion,
  complete_or_retry_cache_hit, finish_task, CacheRow, completion_of,
}
use catnap.Ops.System.{
  Action, Phase, polling, popped, sealed, Delivery, deliver, System, Event, enqueues, pops, starts,
  looks, confirms, fetches, finishes, start, move, start_error, started, pop_phase, start_phase,
  look_phase, confirm_phase, fetch_phase, finish_phase, step, run,
}
use catnap.Ops.System.Phases.{at-cases, enqueue-cases}

-- 1 for the call in question.
abbrev is_call : ℕ → Sender → ℕ
is_call n j = if j.id == n then 1 else 0

abbrev waiting : ℕ → TaskEntry → ℕ
waiting n entry = total (is_call n) entry.joiners

abbrev in_hand : ℕ → Phase → ℕ
in_hand n (sealed run_id success action joiners) = total (is_call n) joiners
in_hand n _ = 0

abbrev answered : ℕ → Delivery → ℕ
answered n d = is_call n d.sender

-- How often a call waits in a task, is held by a worker that has sealed its task, or is answered.
abbrev pub places : ℕ → System → ℕ
places n s =
    total_values (waiting n) s.runtime.tasks
    + total (in_hand n) s.phases
    + total (answered n) s.sent

-- One worker has one phase, and one key one task.
pub record Shaped (s : System) : Type 0 where
  pub sized : length s.runtime.workers ≡ length s.phases
  pub distinct : Distinct s.runtime.tasks

abbrev Balanced : System → System → ℕ → ℕ → Type 0
Balanced s t n asked = places n t ≡ places n s + asked

enqueue_key-places :
    (s : System) (n : ℕ) (key : TaskKey) (reason : String) (force : Bool) (waiter : Option String)
    (id : ℕ) (now : String)
    → Balanced s
        (record s {
          runtime =
              (enqueue_key s.runtime key reason force waiter
                (record { id = id; wants_fetch = force })
                now).0;
        })
        n
        (if id == n then 1 else 0)
unfolding enqueue_key join fresh_entry
enqueue_key-places s n key reason force waiter id now =
    grind (arith, total_values-insert, total-append)

pop_phase-places :
    (s : System) (n i : ℕ) (p : Phase)
    → get_elem? s.phases i ≡ some p
    → Balanced s (pop_phase s i p) n 0
unfolding pop_phase
pop_phase-places s n i p e = grind (arith, total-set)

start_phase-places :
    (s : System) (n i : ℕ) (now : String) (inserted : Inserted) (p : Phase)
    → get_elem? s.phases i ≡ some p
    → Balanced s (start_phase s i now inserted p) n 0
unfolding start_phase start_task set_worker_error
start_phase-places s n i now inserted p e = grind (arith, total-set, total_values-insert)

look_phase-places :
    (s : System) (n i now : ℕ) (cached : Option CacheRow) (p : Phase)
    → get_elem? s.phases i ≡ some p
    → Balanced s (look_phase s i now cached p) n 0
unfolding look_phase
look_phase-places s n i now cached p e = grind (arith, total-set)

completion-places :
    (n : ℕ) (o : Option TaskEntry)
    → total (is_call n) (completion_of o).joiners ≡ value_or_zero (waiting n) o
completion-places n none = refl
completion-places n (some entry) = refl

confirm_phase-places :
    (s : System) (n i : ℕ) (p : Phase)
    → Shaped s
    → get_elem? s.phases i ≡ some p
    → Balanced s (confirm_phase s i p) n 0
unfolding confirm_phase complete_or_retry_cache_hit remove_task_completion
confirm_phase-places s n i p h e =
    grind (arith, total-set, total_values-remove, completion-places, h.distinct)

fetch_phase-places :
    (s : System) (n i : ℕ) (success : Bool) (p : Phase)
    → Shaped s
    → get_elem? s.phases i ≡ some p
    → Balanced s (fetch_phase s i success p) n 0
unfolding fetch_phase remove_task_completion
fetch_phase-places s n i success p h e =
    grind (arith, total-set, total_values-remove, completion-places, h.distinct)

deliver-places :
    (n run_id : ℕ) (success : Bool) (action : Action) (js : List Sender)
    → total
        (answered n)
        (map (deliver action) (map (λ j. (j, record { run_id = run_id; ok = success })) js))
      ≡ total (is_call n) js
deliver-places n run_id success action [] = refl
deliver-places n run_id success action (j ∷ js) =
    omega (arith, deliver-places n run_id success action js)

finish_phase-places :
    (s : System) (n i : ℕ) (p : Phase)
    → Shaped s
    → get_elem? s.phases i ≡ some p
    → Balanced s (finish_phase s i p) n 0
unfolding finish_phase finish_task
finish_phase-places s n i p h e =
    let (w, there) = get_elem?-of_length s.phases s.runtime.workers i h.sized e in
    grind (arith, total-set, total-append, deliver-places, there)

enqueue_key-Shaped :
    (s : System) (key : TaskKey) (reason : String) (force : Bool) (waiter : Option String)
    (tx : Sender) (now : String)
    → Shaped s
    → Shaped (record s { runtime = (enqueue_key s.runtime key reason force waiter tx now).0 })
unfolding enqueue_key
enqueue_key-Shaped s key reason force waiter tx now h =
    grind (arith, insert-Distinct, h.distinct, h.sized)

phase-Shaped :
    (s : System) (i : ℕ) (st : RuntimeState) (p : Phase)
    → length st.workers ≡ length s.runtime.workers
    → Distinct st.tasks
    → Shaped s
    → Shaped (move s i st p)
phase-Shaped s i st p sized distinct h = record {
  sized = omega (arith, length-set {0} s.phases i p, h.sized);
  distinct = distinct;
}

start_task-Shaped :
    (st : RuntimeState) (i : ℕ) (key : TaskKey) (now : String) (inserted : Inserted)
    → Distinct st.tasks
    → (length (start_task st i key now inserted).0.workers ≡ length st.workers)
      × Distinct (start_task st i key now inserted).0.tasks
unfolding start_task
start_task-Shaped st i key now inserted d = grind (arith, length-set, insert-Distinct)

set_worker_error-Shaped :
    (st : RuntimeState) (i : ℕ) (error : WorkerError)
    → (length (set_worker_error st i error).workers ≡ length st.workers)
      × ((set_worker_error st i error).tasks ≡ st.tasks)
unfolding set_worker_error
set_worker_error-Shaped st i error = grind (arith, length-set)

started-Shaped :
    (s : System) (i : ℕ) (key : TaskKey) (now : String) (r : RuntimeState × Started)
    → (length r.0.workers ≡ length s.runtime.workers) × Distinct r.0.tasks
    → Shaped s
    → Shaped (started s i key now r)
started-Shaped s i key now (st, ok run_id) (l, d) h = phase-Shaped s i st _ l d h
started-Shaped s i key now (st, err e) (l, d) h =
    let (l', same) = set_worker_error-Shaped st i (start_error now e) in
    phase-Shaped s i (set_worker_error st i (start_error now e)) polling (l' ∙ l) (rw same d) h

pop_phase-Shaped : (s : System) (i : ℕ) (p : Phase) → Shaped s → Shaped (pop_phase s i p)
unfolding pop_phase
pop_phase-Shaped s i p h = grind (arith, length-set, h.distinct, h.sized)

start_phase-Shaped :
    (s : System) (i : ℕ) (now : String) (inserted : Inserted) (p : Phase)
    → Shaped s
    → Shaped (start_phase s i now inserted p)
unfolding start_phase
start_phase-Shaped s i now inserted (popped key) h =
    started-Shaped s i key now (start_task s.runtime i key now inserted)
      (start_task-Shaped s.runtime i key now inserted h.distinct) h
start_phase-Shaped s i now inserted _ h = h

look_phase-Shaped :
    (s : System) (i now : ℕ) (cached : Option CacheRow) (p : Phase)
    → Shaped s
    → Shaped (look_phase s i now cached p)
unfolding look_phase
look_phase-Shaped s i now cached p h = grind (arith, length-set, h.distinct, h.sized)

confirm_phase-Shaped : (s : System) (i : ℕ) (p : Phase) → Shaped s → Shaped (confirm_phase s i p)
unfolding confirm_phase complete_or_retry_cache_hit remove_task_completion
confirm_phase-Shaped s i p h = grind (arith, length-set, remove-Distinct, h.distinct, h.sized)

fetch_phase-Shaped :
    (s : System) (i : ℕ) (success : Bool) (p : Phase)
    → Shaped s
    → Shaped (fetch_phase s i success p)
unfolding fetch_phase remove_task_completion
fetch_phase-Shaped s i success p h = grind (arith, length-set, remove-Distinct, h.distinct, h.sized)

finish_phase-Shaped : (s : System) (i : ℕ) (p : Phase) → Shaped s → Shaped (finish_phase s i p)
unfolding finish_phase finish_task
finish_phase-Shaped s i p h = grind (arith, length-set, h.distinct, h.sized)

step-Shaped : (s : System) (e : Event) → Shaped s → Shaped (step s e)
unfolding step
step-Shaped s (enqueues fid gid reason force waiter id now) h =
    enqueue-cases Shaped s fid gid reason force waiter id now h
      (enqueue_key-Shaped s (task_key fid gid) (trim reason) force (non_blank waiter) _ now h)
step-Shaped s (pops i) h = at-cases Shaped s i _ h (λ p e. pop_phase-Shaped s i p h)
step-Shaped s (starts i now inserted) h =
    at-cases Shaped s i _ h (λ p e. start_phase-Shaped s i now inserted p h)
step-Shaped s (looks i now cached) h =
    at-cases Shaped s i _ h (λ p e. look_phase-Shaped s i now cached p h)
step-Shaped s (confirms i) h = at-cases Shaped s i _ h (λ p e. confirm_phase-Shaped s i p h)
step-Shaped s (fetches i success) h =
    at-cases Shaped s i _ h (λ p e. fetch_phase-Shaped s i success p h)
step-Shaped s (finishes i) h = at-cases Shaped s i _ h (λ p e. finish_phase-Shaped s i p h)

-- Whether an event is an accepted call with the given number.
abbrev pub asked : ℕ → Event → ℕ
asked n (enqueues fid gid reason force waiter id now) =
    if not (is_empty (trim fid)) && not (is_empty (trim reason)) && id == n then 1 else 0
asked n _ = 0

step-places : (s : System) (n : ℕ) (e : Event) → Shaped s → Balanced s (step s e) n (asked n e)
unfolding step enqueue
step-places s n (enqueues fid gid reason force waiter id now) h =
    ground (
      arith,
      enqueue_key-places s n (task_key fid gid) (trim reason) force (non_blank waiter) id now,
    )
step-places s n (pops i) h =
    at-cases (λ t. Balanced s t n 0) s i _ (omega arith) (λ p e. pop_phase-places s n i p e)
step-places s n (starts i now inserted) h =
    at-cases (λ t. Balanced s t n 0) s i _ (omega arith)
      (λ p e. start_phase-places s n i now inserted p e)
step-places s n (looks i now cached) h =
    at-cases (λ t. Balanced s t n 0) s i _ (omega arith)
      (λ p e. look_phase-places s n i now cached p e)
step-places s n (confirms i) h =
    at-cases (λ t. Balanced s t n 0) s i _ (omega arith) (λ p e. confirm_phase-places s n i p h e)
step-places s n (fetches i success) h =
    at-cases (λ t. Balanced s t n 0) s i _ (omega arith)
      (λ p e. fetch_phase-places s n i success p h e)
step-places s n (finishes i) h =
    at-cases (λ t. Balanced s t n 0) s i _ (omega arith) (λ p e. finish_phase-places s n i p h e)

run-places :
    (s : System) (n : ℕ) (es : List Event)
    → Shaped s
    → places n (run s es) ≡ places n s + total (asked n) es
unfolding run
run-places s n [] h = omega arith
run-places s n (e ∷ es) h =
    omega (arith, step-places s n e h, run-places (step s e) n es (step-Shaped s e h))

start-Shaped : (n : ℕ) → Shaped (start n)
unfolding start new_state
start-Shaped n = record {
  sized = length-new_workers 0 (max n 1) ∙ sym (length-replicate {A = Phase} (max n 1) polling);
  distinct = tt;
}

-- Every accepted call is, at any time, either still waiting for its answer or answered, and never
-- both nor twice: no interleaving loses a caller or answers one twice.
pub callers_conserved :
    (workers n : ℕ) (es : List Event) → places n (run (start workers) es) ≡ total (asked n) es
unfolding start new_state
callers_conserved workers n es = omega (
  arith,
  run-places (start workers) n es (start-Shaped workers),
  total-replicate (in_hand n) (max workers 1) polling refl,
)
