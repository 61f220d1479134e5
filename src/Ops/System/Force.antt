-- ===== src/Ops/System/Force.antt =====
-- A caller that asked for a forced fetch is never answered from the cache.
use catnap.Common.{
  ℕ, ◌≡◌, refl, String, Bool, true, false, List, [], ◌∷◌, ◌++◌, Option, none, some, arith,
  Bool-cases, inl, inr, get, get_elem?, All, map, trim, none-ne-some, Option-cases, Everywhere,
  Everywhere-insert, Everywhere-remove, All-set, All-append, All-get_elem?, All-replicate, max,
}
use catnap.Ops.State.{
  TaskKey, eq_task_key, RuntimeState, Sender, OpsRunOutcome, TaskEntry, WorkerError, new_state,
}
use catnap.Ops.Queue.{enqueue_key, task_key, non_blank, join, fresh_entry}
use catnap.Ops.Worker.{
  Inserted, row, refused, Started, ok, err, start_entry, start_task, set_worker_error,
  remove_task_completion, complete_or_retry_cache_hit, is_forced, completion_of, finish_task,
  CacheRow,
}
use catnap.Ops.System.{
  Action, cache, fetch, Phase, polling, popped, running, cache_hit, fetching, sealed, Delivery,
  deliver, System, Event, enqueues, pops, starts, looks, confirms, fetches, finishes, start,
  started, pop_from, pop_phase, start_phase, look_phase, confirm_phase, fetch_phase, finish_phase,
  step, run,
}
use catnap.Ops.System.Phases.{at-cases, enqueue-cases}

abbrev pub Unforced : List Sender → Type 0
Unforced = All (λ j. j.wants_fetch ≡ false)

-- A task knows whether one of its callers wants a fetch.
abbrev pub Knows : TaskEntry → Type 0
Knows entry = entry.force_fetch ≡ false → Unforced entry.joiners

-- A worker that has sealed a cached answer holds no such caller.
abbrev pub Spares : Phase → Type 0
Spares (sealed run_id success cache joiners) = Unforced joiners
Spares _ = Unit {0}

abbrev Fetched : Delivery → Type 0
Fetched d = d.action ≡ cache → d.sender.wants_fetch ≡ false

pub record Honest (s : System) : Type 0 where
  pub tasks : (k : TaskKey) (entry : TaskEntry) → get k s.runtime.tasks ≡ some entry → Knows entry
  pub workers : All Spares s.phases
  pub callers : All Fetched s.sent

Unforced-append :
    (xs : List Sender) (x : Sender) → Unforced xs → x.wants_fetch ≡ false → Unforced (xs ++ x ∷ [])
Unforced-append [] x h e = (e, tt)
Unforced-append (y ∷ xs) x h e = (h.0, Unforced-append xs x h.1 e)

join-Knows :
    (entry : TaskEntry) (reason : String) (force : Bool) (waiter : Option String) (id : ℕ)
    → Knows entry
    → Knows (join entry reason force waiter (record { id = id; wants_fetch = force }))
unfolding join
join-Knows entry reason true waiter id h e = ground arith
join-Knows entry reason false waiter id h e =
    Unforced-append entry.joiners _ (h (ground arith)) refl

abbrev AllKnow : RuntimeState → Type 0
AllKnow st = Everywhere Knows st.tasks

enqueue_key-AllKnow :
    (st : RuntimeState) (key : TaskKey) (reason : String) (force : Bool) (waiter : Option String)
    (id : ℕ) (now : String)
    → AllKnow st
    → AllKnow
        (enqueue_key st key reason force waiter (record { id = id; wants_fetch = force }) now).0
unfolding enqueue_key
enqueue_key-AllKnow st key reason force waiter id now h = elim (Option-cases (get key st.tasks)) [
  | inl e ↦
      rw (e, enqueue_key)
        (Everywhere-insert Knows st.tasks key _ h (λ f. (unfold fresh_entry in f, tt)))
  | inr (entry, e) ↦
      rw (e, enqueue_key)
        (Everywhere-insert Knows st.tasks key _ h
          (join-Knows entry reason force waiter id (h key entry e)))
]

start_entry-AllKnow :
    (st : RuntimeState) (key : TaskKey) (now : String) (inserted : Inserted) (o : Option TaskEntry)
    → get key st.tasks ≡ o
    → AllKnow st
    → AllKnow (start_entry st key now inserted o).0
start_entry-AllKnow st key now inserted none e h = h
start_entry-AllKnow st key now (refused text) (some entry) e h = h
start_entry-AllKnow st key now (row run_id) (some entry) e h =
    Everywhere-insert Knows st.tasks key _ h (h key entry e)

start_task-AllKnow :
    (st : RuntimeState) (i : ℕ) (key : TaskKey) (now : String) (inserted : Inserted)
    → AllKnow st
    → AllKnow (start_task st i key now inserted).0
unfolding start_task
start_task-AllKnow st i key now inserted h = elim (Option-cases (get_elem? st.workers i)) [
  | inl e ↦ rw (e, start_task) h
  | inr (w, e) ↦ rw (e, start_task) (start_entry-AllKnow _ key now inserted _ refl h)
]

set_worker_error-tasks :
    (st : RuntimeState) (i : ℕ) (error : WorkerError)
    → (set_worker_error st i error).tasks ≡ st.tasks
unfolding set_worker_error
set_worker_error-tasks st i error = ground arith

started-Honest :
    (s : System) (i : ℕ) (key : TaskKey) (now : String) (r : RuntimeState × Started)
    → AllKnow r.0
    → Honest s
    → Honest (started s i key now r)
started-Honest s i key now (st, ok run_id) k h = record {
  tasks = k;
  workers = All-set Spares s.phases i _ h.workers tt;
  callers = h.callers;
}
started-Honest s i key now (st, err e) k h = record {
  tasks = rw (set_worker_error-tasks st i _) k;
  workers = All-set Spares s.phases i _ h.workers tt;
  callers = h.callers;
}

start_phase-Honest :
    (s : System) (i : ℕ) (now : String) (inserted : Inserted) (p : Phase)
    → Honest s
    → Honest (start_phase s i now inserted p)
unfolding start_phase
start_phase-Honest s i now inserted (popped key) h =
    started-Honest s i key now (start_task s.runtime i key now inserted)
      (start_task-AllKnow s.runtime i key now inserted h.tasks) h
start_phase-Honest s i now inserted _ h = h

pop_phase-Honest : (s : System) (i : ℕ) (p : Phase) → Honest s → Honest (pop_phase s i p)
unfolding pop_phase
pop_phase-Honest s i polling h = pop (s.runtime.pending)
  where
    pop : (keys : List TaskKey) → Honest (pop_from s i keys)
    pop [] = h
    pop (key ∷ rest) = record {
      tasks = h.tasks;
      workers = All-set Spares s.phases i _ h.workers tt;
      callers = h.callers;
    }
pop_phase-Honest s i _ h = h

look_phase-Honest :
    (s : System) (i now : ℕ) (cached : Option CacheRow) (p : Phase)
    → Honest s
    → Honest (look_phase s i now cached p)
unfolding look_phase
look_phase-Honest s i now cached (running key run_id) h = record {
  tasks = h.tasks;
  workers = All-set Spares s.phases i _ h.workers (ground arith);
  callers = h.callers;
}
look_phase-Honest s i now cached _ h = h

-- A cached answer is sealed only where nobody that waits wants a fetch.
completion-Unforced :
    (o : Option TaskEntry)
    → ((entry : TaskEntry) → o ≡ some entry → Knows entry)
    → is_forced o ≡ false
    → Unforced (completion_of o).joiners
completion-Unforced none k f = tt
completion-Unforced (some entry) k f = k entry refl f

confirm_phase-Honest : (s : System) (i : ℕ) (p : Phase) → Honest s → Honest (confirm_phase s i p)
unfolding confirm_phase complete_or_retry_cache_hit remove_task_completion
confirm_phase-Honest s i (cache_hit key run_id) h =
    elim (Bool-cases (is_forced (get key s.runtime.tasks))) [
      | inl forced ↦
          rw (forced, confirm_phase, complete_or_retry_cache_hit)
            (record {
              tasks = h.tasks;
              workers = All-set Spares s.phases i _ h.workers tt;
              callers = h.callers;
            })
      | inr free ↦
          rw (free, confirm_phase, complete_or_retry_cache_hit)
            (record {
              tasks = Everywhere-remove Knows s.runtime.tasks key h.tasks;
              workers =
                  All-set Spares s.phases i _ h.workers
                    (completion-Unforced (get key s.runtime.tasks) (h.tasks key) free);
              callers = h.callers;
            })
    ]
confirm_phase-Honest s i _ h = h

fetch_phase-Honest :
    (s : System) (i : ℕ) (success : Bool) (p : Phase)
    → Honest s
    → Honest (fetch_phase s i success p)
unfolding fetch_phase remove_task_completion
fetch_phase-Honest s i success (fetching key run_id) h = record {
  tasks = Everywhere-remove Knows s.runtime.tasks key h.tasks;
  workers = All-set Spares s.phases i _ h.workers tt;
  callers = h.callers;
}
fetch_phase-Honest s i success _ h = h

answer : ℕ → Bool → Sender → Sender × OpsRunOutcome
answer run_id success j = (j, record { run_id = run_id; ok = success })

deliver-Fetched :
    (action : Action) (run_id : ℕ) (success : Bool) (js : List Sender)
    → Spares (sealed run_id success action js)
    → All Fetched (map (deliver action) (map (answer run_id success) js))
unfolding answer
deliver-Fetched action run_id success [] h = tt
deliver-Fetched cache run_id success (j ∷ js) h =
    ((λ _. h.0), deliver-Fetched cache run_id success js h.1)
deliver-Fetched fetch run_id success (j ∷ js) h =
    ((λ e. cc), deliver-Fetched fetch run_id success js tt)

finish_phase-Honest :
    (s : System) (i : ℕ) (p : Phase)
    → get_elem? s.phases i ≡ some p
    → Honest s
    → Honest (finish_phase s i p)
unfolding finish_phase finish_task answer
finish_phase-Honest s i (sealed run_id success action js) e h =
    elim (Option-cases (get_elem? s.runtime.workers i)) [
      | inl gone ↦
          rw (gone, finish_phase, finish_task)
            (record {
              tasks = h.tasks;
              workers = All-set Spares s.phases i _ h.workers tt;
              callers = h.callers;
            })
      | inr (w, there) ↦
          rw (there, finish_phase, finish_task)
            (record {
              tasks = h.tasks;
              workers = All-set Spares s.phases i _ h.workers tt;
              callers = All-append Fetched s.sent _ h.callers (
                  deliver-Fetched action run_id success js
                    (All-get_elem? Spares s.phases i h.workers e));
            })
    ]
finish_phase-Honest s i _ e h = h

enqueue-Honest :
    (s : System) (fid : String) (gid : Option String) (reason : String) (force : Bool)
    (waiter : Option String) (id : ℕ) (now : String)
    → Honest s
    → Honest (step s (enqueues fid gid reason force waiter id now))
enqueue-Honest s fid gid reason force waiter id now h =
    enqueue-cases Honest s fid gid reason force waiter id now h (record {
      tasks =
          enqueue_key-AllKnow s.runtime (task_key fid gid) (trim reason) force (non_blank waiter) id
            now h.tasks;
      workers = h.workers;
      callers = h.callers;
    })

step-Honest : (s : System) (e : Event) → Honest s → Honest (step s e)
unfolding step
step-Honest s (enqueues fid gid reason force waiter id now) h =
    enqueue-Honest s fid gid reason force waiter id now h
step-Honest s (pops i) h = at-cases Honest s i _ h (λ p e. pop_phase-Honest s i p h)
step-Honest s (starts i now inserted) h =
    at-cases Honest s i _ h (λ p e. start_phase-Honest s i now inserted p h)
step-Honest s (looks i now cached) h =
    at-cases Honest s i _ h (λ p e. look_phase-Honest s i now cached p h)
step-Honest s (confirms i) h = at-cases Honest s i _ h (λ p e. confirm_phase-Honest s i p h)
step-Honest s (fetches i success) h =
    at-cases Honest s i _ h (λ p e. fetch_phase-Honest s i success p h)
step-Honest s (finishes i) h = at-cases Honest s i _ h (λ p e. finish_phase-Honest s i p e h)

run-Honest : (s : System) (es : List Event) → Honest s → Honest (run s es)
unfolding run
run-Honest s [] h = h
run-Honest s (e ∷ es) h = run-Honest (step s e) es (step-Honest s e h)

start-Honest : (n : ℕ) → Honest (start n)
unfolding start new_state get
start-Honest n = record {
  tasks = λ k entry e. absurd (none-ne-some e);
  workers = All-replicate Spares (max n 1) polling tt;
  callers = tt;
}

-- Whatever the interleaving, and however late it joins a task that is already reading the cache, a
-- caller that asked for a forced fetch is answered by a fetch, never from the cache.
pub forced_is_fetched :
    (n : ℕ) (es : List Event) (j : ℕ) (d : Delivery)
    → get_elem? (run (start n) es).sent j ≡ some d
    → d.sender.wants_fetch ≡ true
    → d.action ≡ fetch
forced_is_fetched n es j d at_j forced =
    let honest =
      All-get_elem? Fetched (run (start n) es).sent j
        (run-Honest (start n) es (start-Honest n)).callers at_j in
    ground arith
