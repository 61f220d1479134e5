-- ===== src/Ops/System/Flight.antt =====
-- Single flight: a key is queued or in work at most once, and then it has a task.
use catnap.Common.{
  ℕ, ◌+◌, ◌≤◌, ◌≡◌, refl, ◌≢◌, String, Bool, List, [], ◌∷◌, Option, some, arith, ==_iff, get,
  get-insert, get-remove, get_elem?, count, count-append, total, total-set, add-le-total,
  total-replicate, max, trim,
}
use catnap.Ops.State.{TaskKey, eq_task_key, Sender, new_state}
use catnap.Ops.Queue.{enqueue_key, enqueue, task_key, non_blank}
use catnap.Ops.Worker.{
  Inserted, start_task, set_worker_error, remove_task_completion, complete_or_retry_cache_hit,
  finish_task, CacheRow,
}
use catnap.Ops.System.{
  Phase, polling, System, Event, enqueues, pops, starts, looks, confirms, fetches, finishes, start,
  pop_phase, start_phase, look_phase, confirm_phase, fetch_phase, finish_phase, step, run,
}
use catnap.Ops.System.Phases.{holds, present, at-cases}

-- The places that a key has: in the queue, and with workers.
abbrev pub owners : TaskKey → System → ℕ
owners k s = count k s.runtime.pending + total (holds k) s.phases

abbrev pub Owned : System → Type 0
Owned s = (k : TaskKey) → owners k s ≤ present (get k s.runtime.tasks)

pop_phase-Owned :
    (s : System) (i : ℕ) (p : Phase)
    → get_elem? s.phases i ≡ some p
    → Owned s
    → Owned (pop_phase s i p)
unfolding pop_phase
pop_phase-Owned s i p e h k = grind (arith, h k, total-set)

enqueue_key-Owned :
    (s : System) (key : TaskKey) (reason : String) (force : Bool) (waiter : Option String)
    (tx : Sender) (now : String)
    → Owned s
    → Owned (record s { runtime = (enqueue_key s.runtime key reason force waiter tx now).0 })
unfolding enqueue_key
enqueue_key-Owned s key reason force waiter tx now h k =
    grind (arith, h k, get-insert, count-append, ==_iff key k)

start_phase-Owned :
    (s : System) (i : ℕ) (now : String) (inserted : Inserted) (p : Phase)
    → get_elem? s.phases i ≡ some p
    → Owned s
    → Owned (start_phase s i now inserted p)
unfolding start_phase start_task set_worker_error
start_phase-Owned s i now inserted p e h k = grind (arith, h k, total-set, get-insert, ==_iff)

look_phase-Owned :
    (s : System) (i now : ℕ) (cached : Option CacheRow) (p : Phase)
    → get_elem? s.phases i ≡ some p
    → Owned s
    → Owned (look_phase s i now cached p)
unfolding look_phase
look_phase-Owned s i now cached p e h k = grind (arith, h k, total-set)

confirm_phase-Owned :
    (s : System) (i : ℕ) (p : Phase)
    → get_elem? s.phases i ≡ some p
    → Owned s
    → Owned (confirm_phase s i p)
unfolding confirm_phase complete_or_retry_cache_hit remove_task_completion
confirm_phase-Owned s i p e h k = grind (arith, h k, total-set, get-remove, ==_iff)

fetch_phase-Owned :
    (s : System) (i : ℕ) (success : Bool) (p : Phase)
    → get_elem? s.phases i ≡ some p
    → Owned s
    → Owned (fetch_phase s i success p)
unfolding fetch_phase remove_task_completion
fetch_phase-Owned s i success p e h k = grind (arith, h k, total-set, get-remove, ==_iff)

finish_phase-Owned :
    (s : System) (i : ℕ) (p : Phase)
    → get_elem? s.phases i ≡ some p
    → Owned s
    → Owned (finish_phase s i p)
unfolding finish_phase finish_task
finish_phase-Owned s i p e h k = grind (arith, h k, total-set)

enqueue-Owned :
    (s : System) (fid : String) (gid : Option String) (reason : String) (force : Bool)
    (waiter : Option String) (id : ℕ) (now : String)
    → Owned s
    → Owned (step s (enqueues fid gid reason force waiter id now))
unfolding step enqueue
enqueue-Owned s fid gid reason force waiter id now h k = ground (
  arith,
  h k,
  enqueue_key-Owned s (task_key fid gid) (trim reason) force (non_blank waiter)
      (record { id = id; wants_fetch = force }) now h k,
)

pub step-Owned : (s : System) (e : Event) → Owned s → Owned (step s e)
unfolding step
step-Owned s (enqueues fid gid reason force waiter id now) h =
    enqueue-Owned s fid gid reason force waiter id now h
step-Owned s (pops i) h = at-cases Owned s i _ h (λ p e. pop_phase-Owned s i p e h)
step-Owned s (starts i now inserted) h =
    at-cases Owned s i _ h (λ p e. start_phase-Owned s i now inserted p e h)
step-Owned s (looks i now cached) h =
    at-cases Owned s i _ h (λ p e. look_phase-Owned s i now cached p e h)
step-Owned s (confirms i) h = at-cases Owned s i _ h (λ p e. confirm_phase-Owned s i p e h)
step-Owned s (fetches i success) h =
    at-cases Owned s i _ h (λ p e. fetch_phase-Owned s i success p e h)
step-Owned s (finishes i) h = at-cases Owned s i _ h (λ p e. finish_phase-Owned s i p e h)

run-Owned : (s : System) (es : List Event) → Owned s → Owned (run s es)
unfolding run
run-Owned s [] h = h
run-Owned s (e ∷ es) h = run-Owned (step s e) es (step-Owned s e h)

start-Owned : (n : ℕ) → Owned (start n)
unfolding start new_state
start-Owned n k = ground (arith, total-replicate (holds k) (max n 1) polling refl)

-- Whatever the callers, the workers, the cache and the database do, a key is queued or in work at
-- most once, and only while it has a task.
pub run-start-Owned : (n : ℕ) (es : List Event) → Owned (run (start n) es)
run-start-Owned n es = run-Owned (start n) es (start-Owned n)

-- So two workers never work on the same key at once.
single_flight :
    (n : ℕ) (es : List Event) (i j : ℕ) (k : TaskKey) (p q : Phase)
    → i ≢ j
    → get_elem? (run (start n) es).phases i ≡ some p
    → get_elem? (run (start n) es).phases j ≡ some q
    → holds k p + holds k q ≤ 1
single_flight n es i j k p q ne at_i at_j = grind (
  arith,
  run-start-Owned n es k,
  add-le-total (holds k) (run (start n) es).phases i j ne at_i at_j,
)
