-- ===== src/Ops/System/Stranded.antt =====
-- A task that no worker and no queue owns. It comes from a run whose row cannot be inserted, and it
-- stays: `worker_loop` takes the key off the queue and leaves its task in the map.
use catnap.Common.{
  ℕ, ◌≡◌, sym, ◌∙◌, ap, String, Bool, List, [], ◌∷◌, ◌++◌, Option, some, arith, ◌==◌, ==_iff,
  ==_refl, Bool-cases, inl, inr, get, get-insert, get-insert_self, get-remove, get_elem?,
  count-append, total-set, le-total, append_assoc, append-nil, trim,
}
use catnap.Ops.State.{TaskKey, eq_task_key, Sender, TaskEntry, WorkerRuntime}
use catnap.Ops.Queue.{enqueue_key, task_key, non_blank, join}
use catnap.Ops.Worker.{
  Inserted, refused, start_task, set_worker_error, remove_task_completion,
  complete_or_retry_cache_hit, finish_task, CacheRow,
}
use catnap.Ops.System.{
  Phase, polling, popped, System, Event, enqueues, pops, starts, looks, confirms, fetches, finishes,
  pop_phase, start_phase, look_phase, confirm_phase, fetch_phase, finish_phase, step, run,
}
use catnap.Ops.System.Phases.{holds, at-cases, enqueue-cases}
use catnap.Ops.System.Flight.{owners, Owned}

-- The task of a key has the callers given, and perhaps later ones, and nobody owns it.
pub record Stranded (k : TaskKey) (callers : List Sender) (s : System) : Type 0 where
  pub entry : TaskEntry
  pub later : List Sender
  pub listed : get k s.runtime.tasks ≡ some entry
  pub waits : entry.joiners ≡ callers ++ later
  pub unowned : owners k s ≡ 0

-- What a worker's step leaves alone at a key that nobody owns.
abbrev Calm : TaskKey → System → System → Type 0
Calm k s t = (get k t.runtime.tasks ≡ get k s.runtime.tasks) × (owners k t ≡ 0)

module _ (k : TaskKey) (s : System) (free : owners k s ≡ 0) where
  pop_phase-Calm : (i : ℕ) (p : Phase) → get_elem? s.phases i ≡ some p → Calm k s (pop_phase s i p)
  unfolding pop_phase
  pop_phase-Calm i p e = grind (arith, total-set)

  start_phase-Calm :
      (i : ℕ) (now : String) (inserted : Inserted) (p : Phase)
      → get_elem? s.phases i ≡ some p
      → Calm k s (start_phase s i now inserted p)
  unfolding start_phase start_task set_worker_error
  start_phase-Calm i now inserted p e =
      grind (arith, total-set, get-insert, le-total (holds k) s.phases i e)

  look_phase-Calm :
      (i now : ℕ) (cached : Option CacheRow) (p : Phase)
      → get_elem? s.phases i ≡ some p
      → Calm k s (look_phase s i now cached p)
  unfolding look_phase
  look_phase-Calm i now cached p e = grind (arith, total-set, le-total (holds k) s.phases i e)

  confirm_phase-Calm :
      (i : ℕ) (p : Phase) → get_elem? s.phases i ≡ some p → Calm k s (confirm_phase s i p)
  unfolding confirm_phase complete_or_retry_cache_hit remove_task_completion
  confirm_phase-Calm i p e = grind (arith, total-set, get-remove, le-total (holds k) s.phases i e)

  fetch_phase-Calm :
      (i : ℕ) (success : Bool) (p : Phase)
      → get_elem? s.phases i ≡ some p
      → Calm k s (fetch_phase s i success p)
  unfolding fetch_phase remove_task_completion
  fetch_phase-Calm i success p e =
      grind (arith, total-set, get-remove, le-total (holds k) s.phases i e)

  finish_phase-Calm :
      (i : ℕ) (p : Phase) → get_elem? s.phases i ≡ some p → Calm k s (finish_phase s i p)
  unfolding finish_phase finish_task
  finish_phase-Calm i p e = grind (arith, total-set)

Calm-Stranded :
    (k : TaskKey) (callers : List Sender) (s t : System)
    → Stranded k callers s
    → Calm k s t
    → Stranded k callers t
Calm-Stranded k callers s t h (same, free) = record {
  entry = h.entry;
  later = h.later;
  listed = same ∙ h.listed;
  waits = h.waits;
  unowned = free;
}

enqueue_key-Stranded :
    (k : TaskKey) (callers : List Sender) (s : System) (key : TaskKey) (reason : String)
    (force : Bool) (waiter : Option String) (tx : Sender) (now : String)
    → Stranded k callers s
    → Stranded k callers
        (record s { runtime = (enqueue_key s.runtime key reason force waiter tx now).0 })
unfolding enqueue_key
enqueue_key-Stranded k callers s key reason force waiter tx now h = elim (Bool-cases (key == k)) [
  | inl same ↦
      let e : key ≡ k = (==_iff key k).0 same in
      rw e (
        rw (h.listed, enqueue_key)
          (record {
            entry = join h.entry reason force waiter tx;
            later = h.later ++ tx ∷ [];
            listed = get-insert_self k _ s.runtime.tasks;
            waits =
                unfold join in ap (λ js. js ++ tx ∷ []) h.waits ∙ append_assoc callers h.later _;
            unowned = h.unowned;
          }))
  | inr other ↦ record {
    entry = h.entry;
    later = h.later;
    listed = grind (arith, get-insert, h.listed);
    waits = h.waits;
    unowned = grind (arith, count-append, h.unowned);
  }
]

step-Stranded :
    (k : TaskKey) (callers : List Sender) (s : System) (e : Event)
    → Stranded k callers s
    → Stranded k callers (step s e)
unfolding step
step-Stranded k callers s (enqueues fid gid reason force waiter id now) h =
    enqueue-cases (Stranded k callers) s fid gid reason force waiter id now h (
      enqueue_key-Stranded k callers s (task_key fid gid) (trim reason) force (non_blank waiter) _
        now h)
step-Stranded k callers s (pops i) h =
    at-cases (Stranded k callers) s i _ h
      (λ p e. Calm-Stranded k callers s _ h (pop_phase-Calm k s h.unowned i p e))
step-Stranded k callers s (starts i now inserted) h =
    at-cases (Stranded k callers) s i _ h
      (λ p e. Calm-Stranded k callers s _ h (start_phase-Calm k s h.unowned i now inserted p e))
step-Stranded k callers s (looks i now cached) h =
    at-cases (Stranded k callers) s i _ h
      (λ p e. Calm-Stranded k callers s _ h (look_phase-Calm k s h.unowned i now cached p e))
step-Stranded k callers s (confirms i) h =
    at-cases (Stranded k callers) s i _ h
      (λ p e. Calm-Stranded k callers s _ h (confirm_phase-Calm k s h.unowned i p e))
step-Stranded k callers s (fetches i success) h =
    at-cases (Stranded k callers) s i _ h
      (λ p e. Calm-Stranded k callers s _ h (fetch_phase-Calm k s h.unowned i success p e))
step-Stranded k callers s (finishes i) h =
    at-cases (Stranded k callers) s i _ h
      (λ p e. Calm-Stranded k callers s _ h (finish_phase-Calm k s h.unowned i p e))

run-Stranded :
    (k : TaskKey) (callers : List Sender) (s : System) (es : List Event)
    → Stranded k callers s
    → Stranded k callers (run s es)
unfolding run
run-Stranded k callers s [] h = h
run-Stranded k callers s (e ∷ es) h =
    run-Stranded k callers (step s e) es (step-Stranded k callers s e h)

refused-Stranded :
    (s : System) (i : ℕ) (key : TaskKey) (entry : TaskEntry) (w : WorkerRuntime) (now text : String)
    → Owned s
    → get_elem? s.phases i ≡ some (popped key)
    → get_elem? s.runtime.workers i ≡ some w
    → get key s.runtime.tasks ≡ some entry
    → Stranded key entry.joiners (step s (starts i now (refused text)))
unfolding step start_phase start_task set_worker_error
refused-Stranded s i key entry w now text owned phase worker listed = record {
  entry = entry;
  later = [];
  listed = ground arith;
  waits = sym (append-nil entry.joiners);
  unowned = ground (arith, total-set (holds key) s.phases i polling phase, ==_refl key, owned key);
}

-- Once the row of a run cannot be inserted, the key's callers are never answered: whatever happens
-- later, the task stays with them in the map, is in no queue and with no worker, and later callers
-- of the key only join it.
pub refused_start_strands :
    (s : System) (i : ℕ) (key : TaskKey) (entry : TaskEntry) (w : WorkerRuntime) (now text : String)
    (es : List Event)
    → Owned s
    → get_elem? s.phases i ≡ some (popped key)
    → get_elem? s.runtime.workers i ≡ some w
    → get key s.runtime.tasks ≡ some entry
    → Stranded key entry.joiners (run (step s (starts i now (refused text))) es)
refused_start_strands s i key entry w now text es owned phase worker listed =
    run-Stranded key entry.joiners (step s (starts i now (refused text))) es
      (refused-Stranded s i key entry w now text owned phase worker listed)
