-- ===== src/Ops/System/Phases.antt =====
-- What the phases of the workers hold.
use catnap.Common.{
  ℕ, Option, none, some, ◌≡◌, inl, inr, ◌==◌, if◌then◌else◌, get_elem?, Option-cases, Bool-cases,
  String, Bool, trim, is_empty,
}
use catnap.Ops.State.{TaskKey, eq_task_key, TaskEntry}
use catnap.Ops.Queue.{enqueue_key, enqueue, task_key, non_blank}
use catnap.Ops.System.{
  Phase, polling, popped, running, cache_hit, fetching, sealed, System, at, step, enqueues,
}

-- 1 for a worker that has taken the key up and has not sealed it.
abbrev pub holds : TaskKey → Phase → ℕ
holds k polling = 0
holds k (popped key) = if key == k then 1 else 0
holds k (running key run_id) = if key == k then 1 else 0
holds k (cache_hit key run_id) = if key == k then 1 else 0
holds k (fetching key run_id) = if key == k then 1 else 0
holds k (sealed run_id success action joiners) = 0

-- 1 for a key that has a task.
abbrev pub present : Option TaskEntry → ℕ
present none = 0
present (some entry) = 1

-- One lemma for the events of a worker: a step is made at its phase or not at all.
pub at-cases {ℓ} :
    (P : System → Type ℓ) (s : System) (i : ℕ) (f : Phase → System)
    → P s
    → ((p : Phase) → get_elem? s.phases i ≡ some p → P (f p))
    → P (at s i f)
at-cases P s i f here there = elim (Option-cases (get_elem? s.phases i)) [
  | inl e ↦ rw (e, at) here
  | inr (p, e) ↦ rw (e, at) (there p e)
]

-- A call of `enqueue` is refused, or does what it does under the lock.
pub enqueue-cases {ℓ} :
    (P : System → Type ℓ) (s : System) (fid : String) (gid : Option String) (reason : String)
    (force : Bool) (waiter : Option String) (id : ℕ) (now : String)
    → P s
    → P (record s {
      runtime =
          (enqueue_key s.runtime
            (task_key fid gid)
            (trim reason)
            force
            (non_blank waiter)
            (record { id = id; wants_fetch = force })
            now).0;
    })
    → P (step s (enqueues fid gid reason force waiter id now))
unfolding step enqueue
enqueue-cases P s fid gid reason force waiter id now refused accepted =
    elim (Bool-cases (is_empty (trim fid))) [
      | inl bad ↦ rw (bad, step, enqueue) refused
      | inr good ↦ elim (Bool-cases (is_empty (trim reason))) [
        | inl bad ↦ rw (good, step, enqueue) (rw (bad) refused)
        | inr fine ↦ rw (good, step, enqueue) (rw (fine) accepted)
      ]
    ]
