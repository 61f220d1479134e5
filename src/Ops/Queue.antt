-- ===== src/Ops/Queue.antt =====
-- src/ops.rs, `OpsManager::enqueue`: the call is checked, and joins the task of its key or makes one.
-- The events that it publishes are not modelled.
use catnap.Common.{
  ◌+◌, String, ◌++◌, Bool, true, false, not, ◌||◌, List, [], ◌∷◌, Option, none, some, if◌then◌else◌,
  get, insert, add, trim, is_empty, filter_some, map_some, eq_string,
}
use catnap.Ops.Reasons.{count_reason}
use catnap.Ops.State.{TaskKey, eq_task_key, Sender, TaskEntry, TaskEntryState, RuntimeState}

pub data EnqueueError : Type 0 where
  fid_is_empty reason_is_empty : EnqueueError

-- The new state, and whether a worker is notified.
pub data Enqueued : Type 0 where
  ok : RuntimeState → Bool → Enqueued
  err : EnqueueError → Enqueued

-- `map(str::trim).filter(|v| !v.is_empty())`
abbrev pub non_blank : Option String → Option String
non_blank value = filter_some (λ v. not (is_empty v)) (map_some trim value)

unfoldable pub task_key : String → Option String → TaskKey
task_key fid gid = record { fid = trim fid; gid = non_blank gid }

abbrev add_waiter : Option String → List String → List String
add_waiter none users = users
add_waiter (some user) users = add user users

abbrev waiters : Option String → List String
waiters none = []
waiters (some user) = user ∷ []

-- The branch of a key that has a task.
unfoldable pub join : TaskEntry → String → Bool → Option String → Sender → TaskEntry
join entry reason force_fetch waiter tx = record entry {
  reason_counts = count_reason reason entry.reason_counts;
  force_fetch = entry.force_fetch || force_fetch;
  joiners = entry.joiners ++ tx ∷ [];
  poller_waiter_user_ids = add_waiter waiter entry.poller_waiter_user_ids;
}

-- The branch of a new key.
unfoldable pub fresh_entry : String → Bool → Option String → Sender → String → TaskEntry
fresh_entry reason force_fetch waiter tx now = record {
  state = TaskEntryState.pending;
  enqueued_at = now;
  reason_counts = (reason, 1) ∷ [];
  force_fetch = force_fetch;
  joiners = tx ∷ [];
  poller_waiter_user_ids = waiters waiter;
}

-- What is done under the lock.
unfoldable pub enqueue_key :
    RuntimeState → TaskKey → String → Bool → Option String → Sender → String → RuntimeState × Bool
unfolding join fresh_entry
enqueue_key st key reason force_fetch waiter tx now = elim (get key st.tasks) [
  | some entry ↦ (
    record st {
      deduped = st.deduped + 1;
      tasks = insert key (join entry reason force_fetch waiter tx) st.tasks;
    },
    false,
  )
  | none ↦ (
    record st {
      pending = st.pending ++ key ∷ [];
      tasks = insert key (fresh_entry reason force_fetch waiter tx now) st.tasks;
    },
    true,
  )
]

unfoldable pub enqueue :
    RuntimeState
    → String
    → Option String
    → String
    → Bool
    → Option String
    → Sender
    → String
    → Enqueued
unfolding enqueue_key task_key
enqueue st fid gid reason force_fetch waiter tx now =
    if is_empty (trim fid)
    then err EnqueueError.fid_is_empty
    else if is_empty (trim reason)
    then err EnqueueError.reason_is_empty
    else let (st', notified) =
        enqueue_key st (task_key fid gid) (trim reason) force_fetch (non_blank waiter) tx now in
      ok st' notified
