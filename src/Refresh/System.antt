-- ===== src/Refresh/System.antt =====
-- src/catalog_refresh.rs: the manager, the callers that trigger it and the jobs it has spawned, as
-- one machine. A list of events is an interleaving; an event at a job that is not where the event
-- happens changes nothing.
use catnap.Common.{ℕ, String, List, [], ◌∷◌, ◌++◌, Option, none, some, get_elem?, set}
use catnap.Topology.Targets.{Target}
use catnap.Refresh.Manager.{
  RefreshTrigger, Inner, Triggered, rate_limited, joined_running, spawned, trigger_refresh,
  new_manager,
}
use catnap.Refresh.Job.{
  Request, JobPhase, listing, Reply, Moved, list_piece, refresh_piece, read_piece, answer_piece,
}

-- The jobs, the latest first, and the requests they have made, in order.
pub record System : Type 0 where
  pub inner : Inner
  pub jobs : List JobPhase
  pub requests : List Request

pub data Event : Type 0 where
  triggers : RefreshTrigger → Option String → ℕ → String → String → Event
  lists : ℕ → Reply (List Target) → String → Event
  refreshes : ℕ → Reply (Unit {0}) → String → Event
  reads : ℕ → Reply (Option (Option ℕ)) → List String → ℕ → String → Event
  answers : ℕ → Reply (Unit {0}) → String → Event

unfoldable pub start : String → String → System
start job_id now = record { inner = new_manager job_id now; jobs = []; requests = [] }

abbrev after_trigger : System → RefreshTrigger → Triggered → System
after_trigger s trigger rate_limited = s
after_trigger s trigger (joined_running m st) = record s { inner = m }
after_trigger s trigger (spawned m st) = record s { inner = m; jobs = listing trigger ∷ s.jobs }

abbrev pub moved : System → ℕ → Moved → System
moved s i m = record {
  inner = m.inner;
  jobs = set s.jobs i m.phase;
  requests = s.requests ++ m.asked;
}

abbrev pub at_job : System → ℕ → (JobPhase → Moved) → System
at_job s i piece = elim (get_elem? s.jobs i) [ none ↦ s | some p ↦ moved s i (piece p) ]

-- One event, with the base URL of the upstream.
unfoldable pub step : String → System → Event → System
step base s (triggers trigger user at job_id now) =
    after_trigger s trigger (trigger_refresh s.inner trigger user at job_id now)
step base s (lists i reply now) = at_job s i (list_piece s.inner reply now)
step base s (refreshes i reply now) = at_job s i (refresh_piece s.inner reply now)
step base s (reads i reply initialized_keys at now) =
    at_job s i (read_piece base s.inner reply initialized_keys at now)
step base s (answers i reply now) = at_job s i (answer_piece s.inner reply now)

unfoldable pub run : String → System → List Event → System
run base s [] = s
run base s (e ∷ es) = run base (step base s e) es
