-- ===== src/Refresh/Job.antt =====
-- src/catalog_refresh.rs, `run_full_refresh_job`: one job, cut where it may be suspended. What the
-- database, the catalog and the ops queue answer is given to each piece.
use catnap.Common.{
  ℕ, ◌+◌, ◌*◌, max, String, String-append, Bool, true, false, not, ◌&&◌, List, [], ◌∷◌, Option,
  none, some, leb, ◌==◌, eq_string, if◌then◌else◌, contains, length,
}
use catnap.Catalog.{catalog_region_key}
use catnap.Topology.Targets.{Target}
use catnap.Refresh.Manager.{
  RefreshTrigger, manual, auto, CatalogRefreshCurrent, Inner, finish_error, finish_success,
  update_progress,
}
use catnap.Ops.Worker.{nanos_per_second}

abbrev pub full_refresh_cache_hit_seconds : ℕ
full_refresh_cache_hit_seconds = 5 * 60

abbrev pub refresh_reason : RefreshTrigger → String
refresh_reason manual = "manual_refresh"
refresh_reason auto = "auto_refresh"

-- What the job asks of the ops queue: `enqueue_and_wait`, or with a forced fetch.
pub record Request : Type 0 where
  pub target : Target
  pub reason : String
  pub force_fetch : Bool

-- Where a job is: it lists the targets, reads the topology of an empty catalog, lists again, reads
-- the cache row of the next target, waits for the queue, or is over.
pub data JobPhase : Type 0 where
  listing refreshing relisting : RefreshTrigger → JobPhase
  reading : RefreshTrigger → ℕ → ℕ → Target → List Target → JobPhase
  waiting : RefreshTrigger → ℕ → ℕ → List Target → JobPhase
  ended : JobPhase

-- The answer of a call: an error ends the job.
pub data Reply (A : Type 0) : Type 0 where
  replied : A → Reply A
  refused : String → Reply A

pub record Moved : Type 0 where
  pub inner : Inner
  pub phase : JobPhase
  pub asked : List Request

abbrev fails : Inner → String → String → Moved
fails m message now = record { inner = finish_error m message now; phase = ended; asked = [] }

-- The head of the loop over the targets that are left.
abbrev pub next_target : Inner → RefreshTrigger → ℕ → ℕ → List Target → String → Moved
next_target m trigger done total [] now = record {
  inner = finish_success m now;
  phase = ended;
  asked = [];
}
next_target m trigger done total (t ∷ ts) now = record {
  inner = m;
  phase = reading trigger done total t ts;
  asked = [];
}

abbrev pub loop_over : Inner → RefreshTrigger → List Target → String → Moved
loop_over m trigger tasks now =
    let total = max (length tasks) 1 in
    next_target (update_progress m 0 total none now) trigger 0 total tasks now

abbrev first_list : Inner → RefreshTrigger → List Target → String → Moved
first_list m trigger [] now = record { inner = m; phase = refreshing trigger; asked = [] }
first_list m trigger (t ∷ ts) now = loop_over m trigger (t ∷ ts) now

unfoldable pub list_piece : Inner → Reply (List Target) → String → JobPhase → Moved
list_piece m (replied tasks) now (listing trigger) = first_list m trigger tasks now
list_piece m (replied tasks) now (relisting trigger) = loop_over m trigger tasks now
list_piece m (refused message) now (listing trigger) = fails m message now
list_piece m (refused message) now (relisting trigger) = fails m message now
list_piece m reply now phase = record { inner = m; phase = phase; asked = [] }

unfoldable pub refresh_piece : Inner → Reply (Unit {0}) → String → JobPhase → Moved
refresh_piece m (replied u) now (refreshing trigger) = record {
  inner = m;
  phase = relisting trigger;
  asked = [];
}
refresh_piece m (refused message) now (refreshing trigger) = fails m message now
refresh_piece m reply now phase = record { inner = m; phase = phase; asked = [] }

unfoldable pub should_bypass_notice_cache_for_key : String → String → List String → Bool
should_bypass_notice_cache_for_key action url_key initialized_keys =
    action == "cache" && not (contains url_key initialized_keys)

-- Whether the row's last success is within the window; the inner `none` is a text that is no time.
abbrev pub is_cache_hit : ℕ → Option (Option ℕ) → Bool
is_cache_hit now none = false
is_cache_hit now (some none) = false
is_cache_hit now (some (some last)) =
    leb now (last + full_refresh_cache_hit_seconds * nanos_per_second)

pub record Plan : Type 0 where
  pub action : String
  pub note : Option String
  pub force_fetch : Bool

abbrev cache_plan : Bool → Plan
cache_plan true = record { action = "cache"; note = some "cache hit"; force_fetch = false }
cache_plan false = record { action = "fetch"; note = none; force_fetch = false }

-- What is done for a target, by its cache row and the keys whose notices were read.
unfoldable pub plan_target : ℕ → Option (Option ℕ) → String → List String → Plan
plan_target now row url_key initialized_keys =
    let plan = cache_plan (is_cache_hit now row) in
    if plan.action == "cache"
    then if should_bypass_notice_cache_for_key plan.action url_key initialized_keys
      then record {
        action = "fetch";
        note = some "cache bypass: region notice key not initialized";
        force_fetch = true;
      }
      else plan
    else plan

abbrev target_url : String → Target → String
target_url base (fid, none) = String-append base (String-append "?fid=" fid)
target_url base (fid, some gid) =
    String-append base (String-append "?fid=" (String-append fid (String-append "&gid=" gid)))

abbrev current_of : String → Target → Plan → CatalogRefreshCurrent
current_of base t plan = record {
  url_key = catalog_region_key t.0 t.1;
  url = target_url base t;
  action = plan.action;
  note = plan.note;
}

-- The body of the loop up to the call of the queue, with the base URL of the upstream.
unfoldable pub read_piece :
    String → Inner → Reply (Option (Option ℕ)) → List String → ℕ → String → JobPhase → Moved
read_piece base m (replied row) initialized_keys at now (reading trigger done total t ts) =
    let plan = plan_target at row (catalog_region_key t.0 t.1) initialized_keys in
    record {
      inner = update_progress m done total (some (current_of base t plan)) now;
      phase = waiting trigger done total ts;
      asked =
          record { target = t; reason = refresh_reason trigger; force_fetch = plan.force_fetch }
          ∷ [];
    }
read_piece base m (refused message) initialized_keys at now (reading trigger done total t ts) =
    fails m message now
read_piece base m reply initialized_keys at now phase = record {
  inner = m;
  phase = phase;
  asked = [];
}

-- The rest of the body. That the run itself failed is no error of the call.
unfoldable pub answer_piece : Inner → Reply (Unit {0}) → String → JobPhase → Moved
answer_piece m (replied u) now (waiting trigger done total ts) =
    next_target (update_progress m (done + 1) total none now) trigger (done + 1) total ts now
answer_piece m (refused message) now (waiting trigger done total ts) = fails m message now
answer_piece m reply now phase = record { inner = m; phase = phase; asked = [] }
