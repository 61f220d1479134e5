-- ===== src/Refresh/Examples.antt =====
-- The theorems on the full refresh at concrete runs.
use catnap.Common.{
  ◌*◌, String, true, false, ◌≡◌, refl, List, [], ◌∷◌, none, some, eq_string, get, insert,
}
use catnap.Ops.Worker.{nanos_per_second}
use catnap.Catalog.{catalog_region_key}
use catnap.Refresh.Manager.{
  manual, auto, new_manager, trigger_refresh, pass_gate, finish_error, finish_success,
  update_progress,
}
use catnap.Refresh.Job.{
  listing, ended, replied, refused, list_piece, refresh_piece, read_piece, answer_piece,
  plan_target, should_bypass_notice_cache_for_key,
}
use catnap.Refresh.System.{System, Event, triggers, lists, reads, answers, start, step, run}
use catnap.Refresh.Pieces.{Tracks}
use catnap.Refresh.Single.{one_job_tracked}
use catnap.Refresh.Complete.{
  Turn, targets, turn_events, request_of, Finished, full_refresh_completes,
}
use catnap.Refresh.Limit.{is_limited, rate_limit_exact}

abbrev shop : String
shop = "https://shop.example/cart"

-- Ada and Bob trigger; the one job reads a page and its queue fails.
abbrev two_triggers : List Event
two_triggers =
    triggers manual (some "ada") 0 "job" "t1"
    ∷ triggers manual (some "bob") 5 "other" "t2"
    ∷ lists 0 (replied (("7", none) ∷ [])) "t3"
    ∷ reads 0 (replied none) [] 9 "t4"
    ∷ answers 0 (refused "worker dropped") "t5"
    ∷ []

-- What a run computes with.
play : List Event → System
unfolding run step start new_manager trigger_refresh pass_gate finish_error finish_success
    update_progress list_piece refresh_piece read_piece answer_piece plan_target
    should_bypass_notice_cache_for_key catalog_region_key get insert
play es = run shop (start "boot" "t0") es

one_job_ends : (play two_triggers).jobs ≡ ended ∷ []
unfolding play
one_job_ends = refl

one_job_tracked_example :
    let last = run shop (start "boot" "t0") two_triggers in Tracks last.inner.status last.jobs
one_job_tracked_example = one_job_tracked shop "boot" "t0" two_triggers

-- A page that is cached and fresh, but whose notices were never read.
abbrev uninitialized : Turn
uninitialized = record {
  target = ("7", some "3");
  row = some (some 1000);
  initialized_keys = [];
  at = 2000;
  read_at = "t4";
  answered_at = "t5";
}

forced_request : (request_of auto uninitialized).force_fetch ≡ true
forced_request = refl

full_refresh_completes_example :
    Finished
      (run shop
        (record { inner = new_manager "boot" "t0"; jobs = listing auto ∷ []; requests = [] })
        (lists 0 (replied (targets (uninitialized ∷ []))) "t3" ∷ turn_events (uninitialized ∷ [])))
      1
      1
      []
      (request_of auto uninitialized ∷ [])
full_refresh_completes_example =
    full_refresh_completes shop (new_manager "boot" "t0") auto [] [] uninitialized [] "t3"

first_is_accepted :
    is_limited (trigger_refresh (start "boot" "t0").inner manual (some "ada") 0 "job" "t1") ≡ false
unfolding trigger_refresh start new_manager pass_gate get
first_is_accepted = refl

rate_limit_exact_example :
    let last =
      run shop
        (step shop (start "boot" "t0") (triggers manual (some "ada") 0 "job" "t1"))
        (triggers manual (some "bob") 5 "other" "t2" ∷ []) in
    is_limited (trigger_refresh last.inner manual (some "ada") (29 * nanos_per_second) "next" "t3")
    ≡ true
rate_limit_exact_example =
    rate_limit_exact shop (start "boot" "t0") "ada" 0 (29 * nanos_per_second) "job" "t1" "next" "t3"
      (triggers manual (some "bob") 5 "other" "t2" ∷ []) first_is_accepted refl
