-- ===== src/Schedule/Examples.antt =====
-- The theorems on the poller's loop at concrete turns.
use catnap.Common.{
  ℕ, total, ◌*◌, ◌≤◌, ◌<◌, true, false, ◌≡◌, refl, [], ◌∷◌, none, some, arith, eq_string, get,
  insert, all, ltb,
}
use catnap.Ops.Worker.{nanos_per_second}
use catnap.Schedule.Round.{
  poll_due, saturating_add, add_wrapped, User, World, Schedule, first_schedule, Turn, turn,
  run_loop, set_dues, initial_topology_due, topology_part, probe_part, discovery_part, users_part,
  cleanup_part, date_max,
}
use catnap.Schedule.Users.{polls}
use catnap.Schedule.Polls.{minute_between_polls}
use catnap.Schedule.Jobs.{topology_job, one_topology_job, StaysAhead, jobs_ahead}

abbrev ada : User
ada = record { id = "ada"; readable = true; poll_interval_minutes = 0; jitter_s = 3 }

-- A new database at some seconds since the loop began.
abbrev new_at : ℕ → World
new_at seconds = record {
  now = seconds * nanos_per_second;
  users = some (ada ∷ ada ∷ []);
  rows =
      some (record {
        has_topology = false;
        has_known_targets = false;
        last_topology_refresh_at = none;
      });
  refresh_succeeds = true;
  probe_succeeds = true;
}

-- What a turn computes with.
play : World → Schedule → Turn
unfolding turn set_dues initial_topology_due saturating_add add_wrapped topology_part probe_part
    discovery_part users_part cleanup_part get insert
play w s = turn w s

first_turn_polls : polls "ada" (play (new_at 10) first_schedule).actions ≡ 1
unfolding play
first_turn_polls = refl

first_turn_goes_on : (turn (new_at 10) first_schedule).stopped ≡ false
unfolding turn set_dues initial_topology_due saturating_add add_wrapped topology_part probe_part
    discovery_part users_part cleanup_part get insert
first_turn_goes_on = refl

ada_is_polled : 1 ≤ polls "ada" (turn (new_at 10) first_schedule).actions
unfolding turn set_dues initial_topology_due saturating_add add_wrapped topology_part probe_part
    discovery_part users_part cleanup_part get insert
ada_is_polled = omega arith

all_within :
    all (λ v. ltb v.now (saturating_add (new_at 10).now 60)) (new_at 12 ∷ new_at 69 ∷ []) ≡ true
unfolding saturating_add
all_within = refl

minute_between_polls_example :
    polls "ada"
      (run_loop (turn (new_at 10) first_schedule).schedule (new_at 12 ∷ new_at 69 ∷ [])).actions
    ≡ 0
minute_between_polls_example =
    minute_between_polls (new_at 10) first_schedule (new_at 12 ∷ new_at 69 ∷ []) "ada" refl
      ada_is_polled all_within

-- An interval that wraps: the user is due again at once.
abbrev hasty : User
hasty = record ada { poll_interval_minutes = 153722867280912931 }

wrapped_interval_is_past : poll_due (100 * nanos_per_second) hasty ≡ 0
unfolding add_wrapped saturating_add
wrapped_interval_is_past = refl

one_topology_job_example : total topology_job (turn (new_at 10) first_schedule).actions ≤ 1
one_topology_job_example = one_topology_job (new_at 10) first_schedule

before_the_end : (new_at 10).now < date_max
before_the_end = omega arith

jobs_ahead_example : StaysAhead (new_at 10).now (turn (new_at 10) first_schedule).schedule
jobs_ahead_example = jobs_ahead (new_at 10) first_schedule before_the_end first_turn_goes_on
