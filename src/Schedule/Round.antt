-- ===== src/Schedule/Round.antt =====
-- src/poller.rs, `run`: one turn of the poller's loop, and what it does in it.
use catnap.Common.{
  ℕ, ◌+◌, ◌-◌, ◌*◌, ◌%◌, ◌^◌, min, max, String, Bool, true, false, not, ◌&&◌, ◌||◌, List, [], ◌∷◌,
  ◌++◌, Option, none, some, ltb, leb, if◌then◌else◌, eq_string, get, insert, unwrap_or, map_some,
  is_some,
}
use catnap.Ops.Worker.{nanos_per_second}

abbrev pub discovery_interval_seconds : ℕ
discovery_interval_seconds = 5 * 60

abbrev pub topology_retry_seconds : ℕ
topology_retry_seconds = 5 * 60

abbrev pub fixed_catalog_topology_probe_interval_minutes : ℕ
fixed_catalog_topology_probe_interval_minutes = 15

abbrev pub fixed_catalog_topology_refresh_interval_hours : ℕ
fixed_catalog_topology_refresh_interval_hours = 1

-- The last time that `OffsetDateTime` has: the end of the year 9999, in nanoseconds.
abbrev pub date_max : ℕ
date_max = 253402300800 * nanos_per_second - 1

-- `saturating_add` of some seconds.
unfoldable pub saturating_add : ℕ → ℕ → ℕ
saturating_add at seconds = min (at + seconds * nanos_per_second) date_max

-- A user, with the settings that could be read and the jitter drawn; the interval is what is left of
-- the stored one by `max(1)`.
pub record User : Type 0 where
  pub id : String
  pub readable : Bool
  pub poll_interval_minutes : ℕ
  pub jitter_s : ℕ

pub record TopologyRows : Type 0 where
  pub has_topology : Bool
  pub has_known_targets : Bool
  pub last_topology_refresh_at : Option ℕ

-- What a turn reads and is answered. `none` is a failed query.
pub record World : Type 0 where
  pub now : ℕ
  pub users : Option (List User)
  pub rows : Option TopologyRows
  pub refresh_succeeds : Bool
  pub probe_succeeds : Bool

pub record Schedule : Type 0 where
  pub next_due : List (String × ℕ)
  pub last_cleanup : Option ℕ
  pub next_topology_due : Option ℕ
  pub next_topology_probe_due : Option ℕ
  pub next_discovery_due : Option ℕ

abbrev pub first_schedule : Schedule
first_schedule = record {
  next_due = [];
  last_cleanup = none;
  next_topology_due = none;
  next_topology_probe_due = none;
  next_discovery_due = none;
}

pub data Action : Type 0 where
  refresh_topology probe_topology enqueue_discovery cleanup : Action
  sync_user poll_user : String → Action

-- A stopped turn is one that a failed query has ended, and the loop with it.
pub record Turn : Type 0 where
  pub schedule : Schedule
  pub actions : List Action
  pub stopped : Bool

abbrev topology_interval : ℕ
topology_interval = fixed_catalog_topology_refresh_interval_hours * 3600

abbrev topology_probe_interval : ℕ
topology_probe_interval = fixed_catalog_topology_probe_interval_minutes * 60

unfoldable pub initial_topology_due : ℕ → ℕ → Bool → Option ℕ → ℕ
unfolding saturating_add
initial_topology_due now interval has_topology last_topology_refresh_at =
    if not has_topology
    then now
    else unwrap_or (map_some (λ ts. saturating_add ts interval) last_topology_refresh_at)
        (saturating_add now interval)

abbrev or_else : Option ℕ → ℕ → Option ℕ
or_else none d = some d
or_else (some a) d = some a

-- The dues that are unset.
unfoldable pub set_dues : Schedule → ℕ → TopologyRows → Schedule
unfolding saturating_add
set_dues s now rows = record s {
  next_topology_due = or_else s.next_topology_due (
      initial_topology_due now topology_interval rows.has_topology
        (if rows.has_topology then rows.last_topology_refresh_at else none));
  next_topology_probe_due =
      or_else s.next_topology_probe_due (saturating_add now topology_probe_interval);
  next_discovery_due = or_else s.next_discovery_due (
      if rows.has_topology || rows.has_known_targets
      then saturating_add now discovery_interval_seconds
      else now);
}

abbrev pub is_due : ℕ → Option ℕ → Bool
is_due now none = false
is_due now (some due) = leb due now

unfoldable pub topology_part : World → Schedule → Schedule × List Action
unfolding saturating_add
topology_part w s =
    if is_due w.now s.next_topology_due
    then (
      (if w.refresh_succeeds
          then record s {
            next_topology_due = some (saturating_add w.now topology_interval);
            next_topology_probe_due = some (saturating_add w.now topology_probe_interval);
          }
          else record s { next_topology_due = some (saturating_add w.now topology_retry_seconds) }),
      refresh_topology ∷ [],
    )
    else (s, [])

unfoldable pub probe_part : World → Bool → Schedule → Schedule × List Action
unfolding saturating_add
probe_part w topology_job_ran s =
    if not topology_job_ran && is_due w.now s.next_topology_probe_due
    then (
      record s {
        next_topology_probe_due = some (
            saturating_add w.now
              (if w.probe_succeeds then topology_probe_interval else topology_retry_seconds));
      },
      probe_topology ∷ [],
    )
    else (s, [])

unfoldable pub discovery_part : World → Schedule → Schedule × List Action
unfolding saturating_add
discovery_part w s =
    if is_due w.now s.next_discovery_due
    then (
      record s { next_discovery_due = some (saturating_add w.now discovery_interval_seconds) },
      enqueue_discovery ∷ [],
    )
    else (s, [])

-- The seconds to the next poll, as they would be if an `i64` had no end.
abbrev pub poll_seconds : User → ℕ
poll_seconds u = max u.poll_interval_minutes 1 * 60 + u.jitter_s

-- A time so many seconds on, as an `i64` has them: 2 ^ 63 and more are seconds back. A time before the
-- epoch is the epoch here, which is as much in the past.
unfoldable pub add_wrapped : ℕ → ℕ → ℕ
unfolding saturating_add
add_wrapped at seconds =
    let wrapped = seconds % (2 ^ 64) in
    if ltb wrapped (2 ^ 63)
    then saturating_add at wrapped
    else at - (2 ^ 64 - wrapped) * nanos_per_second

-- Whether the seconds to the next poll are a number that `i64` has.
abbrev pub fits : User → Bool
fits u = ltb (poll_seconds u) (2 ^ 63)

abbrev pub poll_due : ℕ → User → ℕ
poll_due now u = add_wrapped now (poll_seconds u)

abbrev pub is_user_due : ℕ → List (String × ℕ) → String → Bool
is_user_due now next_due id = leb (unwrap_or (get id next_due) now) now

abbrev pub polled_dues : ℕ → List (String × ℕ) → User → List (String × ℕ)
polled_dues now next_due u =
    if is_user_due now next_due u.id then insert u.id (poll_due now u) next_due else next_due

abbrev pub user_actions : ℕ → List (String × ℕ) → User → List Action
user_actions now next_due u =
    sync_user u.id ∷ (if is_user_due now next_due u.id then poll_user u.id ∷ [] else [])

pub record UsersTurn : Type 0 where
  pub next_due : List (String × ℕ)
  pub actions : List Action
  pub stopped : Bool

-- The loop over the users. A user whose settings cannot be read ends it.
unfoldable pub users_part : ℕ → List (String × ℕ) → List User → UsersTurn
unfolding add_wrapped
users_part now next_due [] = record { next_due = next_due; actions = []; stopped = false }
users_part now next_due (u ∷ us) =
    let rest = users_part now (polled_dues now next_due u) us in
    if u.readable
    then record rest { actions = user_actions now next_due u ++ rest.actions }
    else record { next_due = next_due; actions = []; stopped = true }

abbrev pub wants_cleanup : ℕ → Option ℕ → Bool
wants_cleanup now none = true
wants_cleanup now (some last) = ltb (last + 30 * 60 * nanos_per_second) now

unfoldable pub cleanup_part : ℕ → Schedule → Schedule × List Action
cleanup_part now s =
    if wants_cleanup now s.last_cleanup
    then (record s { last_cleanup = some now }, cleanup ∷ [])
    else (s, [])

abbrev pub after_users : World → Schedule → List Action → UsersTurn → Turn
after_users w s done users =
    let s' = record s { next_due = users.next_due } in
    let cleaned = cleanup_part w.now s' in
    if users.stopped
    then record { schedule = s'; actions = done ++ users.actions; stopped = true }
    else record {
      schedule = cleaned.0;
      actions = done ++ users.actions ++ cleaned.1;
      stopped = false;
    }

-- The turn once the dues are set.
abbrev pub timed_turn : World → List User → Schedule → Turn
timed_turn w users s =
    let (s1, refreshed) = topology_part w s in
    let (s2, probed) = probe_part w (is_due w.now s.next_topology_due) s1 in
    let (s3, discovered) = discovery_part w s2 in
    after_users w s3 (refreshed ++ probed ++ discovered) (users_part w.now s3.next_due users)

abbrev all_set : Schedule → Bool
all_set s =
    is_some s.next_topology_due && is_some s.next_topology_probe_due && is_some s.next_discovery_due

abbrev stop : Schedule → Turn
stop s = record { schedule = s; actions = []; stopped = true }

abbrev pub dues : World → Schedule → Option Schedule
dues w s = if all_set s then some s else map_some (set_dues s w.now) w.rows

abbrev begin : World → Schedule → List User → Option Schedule → Turn
begin w s users none = stop s
begin w s users (some s') = timed_turn w users s'

abbrev with_users : World → Schedule → Option (List User) → Turn
with_users w s none = stop s
with_users w s (some users) = begin w s users (dues w s)

unfoldable pub turn : World → Schedule → Turn
unfolding topology_part probe_part discovery_part users_part cleanup_part
turn w s = with_users w s w.users

-- The loop over some turns.
unfoldable pub run_loop : Schedule → List World → Turn
run_loop s [] = record { schedule = s; actions = []; stopped = false }
run_loop s (w ∷ ws) =
    let t = turn w s in
    let rest = run_loop t.schedule ws in
    if t.stopped then t else record rest { actions = t.actions ++ rest.actions }
