-- ===== src/Lazycat/Guard.antt =====
-- src/lazycat.rs, `SyncActiveGuard` and its users: who may synchronise. The lists are multisets of the
-- users whose guard is at some place.
pub mod Single
pub mod Examples
use catnap.Common.{
  String, Bool, true, false, not, ◌&&◌, ◌||◌, List, [], ◌∷◌, ◌==◌, eq_string, if◌then◌else◌,
  contains, keep, add,
}

-- `active` is the set that the guards share. A guard is held by a login that waits for the site, or by a
-- task that synchronises; when it is dropped, another task takes the user out of the set.
pub record Guards : Type 0 where
  pub active : List String
  pub logins : List String
  pub syncs : List String
  pub releasing : List String

abbrev pub no_guards : Guards
no_guards = record { active = []; logins = []; syncs = []; releasing = [] }

-- One occurrence less.
unfoldable pub take_out : String → List String → List String
take_out user [] = []
take_out user (u ∷ us) = let rest = take_out user us in if u == user then us else u ∷ rest

-- `try_acquire_sync_guard`: whether the user has a guard now, and the set.
abbrev pub try_acquire_sync_guard : String → List String → Bool × List String
try_acquire_sync_guard user active =
    if contains user active then (false, active) else (true, add user active)

-- `HashSet::remove`
abbrev pub remove_active : String → List String → List String
remove_active user active = keep (λ u. not (u == user)) active

pub data GuardEvent : Type 0 where
  -- `spawn_sync`, of a request or where a sync is due.
  sync_requested : String → GuardEvent
  -- `login_account`, with whether the email and the password are there.
  login_begins : String → Bool → GuardEvent
  -- It goes on, and its writes succeed, or it ends with an error.
  login_answered : String → Bool → GuardEvent
  sync_ended : String → GuardEvent
  -- The task that `drop` spawns.
  released : String → GuardEvent

abbrev pub spawn_sync : String → Guards → Guards
spawn_sync user g =
    let acquired = try_acquire_sync_guard user g.active in
    if acquired.0 then record g { active = acquired.1; syncs = user ∷ g.syncs } else g

abbrev pub login_account : String → Bool → Guards → Guards
login_account user filled g =
    let acquired = try_acquire_sync_guard user g.active in
    if filled && acquired.0 then record g { active = acquired.1; logins = user ∷ g.logins } else g

-- An event of a guard that is not there does not happen, and leaves the state.
unfoldable pub guard_step : GuardEvent → Guards → Guards
unfolding take_out
guard_step (sync_requested user) g = spawn_sync user g
guard_step (login_begins user filled) g = login_account user filled g
guard_step (login_answered user true) g =
    if contains user g.logins
    then record g { logins = take_out user g.logins; syncs = user ∷ g.syncs }
    else g
guard_step (login_answered user false) g =
    if contains user g.logins
    then record g { logins = take_out user g.logins; releasing = user ∷ g.releasing }
    else g
guard_step (sync_ended user) g =
    if contains user g.syncs
    then record g { syncs = take_out user g.syncs; releasing = user ∷ g.releasing }
    else g
guard_step (released user) g =
    if contains user g.releasing
    then record g { releasing = take_out user g.releasing; active = remove_active user g.active }
    else g

unfoldable pub guard_run : List GuardEvent → Guards → Guards
unfolding guard_step
guard_run [] g = g
guard_run (e ∷ es) g = guard_run es (guard_step e g)
