-- ===== src/Lazycat/Guard/Examples.antt =====
-- A login whose sync refuses another, and a sync after its release.
use catnap.Common.{true, ◌≡◌, refl, List, [], ◌∷◌, eq_string, contains, add}
use catnap.Lazycat.Guard.{
  no_guards, take_out, GuardEvent, sync_requested, login_begins, login_answered, sync_ended,
  released, guard_step, guard_run,
}
use catnap.Lazycat.Guard.Single.{as_number, guards_of, one_guard}

abbrev busy_user : List GuardEvent
busy_user =
    login_begins "u" true
    ∷ sync_requested "u"
    ∷ login_answered "u" true
    ∷ sync_requested "v"
    ∷ sync_ended "u"
    ∷ sync_requested "u"
    ∷ []

refused_while_busy :
    guard_run busy_user no_guards
    ≡ (record { active = "u" ∷ "v" ∷ []; logins = []; syncs = "v" ∷ []; releasing = "u" ∷ [] })
unfolding guard_run guard_step take_out add
refused_while_busy = refl

synced_again :
    (guard_step
      (sync_requested "u")
      (guard_step (released "u") (guard_run busy_user no_guards))).syncs
    ≡ "u" ∷ "v" ∷ []
unfolding guard_run guard_step take_out add
synced_again = refl

one_guard_example :
    guards_of "u" (guard_run busy_user no_guards)
    ≡ as_number (contains "u" (guard_run busy_user no_guards).active)
one_guard_example = one_guard busy_user "u"
