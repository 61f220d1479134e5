-- ===== src/Lazycat/Guard/Single.antt =====
-- A user has at most one guard.
use catnap.Common.{
  ℕ, ◌+◌, String, Bool, true, false, not, ◌&&◌, ◌≡◌, refl, List, [], ◌∷◌, ◌==◌, ==_iff, eq_string,
  if◌then◌else◌, contains, contains-add, contains-keep, count, arith, Bool-cases, inl, inr,
}
use catnap.Lazycat.Guard.{
  Guards, no_guards, take_out, spawn_sync, GuardEvent, sync_requested, login_begins, login_answered,
  sync_ended, released, guard_step, guard_run,
}

abbrev pub as_number : Bool → ℕ
as_number b = if b then 1 else 0

count-take_out :
    (user u : String) (us : List String)
    → count u (take_out user us) + as_number (user == u && contains user us) ≡ count u us
unfolding take_out
count-take_out user u [] = ground arith
count-take_out user u (v ∷ us) =
    ground (arith, count-take_out user u us, ==_iff v user, ==_iff v u, ==_iff user u)

contains_same :
    (user u : String) (us : List String) → (user == u) ≡ true → contains u us ≡ contains user us
contains_same user u us h = rw ((==_iff user u).0 h) refl

-- The guards of a user, wherever they are.
abbrev pub guards_of : String → Guards → ℕ
guards_of u g = count u g.logins + count u g.syncs + count u g.releasing

abbrev Counted : Guards → Type 0
Counted g = (u : String) → guards_of u g ≡ as_number (contains u g.active)

acquired-Counted : (user : String) (g : Guards) → Counted g → Counted (spawn_sync user g)
acquired-Counted user g h u = elim (Bool-cases (contains user g.active)) [
  | inl busy ↦ rw busy (h u)
  | inr free ↦
      rw free (ground (arith, h u, contains-add u user g.active, contains_same user u g.active))
]

guard_step-Counted : (e : GuardEvent) (g : Guards) → Counted g → Counted (guard_step e g)
unfolding guard_step
guard_step-Counted (sync_requested user) g h u = acquired-Counted user g h u
guard_step-Counted (login_begins user true) g h u = elim (Bool-cases (contains user g.active)) [
  | inl busy ↦ rw busy (h u)
  | inr free ↦
      rw free (ground (arith, h u, contains-add u user g.active, contains_same user u g.active))
]
guard_step-Counted (login_begins user false) g h u = h u
guard_step-Counted (login_answered user true) g h u = elim (Bool-cases (contains user g.logins)) [
  | inl waits ↦ rw waits (ground (arith, h u, count-take_out user u g.logins))
  | inr gone ↦ rw gone (h u)
]
guard_step-Counted (login_answered user false) g h u = elim (Bool-cases (contains user g.logins)) [
  | inl waits ↦ rw waits (ground (arith, h u, count-take_out user u g.logins))
  | inr gone ↦ rw gone (h u)
]
guard_step-Counted (sync_ended user) g h u = elim (Bool-cases (contains user g.syncs)) [
  | inl runs ↦ rw runs (ground (arith, h u, count-take_out user u g.syncs))
  | inr gone ↦ rw gone (h u)
]
guard_step-Counted (released user) g h u = elim (Bool-cases (contains user g.releasing)) [
  | inl waits ↦ rw waits (
      ground (
        arith,
        h u,
        count-take_out user u g.releasing,
        contains-keep u (λ v. not (v == user)) g.active,
        ==_iff u user,
        ==_iff user u,
      ))
  | inr gone ↦ rw gone (h u)
]

guard_run-Counted : (es : List GuardEvent) (g : Guards) → Counted g → Counted (guard_run es g)
unfolding guard_run
guard_run-Counted [] g h = h
guard_run-Counted (e ∷ es) g h = guard_run-Counted es (guard_step e g) (guard_step-Counted e g h)

-- Through any run of requests, logins, syncs and releases, a user has one guard if the user is in the
-- shared set and none otherwise: at most one login or sync of a user is under way.
pub one_guard :
    (es : List GuardEvent) (user : String)
    → guards_of user (guard_run es no_guards)
      ≡ as_number (contains user (guard_run es no_guards).active)
one_guard es user = guard_run-Counted es no_guards (λ u. refl) user
