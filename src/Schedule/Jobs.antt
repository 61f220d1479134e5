-- ===== src/Schedule/Jobs.antt =====
-- When the poller refreshes and probes the topology and discovers.
use catnap.Common.{
  ℕ, ◌+◌, ◌≤◌, ◌<◌, String, Bool, true, false, ◌≡◌, refl, ◌∙◌, List, [], ◌∷◌, ◌++◌, Option, none,
  some, arith, ltb, is_some, total, total-append, Bool-cases, Option-cases, inl, inr,
}
use catnap.Schedule.Users.{true-ne-false}
use catnap.Schedule.Round.{
  saturating_add, User, World, Schedule, Action, refresh_topology, probe_topology,
  enqueue_discovery, cleanup, sync_user, poll_user, UsersTurn, set_dues, is_due, topology_part,
  probe_part, discovery_part, users_part, cleanup_part, after_users, timed_turn, turn, dues,
  date_max, user_actions, polled_dues,
}

abbrev pub topology_job : Action → ℕ
topology_job refresh_topology = 1
topology_job probe_topology = 1
topology_job enqueue_discovery = 0
topology_job cleanup = 0
topology_job (sync_user u) = 0
topology_job (poll_user u) = 0

abbrev pub is_ahead : ℕ → Option ℕ → Bool
is_ahead now none = false
is_ahead now (some due) = ltb now due

-- The parts before the users: what they set, and how often they read the topology.
parts-ahead :
    (w : World) (s : Schedule)
    → w.now < date_max
    → is_some s.next_topology_due ≡ true
    → is_some s.next_discovery_due ≡ true
    → let s1 = (topology_part w s).0 in
      let s2 = (probe_part w (is_due w.now s.next_topology_due) s1).0 in
      let s3 = (discovery_part w s2).0 in
      (is_ahead w.now s3.next_topology_due ≡ true) × (is_ahead w.now s3.next_discovery_due ≡ true)
unfolding topology_part probe_part discovery_part saturating_add
parts-ahead w s h t d = ground arith

parts-once :
    (w : World) (s : Schedule)
    → let s1 = (topology_part w s).0 in
      let probed = probe_part w (is_due w.now s.next_topology_due) s1 in
      total topology_job (topology_part w s).1 + total topology_job probed.1 ≤ 1
unfolding topology_part probe_part
parts-once w s = ground arith

users-none :
    (now : ℕ) (next_due : List (String × ℕ)) (us : List User)
    → total topology_job (users_part now next_due us).actions ≡ 0
unfolding users_part
users-none now nd [] = refl
users-none now nd (u ∷ us) = elim (Bool-cases u.readable) [
  | inl readable ↦
      rw (readable, users_part)
        (total-append topology_job (user_actions now nd u)
            (users_part now (polled_dues now nd u) us).actions
          ∙ ground (arith, users-none now (polled_dues now nd u) us))
  | inr unreadable ↦ rw (unreadable, users_part) refl
]

abbrev pub StaysAhead : ℕ → Schedule → Type 0
StaysAhead now s =
    (is_ahead now s.next_topology_due ≡ true) × (is_ahead now s.next_discovery_due ≡ true)

after_users-ahead :
    (w : World) (s : Schedule) (done : List Action) (users : UsersTurn)
    → StaysAhead w.now s
    → StaysAhead w.now (after_users w s done users).schedule
unfolding cleanup_part
after_users-ahead w s done users h = ground arith

cleanup-none : (now : ℕ) (s : Schedule) → total topology_job (cleanup_part now s).1 ≡ 0
unfolding cleanup_part
cleanup-none now s = ground arith

after_users-jobs :
    (w : World) (s : Schedule) (done : List Action) (users : UsersTurn)
    → total topology_job users.actions ≡ 0
    → total topology_job (after_users w s done users).actions ≡ total topology_job done
after_users-jobs w s done users h = elim (Bool-cases users.stopped) [
  | inl stopped ↦
      rw (stopped, after_users) (total-append topology_job done users.actions ∙ omega (arith, h))
  | inr fine ↦
      let s' : Schedule = record s { next_due = users.next_due } in
      rw (fine, after_users)
        (total-append topology_job (done ++ users.actions) (cleanup_part w.now s').1
          ∙ omega (arith, h, total-append topology_job done users.actions, cleanup-none w.now s'))
]

discovery-none : (w : World) (s : Schedule) → total topology_job (discovery_part w s).1 ≡ 0
unfolding discovery_part
discovery-none w s = ground arith

timed-once :
    (w : World) (users : List User) (s : Schedule)
    → total topology_job (timed_turn w users s).actions ≤ 1
timed-once w users s =
    let s1 = (topology_part w s).0 in
    let ran = is_due w.now s.next_topology_due in
    let s2 = (probe_part w ran s1).0 in
    let s3 = (discovery_part w s2).0 in
    let refreshed = (topology_part w s).1 in
    let probed = (probe_part w ran s1).1 in
    let discovered = (discovery_part w s2).1 in
    omega (
      arith,
      after_users-jobs w s3 (refreshed ++ probed ++ discovered) (users_part w.now s3.next_due users)
          (users-none w.now s3.next_due users),
      total-append topology_job (refreshed ++ probed) discovered,
      total-append topology_job refreshed probed,
      discovery-none w s2,
      parts-once w s,
    )

-- A turn reads the topology at most once: it refreshes it, or probes it, or neither.
pub one_topology_job : (w : World) (s : Schedule) → total topology_job (turn w s).actions ≤ 1
unfolding turn
one_topology_job w s = elim (Option-cases w.users) [
  | inl e ↦ rw (e, turn) (omega arith)
  | inr (users, e) ↦ elim (Option-cases (dues w s)) [
    | inl f ↦ rw (e, turn) (rw f (omega arith))
    | inr (s', f) ↦ rw (e, turn) (rw f (timed-once w users s'))
  ]
]

dues-set :
    (w : World) (s : Schedule) (s' : Schedule)
    → dues w s ≡ some s'
    → (is_some s'.next_topology_due ≡ true) × (is_some s'.next_discovery_due ≡ true)
unfolding set_dues
dues-set w s s' h = ground arith

-- After a turn that no failed query has ended, whether or not its refresh and its probe succeed, the
-- next topology refresh and the next discovery round are set for later than the turn.
pub jobs_ahead :
    (w : World) (s : Schedule)
    → w.now < date_max
    → (turn w s).stopped ≡ false
    → StaysAhead w.now (turn w s).schedule
unfolding turn
jobs_ahead w s early h = elim (Option-cases w.users) [
  | inl e ↦ absurd (true-ne-false (rw (e, turn) at h))
  | inr (users, e) ↦ elim (Option-cases (dues w s)) [
    | inl f ↦ absurd (true-ne-false (rw f at (rw (e, turn) at h)))
    | inr (s', f) ↦
        let set = dues-set w s s' f in
        rw (e, turn)
          (rw f (
            let s1 = (topology_part w s').0 in
            let s2 = (probe_part w (is_due w.now s'.next_topology_due) s1).0 in
            let s3 = (discovery_part w s2).0 in
            after_users-ahead w s3 _ (users_part w.now s3.next_due users)
              (parts-ahead w s' early set.0 set.1)))
  ]
]
