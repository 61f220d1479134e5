-- ===== src/Schedule/Polls.antt =====
-- How often the poller polls a user.
use catnap.Common.{
  ℕ, ◌≤◌, String, Bool, true, false, ◌≡◌, refl, ◌∙◌, ap, List, [], ◌∷◌, ◌++◌, Option, none, some,
  arith, ltb, leb, eq_string, get, unwrap_or, total-append, all, Bool-cases, Option-cases, inl, inr,
}
use catnap.Schedule.Round.{
  saturating_add, fits, User, World, Schedule, Action, set_dues, is_due, topology_part, probe_part,
  discovery_part, is_user_due, users_part, UsersTurn, after_users, cleanup_part, run_loop,
  timed_turn, turn, dues,
}
use catnap.Schedule.Users.{poll_of, polls, ahead, user-early, user-ahead}

topology-quiet :
    (w : World) (s : Schedule) (id : String)
    → ((topology_part w s).0.next_due ≡ s.next_due) × (polls id (topology_part w s).1 ≡ 0)
unfolding topology_part
topology-quiet w s id = ground arith

probe-quiet :
    (w : World) (ran : Bool) (s : Schedule) (id : String)
    → ((probe_part w ran s).0.next_due ≡ s.next_due) × (polls id (probe_part w ran s).1 ≡ 0)
unfolding probe_part
probe-quiet w ran s id = ground arith

discovery-quiet :
    (w : World) (s : Schedule) (id : String)
    → ((discovery_part w s).0.next_due ≡ s.next_due) × (polls id (discovery_part w s).1 ≡ 0)
unfolding discovery_part
discovery-quiet w s id = ground arith

cleanup-quiet :
    (now : ℕ) (s : Schedule) (id : String)
    → ((cleanup_part now s).0.next_due ≡ s.next_due) × (polls id (cleanup_part now s).1 ≡ 0)
unfolding cleanup_part
cleanup-quiet now s id = ground arith

after_users-polls :
    (w : World) (s : Schedule) (done : List Action) (users : UsersTurn) (id : String)
    → polls id done ≡ 0
    → let t = after_users w s done users in
      (polls id t.actions ≡ polls id users.actions) × (t.schedule.next_due ≡ users.next_due)
after_users-polls w s done users id h = elim (Bool-cases users.stopped) [
  | inl stopped ↦
      rw (stopped, after_users)
        (total-append (poll_of id) done users.actions ∙ omega (arith, h), refl)
  | inr fine ↦
      let s' : Schedule = record s { next_due = users.next_due } in
      let cleaned = (cleanup_part w.now s').1 in
      rw (fine, after_users)
        (
          total-append (poll_of id) (done ++ users.actions) cleaned
              ∙ omega (
                arith,
                h,
                total-append (poll_of id) done users.actions,
                (cleanup-quiet w.now s' id).1,
              ),
          (cleanup-quiet w.now s' id).0,
        )
]

timed-users :
    (w : World) (users : List User) (s : Schedule) (id : String)
    → let t = timed_turn w users s in
      (polls id t.actions ≡ polls id (users_part w.now s.next_due users).actions)
      × (t.schedule.next_due ≡ (users_part w.now s.next_due users).next_due)
timed-users w users s id =
    let s1 = (topology_part w s).0 in
    let ran = is_due w.now s.next_topology_due in
    let s2 = (probe_part w ran s1).0 in
    let s3 = (discovery_part w s2).0 in
    let refreshed = (topology_part w s).1 in
    let probed = (probe_part w ran s1).1 in
    let discovered = (discovery_part w s2).1 in
    let same =
      (discovery-quiet w s2 id).0 ∙ (probe-quiet w ran s1 id).0 ∙ (topology-quiet w s id).0 in
    let rest =
      after_users-polls w s3 (refreshed ++ probed ++ discovered)
        (users_part w.now s3.next_due users) id
        (total-append (poll_of id) (refreshed ++ probed) discovered
          ∙ omega (
            arith,
            total-append (poll_of id) refreshed probed,
            (topology-quiet w s id).1,
            (probe-quiet w ran s1 id).1,
            (discovery-quiet w s2 id).1,
          )) in
    (
      rest.0 ∙ ap (λ due. polls id (users_part w.now due users).actions) same,
      rest.1 ∙ ap (λ due. (users_part w.now due users).next_due) same,
    )

dues-next_due :
    (w : World) (s : Schedule) {s' : Schedule} → dues w s ≡ some s' → s'.next_due ≡ s.next_due
unfolding set_dues
dues-next_due w s h = ground arith

-- What a turn does to a user, its part for the users does.
turn-users :
    (w : World) (s : Schedule) (id : String)
    → (us : List User) × ((all fits (unwrap_or w.users []) ≡ true → all fits us ≡ true)
        × (polls id (turn w s).actions ≡ polls id (users_part w.now s.next_due us).actions)
        × (get id (turn w s).schedule.next_due ≡ get id (users_part w.now s.next_due us).next_due))
unfolding turn users_part set_dues
turn-users w s id = elim (Option-cases w.users) [
  | inl e ↦ ([], rw (e, turn) (λ f. refl, refl, refl))
  | inr (users, e) ↦ elim (Option-cases (dues w s)) [
    | inl f ↦ ([], rw (e, turn) (rw f (λ r. refl, refl, refl)))
    | inr (s', f) ↦ (
      users,
      rw (e, turn)
          (rw f (
            let t = timed-users w users s' id in
            let same = dues-next_due w s f in
            (
              λ r. r,
              t.0 ∙ ap (λ due. polls id (users_part w.now due users).actions) same,
              ap (get id) (t.1 ∙ ap (λ due. (users_part w.now due users).next_due) same),
            ))),
    )
  ]
]

-- A turn that polls a user sets a due at least a minute ahead of it.
turn-ahead :
    (w : World) (s : Schedule) (id : String)
    → all fits (unwrap_or w.users []) ≡ true
    → 1 ≤ polls id (turn w s).actions
    → ahead (saturating_add w.now 60) (get id (turn w s).schedule.next_due) ≡ true
turn-ahead w s id f h =
    let (us, (ranges, polled, due)) = turn-users w s id in
    rw due (user-ahead w.now s.next_due us id (ranges f) (inl (rw polled at h)))

-- A turn before a user's due does not poll it, and leaves the due.
turn-early :
    (w : World) (s : Schedule) (id : String)
    → is_user_due w.now s.next_due id ≡ false
    → (polls id (turn w s).actions ≡ 0) × (get id (turn w s).schedule.next_due ≡ get id s.next_due)
turn-early w s id h =
    let (us, (ranges, polled, due)) = turn-users w s id in
    let early = user-early w.now s.next_due us id h in (polled ∙ early.0, due ∙ early.1)

not-due :
    (bound now : ℕ) (due : Option ℕ)
    → ahead bound due ≡ true
    → ltb now bound ≡ true
    → leb (unwrap_or due now) now ≡ false
not-due bound now none h k = cc
not-due bound now (some d) h k = ground arith

loop-early :
    (bound : ℕ) (ws : List World) (s : Schedule) (id : String)
    → ahead bound (get id s.next_due) ≡ true
    → all (λ w. ltb w.now bound) ws ≡ true
    → polls id (run_loop s ws).actions ≡ 0
unfolding run_loop
loop-early bound [] s id h before = refl
loop-early bound (w ∷ ws) s id h before =
    let early = turn-early w s id (not-due bound w.now (get id s.next_due) h (ground arith)) in
    let rest =
      loop-early bound ws (turn w s).schedule id (ap (ahead bound) early.1 ∙ h) (ground arith) in
    elim (Bool-cases (turn w s).stopped) [
      | inl stopped ↦ rw (stopped, run_loop) early.0
      | inr fine ↦
          rw (fine, run_loop)
            (total-append (poll_of id) (turn w s).actions (run_loop (turn w s).schedule ws).actions
              ∙ omega (arith, early.0, rest))
    ]

-- Where the seconds to the next poll of each user fit `i64`, a turn that polls a user is followed by no
-- other poll of that user while less than a minute has passed, whatever the queries, the refreshes and
-- the jitter give, also where the user's stored interval is 0 or the user is listed twice.
pub minute_between_polls :
    (w : World) (s : Schedule) (ws : List World) (id : String)
    → all fits (unwrap_or w.users []) ≡ true
    → 1 ≤ polls id (turn w s).actions
    → all (λ v. ltb v.now (saturating_add w.now 60)) ws ≡ true
    → polls id (run_loop (turn w s).schedule ws).actions ≡ 0
minute_between_polls w s ws id f h before =
    loop-early (saturating_add w.now 60) ws (turn w s).schedule id (turn-ahead w s id f h) before
