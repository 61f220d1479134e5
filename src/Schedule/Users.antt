-- ===== src/Schedule/Users.antt =====
-- What the poller's loop over the users does to one of them.
use catnap.Common.{
  ℕ, zero, suc, ◌+◌, ◌≤◌, String, Bool, true, false, ◌≡◌, ◌≢◌, refl, ◌∙◌, sym, ap, List, [], ◌∷◌,
  Option, none, some, arith, leb, ◌==◌, ==_iff, if◌then◌else◌, eq_string, get, get-insert,
  unwrap_or, total, total-append, all, Bool-cases, inl, inr, ◌⊎◌,
}
use catnap.Schedule.Round.{
  saturating_add, add_wrapped, fits, poll_due, User, Action, refresh_topology, probe_topology,
  enqueue_discovery, cleanup, sync_user, poll_user, is_user_due, users_part, poll_seconds,
  polled_dues, user_actions,
}

-- 1 for a poll of the user.
abbrev pub poll_of : String → Action → ℕ
poll_of id (poll_user u) = if u == id then 1 else 0
poll_of id (sync_user u) = 0
poll_of id refresh_topology = 0
poll_of id probe_topology = 0
poll_of id enqueue_discovery = 0
poll_of id cleanup = 0

abbrev pub polls : String → List Action → ℕ
polls id = total (poll_of id)

pub true-ne-false : true ≢ false
true-ne-false h = cc

-- Whether a user is due no sooner than a time.
abbrev pub ahead : ℕ → Option ℕ → Bool
ahead bound none = false
ahead bound (some due) = leb bound due

poll_due-fits :
    (now : ℕ) (u : User) → fits u ≡ true → poll_due now u ≡ saturating_add now (poll_seconds u)
unfolding add_wrapped saturating_add
poll_due-fits now u h = ground (arith, h)

saturating_add-le : (now : ℕ) (u : User) → fits u ≡ true → saturating_add now 60 ≤ poll_due now u
unfolding saturating_add
saturating_add-le now u h = omega (arith, poll_due-fits now u h)

one-early :
    (now : ℕ) (next_due : List (String × ℕ)) (u : User) (id : String)
    → is_user_due now next_due id ≡ false
    → (polls id (user_actions now next_due u) ≡ 0)
      × (get id (polled_dues now next_due u) ≡ get id next_due)
one-early now nd u id h = elim (Bool-cases (is_user_due now nd u.id)) [
  | inl due ↦ elim (Bool-cases (u.id == id)) [
    | inl same ↦ absurd (true-ne-false (sym (rw ((==_iff u.id id).0 same) at due) ∙ h))
    | inr other ↦
        rw due (ground (arith, other), get-insert u.id id (poll_due now u) nd ∙ rw other refl)
  ]
  | inr wait ↦ rw wait (refl, refl)
]

one-ahead :
    (now : ℕ) (next_due : List (String × ℕ)) (u : User) (id : String)
    → fits u ≡ true
    → (1 ≤ polls id (user_actions now next_due u))
      ⊎ (ahead (saturating_add now 60) (get id next_due) ≡ true)
    → ahead (saturating_add now 60) (get id (polled_dues now next_due u)) ≡ true
one-ahead now nd u id f h =
    ground (arith, get-insert u.id id (poll_due now u) nd, saturating_add-le now u f)

pub user-early :
    (now : ℕ) (next_due : List (String × ℕ)) (us : List User) (id : String)
    → is_user_due now next_due id ≡ false
    → let users = users_part now next_due us in
      (polls id users.actions ≡ 0) × (get id users.next_due ≡ get id next_due)
unfolding users_part
user-early now nd [] id h = (refl, refl)
user-early now nd (u ∷ us) id h = elim (Bool-cases u.readable) [
  | inl readable ↦
      let one = one-early now nd u id h in
      let rest =
        user-early now (polled_dues now nd u) us id
          (ap (λ due. leb (unwrap_or due now) now) one.1 ∙ h) in
      rw (readable, users_part)
        (
          total-append (poll_of id) (user_actions now nd u) _ ∙ omega (arith, one.0, rest.0),
          rest.1 ∙ one.1,
        )
  | inr unreadable ↦ rw (unreadable, users_part) (refl, refl)
]

-- What one poll or being due late brings on is brought on by a sum of two parts too.
first-or-rest :
    {A B C : Type 0} (m n : ℕ) → ((1 ≤ m) ⊎ A → B) → ((1 ≤ n) ⊎ B → C) → (1 ≤ m + n) ⊎ A → C
first-or-rest m n f g (inr a) = g (inr (f (inr a)))
first-or-rest zero n f g (inl p) = g (inl (omega arith))
first-or-rest (suc m) n f g (inl p) = g (inr (f (inl (omega arith))))

idle-ahead : {A : Type 0} → (1 ≤ 0) ⊎ A → A
idle-ahead (inl p) = absurd (omega arith)
idle-ahead (inr a) = a

pub user-ahead :
    (now : ℕ) (next_due : List (String × ℕ)) (us : List User) (id : String)
    → all fits us ≡ true
    → (1 ≤ polls id (users_part now next_due us).actions)
      ⊎ (ahead (saturating_add now 60) (get id next_due) ≡ true)
    → ahead (saturating_add now 60) (get id (users_part now next_due us).next_due) ≡ true
unfolding users_part
user-ahead now nd [] id f h = ground arith
user-ahead now nd (u ∷ us) id f h = elim (Bool-cases u.readable) [
  | inl readable ↦
      let rest = users_part now (polled_dues now nd u) us in
      rw (readable, users_part)
        (first-or-rest (polls id (user_actions now nd u)) (polls id rest.actions)
          (one-ahead now nd u id (ground (arith, f)))
          (user-ahead now (polled_dues now nd u) us id (ground (arith, f)))
          (rw (← total-append (poll_of id) (user_actions now nd u) rest.actions)
            (rw (readable, users_part) at h)))
  | inr unreadable ↦ rw (unreadable, users_part) (idle-ahead (rw (unreadable, users_part) at h))
]
