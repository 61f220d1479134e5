-- ===== src/Ops/Reasons/Window.antt =====
-- The freshness window of a task is the broadest of its reasons' windows.
use catnap.Common.{
  ℕ, ◌+◌, ◌≤◌, String, ◌≡◌, refl, ◌⊎◌, inl, inr, true, [], ◌∷◌, Option, none, some, arith, ◌==◌,
  ==_iff, eq_string, get, insert, is_some, Bool-cases, ==_refl, unwrap_or,
}
use catnap.Ops.Reasons.{
  ReasonCounts, reason_freshness_window_seconds, max_some, task_freshness_window_seconds,
  should_emit_lifecycle_notify, count_reason,
}

-- A task emits lifecycle notifications exactly when it has a freshness window: the two tests list
-- the same reasons.
should_emit-is_some :
    (counts : ReasonCounts)
    → should_emit_lifecycle_notify counts ≡ is_some (task_freshness_window_seconds counts)
unfolding should_emit_lifecycle_notify task_freshness_window_seconds reason_freshness_window_seconds
should_emit-is_some [] = refl
should_emit-is_some ((reason, n) ∷ counts) = ground (arith, should_emit-is_some counts)

-- The order of windows: a task without one is the narrowest.
abbrev pub Narrower : Option ℕ → Option ℕ → Type 0
Narrower none w = Unit {0}
Narrower (some a) none = ⊥
Narrower (some a) (some b) = a ≤ b

Narrower-max_left : (a b : Option ℕ) → Narrower a (max_some a b)
Narrower-max_left none b = tt
Narrower-max_left (some a) none = omega arith
Narrower-max_left (some a) (some b) = ground arith

Narrower-max_right : (a b c : Option ℕ) → Narrower a b → Narrower a (max_some c b)
Narrower-max_right none b c h = tt
Narrower-max_right (some a) (some b) none h = h
Narrower-max_right (some a) (some b) (some c) h = ground arith
Narrower-max_right (some a) none c h = absurd h

Narrower-refl : (a : Option ℕ) → Narrower a a
Narrower-refl none = tt
Narrower-refl (some a) = omega arith

max_some_absorb : (a b : Option ℕ) → max_some a b ≡ max_some a (max_some a b)
max_some_absorb none b = refl
max_some_absorb (some a) none = ground arith
max_some_absorb (some a) (some b) = ground arith

max_some_swap : (a b c : Option ℕ) → max_some a (max_some b c) ≡ max_some b (max_some a c)
max_some_swap none b c = refl
max_some_swap (some a) none c = refl
max_some_swap (some a) (some b) none = ground arith
max_some_swap (some a) (some b) (some c) = ground arith

window-insert :
    (reason : String) (n : ℕ) (counts : ReasonCounts)
    → task_freshness_window_seconds (insert reason n counts)
      ≡ max_some (reason_freshness_window_seconds reason) (task_freshness_window_seconds counts)
unfolding task_freshness_window_seconds insert
window-insert reason n [] = refl
window-insert reason n ((r, k) ∷ counts) = elim (Bool-cases (r == reason)) [
  | inl same ↦
      rw (same, insert)
        (rw ((==_iff r reason).0 same) (
          max_some_absorb (reason_freshness_window_seconds reason)
            (task_freshness_window_seconds counts)))
  | inr other ↦
      rw (other, insert)
        (rw (window-insert reason n counts) (
          max_some_swap (reason_freshness_window_seconds r) (reason_freshness_window_seconds reason)
            (task_freshness_window_seconds counts)))
]

-- A caller that joins a task widens its window to its own reason's, and never narrows it.
window-count_reason :
    (reason : String) (counts : ReasonCounts)
    → (task_freshness_window_seconds (count_reason reason counts)
        ≡ max_some (reason_freshness_window_seconds reason) (task_freshness_window_seconds counts))
      × Narrower
          (task_freshness_window_seconds counts)
          (task_freshness_window_seconds (count_reason reason counts))
unfolding count_reason
window-count_reason reason counts =
    let widened = window-insert reason (unwrap_or (get reason counts) 0 + 1) counts in
    (
      widened,
      rw widened (
          Narrower-max_right (task_freshness_window_seconds counts)
            (task_freshness_window_seconds counts) (reason_freshness_window_seconds reason)
            (Narrower-refl (task_freshness_window_seconds counts))),
    )

-- The window of a task is at least that of each of its reasons.
window_covers :
    (counts : ReasonCounts) (reason : String) (n : ℕ)
    → get reason counts ≡ some n
    → Narrower (reason_freshness_window_seconds reason) (task_freshness_window_seconds counts)
unfolding task_freshness_window_seconds get
window_covers [] reason n h = cc
window_covers ((r, k) ∷ counts) reason n h = elim (Bool-cases (r == reason)) [
  | inl same ↦
      rw (← (==_iff r reason).0 same) (Narrower-max_left (reason_freshness_window_seconds r) _)
  | inr other ↦
      Narrower-max_right (reason_freshness_window_seconds reason)
        (task_freshness_window_seconds counts) (reason_freshness_window_seconds r)
        (window_covers counts reason n (rw (other, get) at h))
]

max_some_cases : (a b : Option ℕ) (w : ℕ) → max_some a b ≡ some w → (a ≡ some w) ⊎ (b ≡ some w)
max_some_cases none b w h = inr h
max_some_cases (some a) none w h = inl h
max_some_cases (some a) (some b) w h = ground arith

is_some-get-cons :
    (r reason : String) (n : ℕ) (counts : ReasonCounts)
    → is_some (get reason counts) ≡ true
    → is_some (get reason ((r, n) ∷ counts)) ≡ true
unfolding get
is_some-get-cons r reason n counts h = ground arith

-- The window of a task is the window of one of its reasons.
window_attained :
    (counts : ReasonCounts) (w : ℕ)
    → task_freshness_window_seconds counts ≡ some w
    → (reason : String) × (is_some (get reason counts) ≡ true)
      × (reason_freshness_window_seconds reason ≡ some w)
unfolding task_freshness_window_seconds get
window_attained [] w h = cc
window_attained ((r, n) ∷ counts) w h =
    elim (max_some_cases (reason_freshness_window_seconds r) (task_freshness_window_seconds counts)
      w h) [
        | inl here ↦ (r, rw (==_refl r) refl, here)
        | inr later ↦
            let (reason, present, window) = window_attained counts w later in
            (reason, is_some-get-cons r reason n counts present, window)
      ]
