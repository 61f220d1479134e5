-- ===== src/Refresh/Limit.antt =====
-- The gate on manual triggers of the full refresh.
use catnap.Common.{
  ℕ, ◌+◌, ◌*◌, String, Bool, true, false, not, ◌≡◌, refl, ◌∙◌, sym, List, [], ◌∷◌, Option, none,
  some, arith, ltb, ◌==◌, ==_iff, eq_string, get, get-insert, get-insert_self, ap, all, get_elem?,
  Bool-cases, Option-cases, inl, inr,
}
use catnap.Topology.Targets.{Target}
use catnap.Ops.Worker.{nanos_per_second}
use catnap.Refresh.Manager.{
  RefreshTrigger, manual, auto, Inner, Triggered, rate_limited, joined_running, spawned,
  trigger_refresh, pass_gate, manual_min_interval_seconds, too_soon, finish_error, finish_success,
  update_progress,
}
use catnap.Refresh.Job.{JobPhase, Reply, Moved, list_piece, refresh_piece, read_piece, answer_piece}
use catnap.Refresh.Single.{pass_gate-cases}
use catnap.Refresh.System.{
  System, Event, triggers, lists, refreshes, reads, answers, step, run, at_job,
}

-- Whether an event is no manual trigger of the user.
abbrev pub quiet : String → Event → Bool
quiet user (triggers manual (some u) at job_id now) = not (u == user)
quiet user (triggers manual none at job_id now) = true
quiet user (triggers auto u at job_id now) = true
quiet user (lists i reply now) = true
quiet user (refreshes i reply now) = true
quiet user (reads i reply keys at now) = true
quiet user (answers i reply now) = true

-- The gate that a passed gate leaves, from the one before.
abbrev gate_of : List (String × ℕ) → Option Inner → List (String × ℕ)
gate_of gate none = gate
gate_of gate (some m) = m.manual_gate

abbrev Keeps : Inner → (JobPhase → Moved) → Type 0
Keeps m piece = (p : JobPhase) → (piece p).inner.manual_gate ≡ m.manual_gate

at_job-gate :
    (s : System) (i : ℕ) (piece : JobPhase → Moved)
    → Keeps s.inner piece
    → (at_job s i piece).inner.manual_gate ≡ s.inner.manual_gate
at_job-gate s i piece h = elim (Option-cases (get_elem? s.jobs i)) [
  | inl e ↦ rw (e, at_job) refl
  | inr (p, e) ↦ rw (e, at_job) (h p)
]

list_piece-Keeps :
    (m : Inner) (reply : Reply (List Target)) (now : String) → Keeps m (list_piece m reply now)
unfolding list_piece update_progress finish_error finish_success
list_piece-Keeps m reply now p = ground arith

refresh_piece-Keeps :
    (m : Inner) (reply : Reply (Unit {0})) (now : String) → Keeps m (refresh_piece m reply now)
unfolding refresh_piece finish_error
refresh_piece-Keeps m reply now p = ground arith

read_piece-Keeps :
    (base : String) (m : Inner) (reply : Reply (Option (Option ℕ))) (keys : List String) (at : ℕ)
    (now : String)
    → Keeps m (read_piece base m reply keys at now)
unfolding read_piece update_progress finish_error
read_piece-Keeps base m reply keys at now p = ground arith

answer_piece-Keeps :
    (m : Inner) (reply : Reply (Unit {0})) (now : String) → Keeps m (answer_piece m reply now)
unfolding answer_piece update_progress finish_error finish_success
answer_piece-Keeps m reply now p = ground arith

-- What a trigger leaves of the gate.
trigger-gate :
    (base : String) (s : System) (trigger : RefreshTrigger) (u : Option String) (at : ℕ)
    (job_id now : String)
    → (step base s (triggers trigger u at job_id now)).inner.manual_gate
      ≡ gate_of s.inner.manual_gate (pass_gate s.inner trigger u at)
unfolding step trigger_refresh
trigger-gate base s trigger u at job_id now = elim (pass_gate-cases s.inner trigger u at) [
  | inl e ↦ rw (e, step, trigger_refresh) refl
  | inr (gate, e) ↦ elim (Bool-cases (s.inner.status.state == "running")) [
    | inl busy ↦ rw (e, step, trigger_refresh) (rw busy refl)
    | inr idle ↦ rw (e, step, trigger_refresh) (rw idle refl)
  ]
]

pass_gate-get :
    (m : Inner) (trigger : RefreshTrigger) (u : Option String) (at : ℕ) (user job_id now : String)
    → quiet user (triggers trigger u at job_id now) ≡ true
    → get user (gate_of m.manual_gate (pass_gate m trigger u at)) ≡ get user m.manual_gate
unfolding pass_gate
pass_gate-get m auto u at user job_id now h = refl
pass_gate-get m manual none at user job_id now h = refl
pass_gate-get m manual (some u) at user job_id now h =
    elim (Bool-cases (too_soon at (get u m.manual_gate))) [
      | inl soon ↦ rw (soon, pass_gate) refl
      | inr late ↦
          rw (late, pass_gate) (ground (arith, get-insert u user at m.manual_gate, ==_iff u user))
    ]

step-gate :
    (base : String) (s : System) (e : Event) (user : String)
    → quiet user e ≡ true
    → get user (step base s e).inner.manual_gate ≡ get user s.inner.manual_gate
unfolding step
step-gate base s (triggers trigger u at job_id now) user h =
    ap (get user) (trigger-gate base s trigger u at job_id now)
    ∙ pass_gate-get s.inner trigger u at user job_id now h
step-gate base s (lists i reply now) user h =
    ap (get user)
      (at_job-gate s i (list_piece s.inner reply now) (list_piece-Keeps s.inner reply now))
step-gate base s (refreshes i reply now) user h =
    ap (get user)
      (at_job-gate s i (refresh_piece s.inner reply now) (refresh_piece-Keeps s.inner reply now))
step-gate base s (reads i reply keys at now) user h = ap (get user) (
    at_job-gate s i (read_piece base s.inner reply keys at now)
      (read_piece-Keeps base s.inner reply keys at now))
step-gate base s (answers i reply now) user h =
    ap (get user)
      (at_job-gate s i (answer_piece s.inner reply now) (answer_piece-Keeps s.inner reply now))

run-gate :
    (base : String) (s : System) (es : List Event) (user : String)
    → all (quiet user) es ≡ true
    → get user (run base s es).inner.manual_gate ≡ get user s.inner.manual_gate
unfolding run
run-gate base s [] user h = refl
run-gate base s (e ∷ es) user h =
    run-gate base (step base s e) es user (ground arith) ∙ step-gate base s e user (ground arith)

abbrev pub is_limited : Triggered → Bool
is_limited rate_limited = true
is_limited (joined_running m st) = false
is_limited (spawned m st) = false

limited-too_soon :
    (m : Inner) (user : String) (at : ℕ) (job_id now : String)
    → is_limited (trigger_refresh m manual (some user) at job_id now)
      ≡ too_soon at (get user m.manual_gate)
unfolding trigger_refresh pass_gate
limited-too_soon m user at job_id now = elim (Bool-cases (too_soon at (get user m.manual_gate))) [
  | inl soon ↦ rw (soon, trigger_refresh, pass_gate) refl
  | inr late ↦ elim (Bool-cases (m.status.state == "running")) [
    | inl busy ↦ rw (late, trigger_refresh, pass_gate) (rw busy refl)
    | inr idle ↦ rw (late, trigger_refresh, pass_gate) (rw idle refl)
  ]
]

accepted-get :
    (m : Inner) (user : String) (at : ℕ)
    → too_soon at (get user m.manual_gate) ≡ false
    → get user (gate_of m.manual_gate (pass_gate m manual (some user) at)) ≡ some at
unfolding pass_gate
accepted-get m user at late = rw (late, pass_gate) (get-insert_self user at m.manual_gate)

-- After a user's manual trigger was accepted at one time, the user's next one is refused exactly
-- where less than 30 seconds have passed, whatever other users, automatic triggers and jobs do in
-- between.
pub rate_limit_exact :
    (base : String) (s : System) (user : String) (at later : ℕ) (job_id now job_id' now' : String)
    (es : List Event)
    → is_limited (trigger_refresh s.inner manual (some user) at job_id now) ≡ false
    → all (quiet user) es ≡ true
    → let last = run base (step base s (triggers manual (some user) at job_id now)) es in
      is_limited (trigger_refresh last.inner manual (some user) later job_id' now')
      ≡ ltb later (at + manual_min_interval_seconds * nanos_per_second)
rate_limit_exact base s user at later job_id now job_id' now' es accepted h =
    let first = step base s (triggers manual (some user) at job_id now) in
    limited-too_soon (run base first es).inner user later job_id' now'
    ∙ ap (too_soon later) (
        run-gate base first es user h
        ∙ ap (get user) (trigger-gate base s manual (some user) at job_id now)
        ∙ accepted-get s.inner user at
            (sym (limited-too_soon s.inner user at job_id now) ∙ accepted))
