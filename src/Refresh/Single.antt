-- ===== src/Refresh/Single.antt =====
-- The full refresh runs one job at a time, and the status follows it.
use catnap.Common.{
  ℕ, zero, suc, String, false, ◌≡◌, ◌≢◌, get, insert, refl, List, [], ◌∷◌, Option, none, some,
  arith, ◌==◌, ==_iff, eq_string, get_elem?, set, All, All-set, All-get_elem?, ◌⊎◌, Option-cases,
  inl, inr, Bool-cases,
}
use catnap.Refresh.Manager.{
  RefreshTrigger, manual, auto, CatalogRefreshStatus, Inner, trigger_refresh, pass_gate,
  new_manager, too_soon,
}
use catnap.Refresh.Job.{
  Request, JobPhase, listing, refreshing, relisting, reading, waiting, ended, replied, refused,
  Moved, list_piece, refresh_piece, read_piece, answer_piece,
}
use catnap.Refresh.System.{
  System, Event, triggers, lists, refreshes, reads, answers, start, step, run, at_job,
}
use catnap.Refresh.Pieces.{
  IsOver, Tracks, Follows, list_piece-Follows, refresh_piece-Agrees, read_piece-Agrees,
  answer_piece-Agrees,
}

All-IsOver-set : (ps : List JobPhase) (i : ℕ) → All IsOver ps → All IsOver (set ps i ended)
All-IsOver-set ps i h = All-set IsOver ps i ended h refl

at_list-Tracks :
    (m : Inner) (ps : List JobPhase) (asked : List Request) (i : ℕ) (piece : JobPhase → Moved)
    → Follows m piece
    → Tracks m.status ps
    → let next = at_job (record { inner = m; jobs = ps; requests = asked }) i piece in
      Tracks next.inner.status next.jobs
at_list-Tracks m [] asked i piece f h = h
at_list-Tracks m (p ∷ ps) asked zero piece f h = (f.0 p h.0, h.1)
at_list-Tracks m (p ∷ ps) asked (suc i) piece f h = elim (Option-cases (get_elem? ps i)) [
  | inl e ↦ rw (e, at_job) h
  | inr (q, e) ↦ rw (e, at_job, All-get_elem? IsOver ps i h.1 e, f.1) (h.0, All-IsOver-set ps i h.1)
]

at_job-Tracks :
    (s : System) (i : ℕ) (piece : JobPhase → Moved)
    → Follows s.inner piece
    → Tracks s.inner.status s.jobs
    → let next = at_job s i piece in Tracks next.inner.status next.jobs
at_job-Tracks s i piece f h = at_list-Tracks s.inner s.jobs s.requests i piece f h

start-Tracks : (job_id now : String) → let s = start job_id now in Tracks s.inner.status s.jobs
unfolding start new_manager
start-Tracks job_id now = refl

running-refutes :
    (st : CatalogRefreshStatus) → st.state ≡ "running" → (st.state == "running") ≢ false
running-refutes st h idle = ground (arith, ==_iff st.state "running")

-- A status that is not running has no job under way.
Tracks-IsOver :
    (st : CatalogRefreshStatus) (ps : List JobPhase)
    → Tracks st ps
    → (st.state == "running") ≡ false
    → All IsOver ps
Tracks-IsOver st [] h idle = tt
Tracks-IsOver st (listing trigger ∷ ps) h idle = absurd (running-refutes st h.0.0 idle)
Tracks-IsOver st (refreshing trigger ∷ ps) h idle = absurd (running-refutes st h.0.0 idle)
Tracks-IsOver st (relisting trigger ∷ ps) h idle = absurd (running-refutes st h.0.0 idle)
Tracks-IsOver st (reading trigger done total x xs ∷ ps) h idle =
    absurd (running-refutes st h.0.0.0 idle)
Tracks-IsOver st (waiting trigger done total xs ∷ ps) h idle =
    absurd (running-refutes st h.0.0.0 idle)
Tracks-IsOver st (ended ∷ ps) h idle = (refl, h.1)

-- The gate leaves the status.
pub pass_gate-cases :
    (m : Inner) (trigger : RefreshTrigger) (user : Option String) (now : ℕ)
    → (pass_gate m trigger user now ≡ none)
      ⊎ ((gate : List (String × ℕ)) × (pass_gate m trigger user now
            ≡ some (record m { manual_gate = gate })))
unfolding pass_gate
pass_gate-cases m auto user now = inr (m.manual_gate, refl)
pass_gate-cases m manual none now = inr (m.manual_gate, refl)
pass_gate-cases m manual (some user) now =
    elim (Bool-cases (too_soon now (get user m.manual_gate))) [
      | inl soon ↦ inl (rw (soon, pass_gate) refl)
      | inr late ↦ inr (insert user now m.manual_gate, rw (late, pass_gate) refl)
    ]

trigger-Tracks :
    (base : String) (s : System) (trigger : RefreshTrigger) (user : Option String) (at : ℕ)
    (job_id now : String)
    → Tracks s.inner.status s.jobs
    → let next = step base s (triggers trigger user at job_id now) in
      Tracks next.inner.status next.jobs
unfolding step trigger_refresh
trigger-Tracks base s trigger user at job_id now h =
    elim (pass_gate-cases s.inner trigger user at) [
      | inl e ↦ rw (e, step, trigger_refresh) h
      | inr (gate, e) ↦ elim (Bool-cases (s.inner.status.state == "running")) [
        | inl busy ↦ rw (e, step, trigger_refresh) (rw busy h)
        | inr idle ↦
            rw (e, step, trigger_refresh)
              (rw idle ((refl, refl), Tracks-IsOver s.inner.status s.jobs h idle))
      ]
    ]

step-Tracks :
    (base : String) (s : System) (e : Event)
    → Tracks s.inner.status s.jobs
    → let next = step base s e in Tracks next.inner.status next.jobs
unfolding step refresh_piece list_piece read_piece answer_piece
step-Tracks base s (triggers trigger user at job_id now) h =
    trigger-Tracks base s trigger user at job_id now h
step-Tracks base s (lists i reply now) h =
    at_job-Tracks s i (list_piece s.inner reply now) (list_piece-Follows s.inner reply now) h
step-Tracks base s (refreshes i (replied r) now) h =
    at_job-Tracks s i (refresh_piece s.inner (replied r) now)
      (refresh_piece-Agrees s.inner (replied r) now, refl) h
step-Tracks base s (refreshes i (refused message) now) h =
    at_job-Tracks s i (refresh_piece s.inner (refused message) now)
      (refresh_piece-Agrees s.inner (refused message) now, refl) h
step-Tracks base s (reads i (replied row) keys at now) h =
    at_job-Tracks s i (read_piece base s.inner (replied row) keys at now)
      (read_piece-Agrees base s.inner (replied row) keys at now, refl) h
step-Tracks base s (reads i (refused message) keys at now) h =
    at_job-Tracks s i (read_piece base s.inner (refused message) keys at now)
      (read_piece-Agrees base s.inner (refused message) keys at now, refl) h
step-Tracks base s (answers i (replied r) now) h =
    at_job-Tracks s i (answer_piece s.inner (replied r) now)
      (answer_piece-Agrees s.inner (replied r) now, refl) h
step-Tracks base s (answers i (refused message) now) h =
    at_job-Tracks s i (answer_piece s.inner (refused message) now)
      (answer_piece-Agrees s.inner (refused message) now, refl) h

run-Tracks :
    (base : String) (s : System) (es : List Event)
    → Tracks s.inner.status s.jobs
    → let last = run base s es in Tracks last.inner.status last.jobs
unfolding run
run-Tracks base s [] h = h
run-Tracks base s (e ∷ es) h = run-Tracks base (step base s e) es (step-Tracks base s e h)

-- After any events every job but the latest is over; while the latest is under way the status is
-- running, names its trigger and shows its progress, with the targets done and those left adding up
-- to the total; and where it is over the status is an error, or a success with all targets done.
pub one_job_tracked :
    (base job_id now : String) (es : List Event)
    → let last = run base (start job_id now) es in Tracks last.inner.status last.jobs
one_job_tracked base job_id now es = run-Tracks base (start job_id now) es (start-Tracks job_id now)
