-- ===== src/Refresh/Pieces.antt =====
-- What each piece of a refresh job keeps of what the status says of the job.
use catnap.Common.{
  ℕ, suc, ◌+◌, max, String, ◌≡◌, refl, List, [], ◌∷◌, Option, none, arith, eq_string, All, ◌⊎◌,
  length, inl, inr,
}
use catnap.Topology.Targets.{Target}
use catnap.Refresh.Manager.{
  RefreshTrigger, as_str, CatalogRefreshStatus, Inner, finish_error, finish_success,
  update_progress,
}
use catnap.Refresh.Job.{
  JobPhase, listing, refreshing, relisting, reading, waiting, ended, Reply, replied, refused, Moved,
  list_piece, refresh_piece, read_piece, answer_piece, next_target, loop_over,
}

-- The status of a job that is under way.
abbrev pub Runs : CatalogRefreshStatus → RefreshTrigger → Type 0
Runs st trigger = (st.state ≡ "running") × (st.trigger ≡ as_str trigger)

-- What the status says of a job: its trigger and its progress, and that all targets are done where
-- it succeeded.
abbrev pub Agrees : CatalogRefreshStatus → JobPhase → Type 0
Agrees st (listing trigger) = Runs st trigger
Agrees st (refreshing trigger) = Runs st trigger
Agrees st (relisting trigger) = Runs st trigger
Agrees st (reading trigger done total t ts) =
    Runs st trigger × (st.done ≡ done) × (st.total ≡ total) × (done + suc (length ts) ≡ total)
Agrees st (waiting trigger done total ts) =
    Runs st trigger × (st.done ≡ done) × (st.total ≡ total) × (done + suc (length ts) ≡ total)
Agrees st ended = ((st.state ≡ "error") ⊎ ((st.state ≡ "success") × (st.total ≡ max st.done 1)))

abbrev pub IsOver : JobPhase → Type 0
IsOver p = p ≡ ended

-- Only the latest job may be under way, and the status is its.
abbrev pub Tracks : CatalogRefreshStatus → List JobPhase → Type 0
Tracks st [] = st.state ≡ "idle"
Tracks st (p ∷ ps) = Agrees st p × All IsOver ps

-- What a piece of a job keeps.
abbrev pub Follows : Inner → (JobPhase → Moved) → Type 0
Follows m piece =
    ((p : JobPhase) → Agrees m.status p → Agrees (piece p).inner.status (piece p).phase)
    × (piece ended ≡ record { inner = m; phase = ended; asked = [] })

next_target-Agrees :
    (m : Inner) (trigger : RefreshTrigger) (done total : ℕ) (ts : List Target) (now : String)
    → Runs m.status trigger
    → m.status.done ≡ done
    → m.status.total ≡ total
    → total ≡ max (done + length ts) 1
    → let next = next_target m trigger done total ts now in Agrees next.inner.status next.phase
unfolding finish_success
next_target-Agrees m trigger done total [] now r d t e = inr (refl, omega (arith, d, t, e))
next_target-Agrees m trigger done total (x ∷ xs) now r d t e = (r, d, t, omega (arith, e))

loop_over-Agrees :
    (m : Inner) (trigger : RefreshTrigger) (ts : List Target) (now : String)
    → Runs m.status trigger
    → let next = loop_over m trigger ts now in Agrees next.inner.status next.phase
unfolding update_progress
loop_over-Agrees m trigger ts now r =
    next_target-Agrees (update_progress m 0 (max (length ts) 1) none now) trigger 0
      (max (length ts) 1) ts now r refl refl (omega arith)

list_piece-Agrees :
    (m : Inner) (reply : Reply (List Target)) (now : String) (p : JobPhase)
    → Agrees m.status p
    → let next = list_piece m reply now p in Agrees next.inner.status next.phase
unfolding list_piece finish_error
list_piece-Agrees m (replied []) now (listing trigger) h = h
list_piece-Agrees m (replied (t ∷ ts)) now (listing trigger) h =
    loop_over-Agrees m trigger (t ∷ ts) now h
list_piece-Agrees m (replied ts) now (relisting trigger) h = loop_over-Agrees m trigger ts now h
list_piece-Agrees m (replied ts) now (refreshing trigger) h = h
list_piece-Agrees m (replied ts) now (reading trigger done total x xs) h = h
list_piece-Agrees m (replied ts) now (waiting trigger done total xs) h = h
list_piece-Agrees m (replied ts) now ended h = h
list_piece-Agrees m (refused message) now (listing trigger) h = inl refl
list_piece-Agrees m (refused message) now (relisting trigger) h = inl refl
list_piece-Agrees m (refused message) now (refreshing trigger) h = h
list_piece-Agrees m (refused message) now (reading trigger done total x xs) h = h
list_piece-Agrees m (refused message) now (waiting trigger done total xs) h = h
list_piece-Agrees m (refused message) now ended h = h

pub list_piece-Follows :
    (m : Inner) (reply : Reply (List Target)) (now : String) → Follows m (list_piece m reply now)
unfolding list_piece
list_piece-Follows m (replied ts) now = (list_piece-Agrees m (replied ts) now, refl)
list_piece-Follows m (refused message) now = (list_piece-Agrees m (refused message) now, refl)

pub refresh_piece-Agrees :
    (m : Inner) (reply : Reply (Unit {0})) (now : String) (p : JobPhase)
    → Agrees m.status p
    → let next = refresh_piece m reply now p in Agrees next.inner.status next.phase
unfolding refresh_piece finish_error
refresh_piece-Agrees m (replied u) now (refreshing trigger) h = h
refresh_piece-Agrees m (refused message) now (refreshing trigger) h = inl refl
refresh_piece-Agrees m (replied r) now (listing trigger) h = h
refresh_piece-Agrees m (refused message) now (listing trigger) h = h
refresh_piece-Agrees m (replied r) now (relisting trigger) h = h
refresh_piece-Agrees m (refused message) now (relisting trigger) h = h
refresh_piece-Agrees m (replied r) now (reading trigger done total x xs) h = h
refresh_piece-Agrees m (refused message) now (reading trigger done total x xs) h = h
refresh_piece-Agrees m (replied r) now (waiting trigger done total xs) h = h
refresh_piece-Agrees m (refused message) now (waiting trigger done total xs) h = h
refresh_piece-Agrees m (replied r) now ended h = h
refresh_piece-Agrees m (refused message) now ended h = h

pub read_piece-Agrees :
    (base : String) (m : Inner) (reply : Reply (Option (Option ℕ))) (keys : List String) (at : ℕ)
    (now : String) (p : JobPhase)
    → Agrees m.status p
    → let next = read_piece base m reply keys at now p in Agrees next.inner.status next.phase
unfolding read_piece update_progress finish_error
read_piece-Agrees base m (replied row) keys at now (reading trigger done total x xs) h =
    (h.0, refl, refl, h.3)
read_piece-Agrees base m (refused message) keys at now (reading trigger done total x xs) h =
    inl refl
read_piece-Agrees base m (replied r) keys at now (listing trigger) h = h
read_piece-Agrees base m (refused message) keys at now (listing trigger) h = h
read_piece-Agrees base m (replied r) keys at now (refreshing trigger) h = h
read_piece-Agrees base m (refused message) keys at now (refreshing trigger) h = h
read_piece-Agrees base m (replied r) keys at now (relisting trigger) h = h
read_piece-Agrees base m (refused message) keys at now (relisting trigger) h = h
read_piece-Agrees base m (replied r) keys at now (waiting trigger done total xs) h = h
read_piece-Agrees base m (refused message) keys at now (waiting trigger done total xs) h = h
read_piece-Agrees base m (replied r) keys at now ended h = h
read_piece-Agrees base m (refused message) keys at now ended h = h

pub answer_piece-Agrees :
    (m : Inner) (reply : Reply (Unit {0})) (now : String) (p : JobPhase)
    → Agrees m.status p
    → let next = answer_piece m reply now p in Agrees next.inner.status next.phase
unfolding answer_piece update_progress finish_error
answer_piece-Agrees m (replied u) now (waiting trigger done total xs) h =
    next_target-Agrees (update_progress m (done + 1) total none now) trigger (done + 1) total xs now
      h.0 refl refl (omega (arith, h.3))
answer_piece-Agrees m (refused message) now (waiting trigger done total xs) h = inl refl
answer_piece-Agrees m (replied r) now (listing trigger) h = h
answer_piece-Agrees m (refused message) now (listing trigger) h = h
answer_piece-Agrees m (replied r) now (refreshing trigger) h = h
answer_piece-Agrees m (refused message) now (refreshing trigger) h = h
answer_piece-Agrees m (replied r) now (relisting trigger) h = h
answer_piece-Agrees m (refused message) now (relisting trigger) h = h
answer_piece-Agrees m (replied r) now (reading trigger done total x xs) h = h
answer_piece-Agrees m (refused message) now (reading trigger done total x xs) h = h
answer_piece-Agrees m (replied r) now ended h = h
answer_piece-Agrees m (refused message) now ended h = h
