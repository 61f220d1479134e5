-- ===== src/Refresh/Complete.antt =====
-- A full refresh whose calls succeed asks for every target and succeeds.
use catnap.Common.{
  ℕ, suc, ◌+◌, max, String, true, false, not, ◌&&◌, ◌≡◌, refl, ◌∙◌, ap, List, [], ◌∷◌, ◌++◌,
  append_assoc, append-nil, map, Option, none, arith, contains, length, eq_string, ==_iff, ◌↔◌, ◌≢◌,
  Bool-cases, inl, inr,
}
use catnap.Topology.Targets.{Target, target_key}
use catnap.Refresh.Manager.{RefreshTrigger, Inner, finish_success, update_progress}
use catnap.Refresh.Job.{
  Request, JobPhase, listing, reading, ended, replied, refresh_reason, list_piece, read_piece,
  answer_piece, next_target, plan_target, is_cache_hit, should_bypass_notice_cache_for_key,
}
use catnap.Refresh.System.{System, Event, lists, reads, answers, step, run}

-- A target's turn: its cache row, the keys whose notices were read, and the times.
pub record Turn : Type 0 where
  pub target : Target
  pub row : Option (Option ℕ)
  pub initialized_keys : List String
  pub at : ℕ
  pub read_at : String
  pub answered_at : String

-- The queue answers each request of the latest job.
abbrev pub turn_events : List Turn → List Event
turn_events [] = []
turn_events (t ∷ ts) =
    reads 0 (replied t.row) t.initialized_keys t.at t.read_at
    ∷ answers 0 (replied tt) t.answered_at
    ∷ turn_events ts

abbrev pub targets : List Turn → List Target
targets [] = []
targets (t ∷ ts) = t.target ∷ targets ts

-- The request for a target: forced where a fresh row is cached of a page whose notices were never
-- read.
abbrev pub request_of : RefreshTrigger → Turn → Request
request_of trigger t = record {
  target = t.target;
  reason = refresh_reason trigger;
  force_fetch = is_cache_hit t.at t.row && not (contains (target_key t.target) t.initialized_keys);
}

false-ne-true : false ≢ true
false-ne-true h = cc

fetch-ne-cache : ◌≢◌ {A = String} "fetch" "cache"
fetch-ne-cache h = false-ne-true ((==_iff "fetch" "cache").1 h)

-- A target's action: the cache is named exactly where its row is fresh and its notices were read.
plan_exact :
    (now : ℕ) (row : Option (Option ℕ)) (url_key : String) (initialized_keys : List String)
    → let plan = plan_target now row url_key initialized_keys in
      (plan.force_fetch ≡ (is_cache_hit now row && not (contains url_key initialized_keys)))
      × ((plan.action ≡ "cache")
          ↔ ((is_cache_hit now row ≡ true) × (contains url_key initialized_keys ≡ true)))
unfolding plan_target should_bypass_notice_cache_for_key
plan_exact now row url_key keys = elim (Bool-cases (is_cache_hit now row)) [
  | inl hit ↦ elim (Bool-cases (contains url_key keys)) [
    | inl known ↦ rw (hit, plan_target) (rw known (refl, ((λ h. (refl, refl)), (λ h. refl))))
    | inr unknown ↦
        rw (hit, plan_target)
          (rw unknown (refl, ((λ h. absurd (fetch-ne-cache h)), (λ h. absurd (false-ne-true h.1)))))
  ]
  | inr miss ↦
      rw (miss, plan_target)
        (refl, ((λ h. absurd (fetch-ne-cache h)), (λ h. absurd (false-ne-true h.0))))
]

length-targets : (ts : List Turn) → length (targets ts) ≡ length ts
length-targets [] = refl
length-targets (t ∷ ts) = ap suc (length-targets ts)

abbrev pub Finished : System → ℕ → ℕ → List JobPhase → List Request → Type 0
Finished s done total older requests =
    (s.inner.status.state ≡ "success")
    × (s.inner.status.done ≡ done)
    × (s.inner.status.total ≡ total)
    × (s.jobs ≡ ended ∷ older)
    × (s.requests ≡ requests)

requests-step :
    (asked : List Request) (r q : Request) (rest : List Request)
    → r ≡ q
    → ((asked ++ []) ++ r ∷ []) ++ rest ≡ asked ++ q ∷ rest
requests-step asked r q rest h =
    ap (λ xs. (xs ++ r ∷ []) ++ rest) (append-nil asked)
    ∙ append_assoc asked (r ∷ []) rest
    ∙ ap (λ x. asked ++ x ∷ rest) h

turns-Finished :
    (base : String) (m : Inner) (trigger : RefreshTrigger) (done total : ℕ) (ts : List Turn)
    (now : String) (older : List JobPhase) (asked : List Request)
    → m.status.done ≡ done
    → m.status.total ≡ total
    → let next = next_target m trigger done total (targets ts) now in
      Finished
        (run base
          (record { inner = next.inner; jobs = next.phase ∷ older; requests = asked ++ next.asked })
          (turn_events ts))
        (done + length ts)
        total
        older
        (asked ++ map (request_of trigger) ts)
unfolding run step read_piece answer_piece finish_success update_progress
turns-Finished base m trigger done total [] now older asked d t =
    (refl, omega (arith, d), t, refl, refl)
turns-Finished base m trigger done total (x ∷ xs) now older asked d t =
    let plan = plan_target x.at x.row (target_key x.target) x.initialized_keys in
    let sent : Request = record {
      target = x.target;
      reason = refresh_reason trigger;
      force_fetch = plan.force_fetch;
    } in
    let current =
      (read_piece base m (replied x.row) x.initialized_keys x.at x.read_at
        (reading trigger done total x.target (targets xs))).inner in
    let rest =
      turns-Finished base (update_progress current (done + 1) total none x.answered_at) trigger
        (done + 1) total xs x.answered_at older ((asked ++ []) ++ sent ∷ []) refl refl in
    (
      rest.0,
      rest.1 ∙ omega arith,
      rest.2,
      rest.3,
      rest.4
          ∙ requests-step asked sent (request_of trigger x) (map (request_of trigger) xs) (
              ap
                (λ f. record {
                  target = x.target;
                  reason = refresh_reason trigger;
                  force_fetch = f;
                })
                (plan_exact x.at x.row (target_key x.target) x.initialized_keys).0),
    )

-- A job that is spawned, lists some targets and has every call answered without an error asks the
-- queue for each target once, in their order, with a forced fetch exactly where a fresh row is
-- cached of a page whose notices were never read; then it ends in success, with all targets done.
pub full_refresh_completes :
    (base : String) (m : Inner) (trigger : RefreshTrigger) (older : List JobPhase)
    (asked : List Request) (t : Turn) (ts : List Turn) (now : String)
    → Finished
        (run base
          (record { inner = m; jobs = listing trigger ∷ older; requests = asked })
          (lists 0 (replied (targets (t ∷ ts))) now ∷ turn_events (t ∷ ts)))
        (length (t ∷ ts))
        (length (t ∷ ts))
        older
        (asked ++ map (request_of trigger) (t ∷ ts))
unfolding run step list_piece update_progress
full_refresh_completes base m trigger older asked t ts now =
    let count = max (length (targets (t ∷ ts))) 1 in
    let done =
      turns-Finished base (update_progress m 0 count none now) trigger 0 count (t ∷ ts) now older
        asked refl refl in
    (done.0, done.1 ∙ omega arith, done.2 ∙ omega (arith, length-targets ts), done.3, done.4)
