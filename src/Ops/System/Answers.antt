-- ===== src/Ops/System/Answers.antt =====
-- What a run gives: an undisturbed run answers every caller, and a cached answer that a forced
-- caller has overtaken is followed by a fetch.
use catnap.Common.{
  ℕ, ◌≡◌, refl, String, Bool, true, List, [], ◌∷◌, ◌++◌, Option, none, some, arith, get,
  get-insert_self, get-remove_self, get_elem?, set, get_elem?-set_self, map, map_some, is_some,
}
use catnap.Ops.State.{TaskKey, eq_task_key, Sender, TaskEntry, WorkerRuntime}
use catnap.Ops.Worker.{
  row, start_task, remove_task_completion, complete_or_retry_cache_hit, finish_task, CacheRow,
  answers_from_cache,
}
use catnap.Ops.System.{
  fetch, Phase, polling, popped, running, cache_hit, fetching, sealed, Delivery, deliver, System,
  Event, pops, starts, looks, confirms, fetches, finishes, pop_phase, start_phase, look_phase,
  confirm_phase, fetch_phase, finish_phase, step, run,
}

-- A cached answer is not given once a forced caller has joined: the run is made again, and then it
-- fetches, whatever the cache holds.
forced_retry :
    (s : System) (i run_id now : ℕ) (key : TaskKey) (entry : TaskEntry) (cached : Option CacheRow)
    → get_elem? s.phases i ≡ some (cache_hit key run_id)
    → get key s.runtime.tasks ≡ some entry
    → entry.force_fetch ≡ true
    → let t = step s (confirms i) in
      (get_elem? t.phases i ≡ some (running key run_id))
      × (t.runtime ≡ s.runtime)
      × (get_elem? (step t (looks i now cached)).phases i ≡ some (fetching key run_id))
unfolding step confirm_phase look_phase complete_or_retry_cache_hit answers_from_cache
forced_retry s i run_id now key entry cached phase listed forced = grind (
  arith,
  get_elem?-set_self s.phases i (running key run_id) phase,
  get_elem?-set_self (set s.phases i (running key run_id)) i (fetching key run_id),
)

-- A worker in a phase, with the callers of the key, the queue and the answers given so far.
record Stage (s : System) (i : ℕ) (p : Phase) (key : TaskKey) (callers : Option (List Sender))
    (queue : List TaskKey) (sent : List Delivery) : Type 0 where
  phase : get_elem? s.phases i ≡ some p
  pending : s.runtime.pending ≡ queue
  listed : map_some (λ (entry : TaskEntry). entry.joiners) (get key s.runtime.tasks) ≡ callers
  answered : s.sent ≡ sent
  worker : is_some (get_elem? s.runtime.workers i) ≡ true

module _ (s : System) (i : ℕ) (key : TaskKey) (js : List Sender) (rest : List TaskKey)
    (d : List Delivery) where
  pops-Stage :
      Stage s i polling key (some js) (key ∷ rest) d
      → Stage (step s (pops i)) i (popped key) key (some js) rest d
  unfolding step pop_phase
  pops-Stage h = grind (
    arith,
    h.phase,
    h.pending,
    h.listed,
    h.worker,
    h.answered,
    get_elem?-set_self s.phases i (popped key) h.phase,
  )

  starts-Stage :
      (now : String) (run_id : ℕ)
      → Stage s i (popped key) key (some js) rest d
      → Stage (step s (starts i now (row run_id))) i (running key run_id) key (some js) rest d
  unfolding step start_phase start_task
  starts-Stage now run_id h = grind (
    arith,
    h.phase,
    h.pending,
    h.listed,
    h.worker,
    h.answered,
    get-insert_self,
    get_elem?-set_self,
    get_elem?-set_self s.phases i (running key run_id) h.phase,
  )

  looks-Stage :
      (run_id now : ℕ)
      → Stage s i (running key run_id) key (some js) rest d
      → Stage (step s (looks i now none)) i (fetching key run_id) key (some js) rest d
  unfolding step look_phase answers_from_cache
  looks-Stage run_id now h = grind (
    arith,
    h.phase,
    h.pending,
    h.listed,
    h.worker,
    h.answered,
    get_elem?-set_self s.phases i (fetching key run_id) h.phase,
  )

  fetches-Stage :
      (run_id : ℕ) (success : Bool)
      → Stage s i (fetching key run_id) key (some js) rest d
      → Stage (step s (fetches i success)) i (sealed run_id success fetch js) key none rest d
  unfolding step fetch_phase remove_task_completion
  fetches-Stage run_id success h = grind (
    arith,
    h.phase,
    h.pending,
    h.listed,
    h.worker,
    h.answered,
    get-remove_self,
    get_elem?-set_self s.phases i (sealed run_id success fetch js) h.phase,
  )

  finishes-Stage :
      (run_id : ℕ) (success : Bool)
      → Stage s i (sealed run_id success fetch js) key none rest d
      → Stage
          (step s (finishes i))
          i
          polling
          key
          none
          rest
          (d ++ map (deliver fetch) (map (λ j. (j, record { run_id = run_id; ok = success })) js))
  unfolding step finish_phase finish_task
  finishes-Stage run_id success h = grind (
    arith,
    h.phase,
    h.pending,
    h.listed,
    h.worker,
    h.answered,
    get_elem?-set_self,
    get_elem?-set_self s.phases i polling h.phase,
  )

-- The events of one undisturbed run, from the queue to the answers, with no cached row.
abbrev pub one_run : ℕ → String → ℕ → ℕ → Bool → List Event
one_run i now run_id time success =
    pops i ∷ starts i now (row run_id) ∷ looks i time none ∷ fetches i success ∷ finishes i ∷ []

served-Stage :
    (s : System) (i : ℕ) (key : TaskKey) (js : List Sender) (rest : List TaskKey)
    (d : List Delivery) (now : String) (run_id time : ℕ) (success : Bool)
    → Stage s i polling key (some js) (key ∷ rest) d
    → Stage
        (run s (one_run i now run_id time success))
        i
        polling
        key
        none
        rest
        (d ++ map (deliver fetch) (map (λ j. (j, record { run_id = run_id; ok = success })) js))
unfolding run
served-Stage s i key js rest d now run_id time success h =
    let a = step s (pops i) in
    let b = step a (starts i now (row run_id)) in
    let c = step b (looks i time none) in
    let f = step c (fetches i success) in
    finishes-Stage f i key js rest d run_id success (
      fetches-Stage c i key js rest d run_id success (
        looks-Stage b i key js rest d run_id time
          (starts-Stage a i key js rest d now run_id (pops-Stage s i key js rest d h))))

-- The key at the head of the queue is served by a free worker: one run answers every caller that
-- has joined its task, with the run's id and its success, removes the task, and frees the worker.
pub one_run_answers_all :
    (s : System) (i : ℕ) (key : TaskKey) (rest : List TaskKey) (entry : TaskEntry)
    (w : WorkerRuntime) (now : String) (run_id time : ℕ) (success : Bool)
    → get_elem? s.phases i ≡ some polling
    → get_elem? s.runtime.workers i ≡ some w
    → s.runtime.pending ≡ key ∷ rest
    → get key s.runtime.tasks ≡ some entry
    → let t = run s (one_run i now run_id time success) in
      (t.sent
        ≡ s.sent
          ++ map
              (deliver fetch)
              (map (λ j. (j, record { run_id = run_id; ok = success })) entry.joiners))
      × (get_elem? t.phases i ≡ some polling)
      × (t.runtime.pending ≡ rest)
      × (map_some (λ (entry : TaskEntry). entry.joiners) (get key t.runtime.tasks) ≡ none)
one_run_answers_all s i key rest entry w now run_id time success phase worker queue listed =
    let end = served-Stage s i key entry.joiners rest s.sent now run_id time success (record {
      phase = phase;
      pending = queue;
      listed = rw listed;
      answered = refl;
      worker = rw worker;
    }) in
    (end.answered, end.phase, end.pending, end.listed)
