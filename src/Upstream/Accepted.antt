-- ===== src/Upstream/Accepted.antt =====
-- What the fetch of a page may give to the run of a task.
use catnap.Common.{
  ℕ, String, Bool, true, false, not, ◌&&◌, ◌≡◌, refl, List, Option, none, some, ◌==◌, eq_string,
  eq_option, if◌then◌else◌, is_some, get, map_some, arith, Bool-cases, inl, inr,
}
use catnap.Catalog.{catalog_region_key}
use catnap.Listing.Store.{ConfigBase, Store, UrlCache}
use catnap.Listing.Apply.{is_nil, Fetched, ApplyCatalogUrlResult, apply_catalog_url_fetch_success}
use catnap.Ops.Reasons.{ReasonCounts, task_freshness_window_seconds}
use catnap.Ops.State.{TaskKey, RuntimeState, eq_task_key}
use catnap.Ops.Worker.{answers_from_cache}
use catnap.Runs.{
  RegionFetchDetailed, Upstream, answered, failed, Setting, Surroundings, World, TaskResult,
  task_ok, task_err, page_of, cache_row, initial_state, current_lifecycle_notify_state,
  task_applied, unless_failed, task_fetched, task_answered, run_task,
}
use catnap.Upstream.{
  Site, Answer, response, no_response, Response, Fallible, value, error, is_success, configs_of,
  page_checked, page_read, page_url, fetch_region_configs_detailed,
}

-- No packages, and no proof that there are none.
abbrev pub proves_nothing : {X : Type 0} → Upstream X → Bool
proves_nothing (failed message) = false
proves_nothing (answered d) = is_nil d.configs && not d.empty_result_authoritative

page_checked-proves :
    {X : Type 0} (site : Site X) (url : String) (r : Response X)
    (o : Fallible (List (ConfigBase X) × Bool))
    → proves_nothing (page_checked site url r o) ≡ false
page_checked-proves site url r (error message) = refl
page_checked-proves site url r (value (configs, authoritative)) =
    elim (Bool-cases (is_nil configs && not authoritative)) [
      | inl empty ↦ rw empty refl
      | inr fine ↦ rw fine fine
    ]

page_read-proves :
    {X : Type 0} (site : Site X) (fid : String) (gid : Option String) (url : String) (a : Answer X)
    → proves_nothing (page_read site fid gid url a) ≡ false
page_read-proves site fid gid url (no_response message) = refl
page_read-proves site fid gid url (response r) = elim (Bool-cases (is_success r.http_status)) [
  | inl ok ↦ rw ok (page_checked-proves site url r (configs_of site fid gid r.parsed))
  | inr bad ↦ rw bad refl
]

fetch-proves :
    {X : Type 0} (site : Site X) (fid : String) (gid : Option String)
    → proves_nothing (fetch_region_configs_detailed site fid gid) ≡ false
unfolding fetch_region_configs_detailed
fetch-proves site fid gid =
    let url = page_url site.cart_url fid gid in
    page_read-proves site fid gid url (site.get_page url)

-- Whether a run ended with the error that its page could not be applied.
abbrev pub is_unapplied : TaskResult → Bool
is_unapplied (task_ok ok) = false
is_unapplied (task_err err) = err.code == "apply_failed"

abbrev pub is_answered : {X : Type 0} → Upstream X → Bool
is_answered (answered d) = true
is_answered (failed message) = false

accepted :
    {X : Type 0} (s : Store X) (f : Fetched X)
    → (is_nil f.configs && not f.empty_result_authoritative) ≡ false
    → is_some (apply_catalog_url_fetch_success s f) ≡ true
unfolding apply_catalog_url_fetch_success
accepted s f h = ground (arith, h)

module _ {X F Z : Type 0} (g : Setting X F Z) (sur : Surroundings X) (key : TaskKey)
    (notify : ReasonCounts × List String) (window : Option ℕ) (w : World X) where
  applied-unapplied :
      (d : RegionFetchDetailed X) (failure : Option String)
      (o : Option (Store X × ApplyCatalogUrlResult))
      → is_some o ≡ true
      → is_unapplied (task_applied g sur key notify window w d (unless_failed failure o)).result
        ≡ is_some failure
  applied-unapplied d (some err) o h = refl
  applied-unapplied d none none h = ground (arith, h)
  applied-unapplied d none (some (s, r)) h = refl

  fetched-unapplied :
      (u : Upstream X)
      → proves_nothing u ≡ false
      → is_unapplied (task_fetched g sur key notify window w u).result
        ≡ (is_answered u && is_some sur.failed_statement)
  fetched-unapplied (failed message) h = refl
  fetched-unapplied (answered d) h =
      applied-unapplied d sur.failed_statement
        (apply_catalog_url_fetch_success w.store (page_of sur key d))
        (accepted w.store (page_of sur key d) h)

  answered-unapplied :
      (served : Option UrlCache)
      → proves_nothing sur.upstream ≡ false
      → is_unapplied (task_answered g sur key notify window w served).result
        ≡ (not (is_some served) && is_answered sur.upstream && is_some sur.failed_statement)
  answered-unapplied none h = fetched-unapplied sur.upstream h
  answered-unapplied (some cached) h = refl

-- A run whose page comes from `fetch_region_configs_detailed` ends with the code apply_failed exactly
-- where it is not answered from the cache, the fetch gives a page and a statement of the transaction
-- fails: the page itself is never refused.
pub never_refused :
    {X F Z : Type 0} (g : Setting X F Z) (sur : Surroundings X) (started later : RuntimeState)
    (key : TaskKey) (w : World X) (site : Site X)
    → sur.upstream ≡ fetch_region_configs_detailed site key.fid key.gid
    → let cached = get (catalog_region_key key.fid key.gid) w.store.url_cache in
      let served =
        if answers_from_cache started key sur.now (map_some (cache_row sur) cached)
        then cached
        else none in
      is_unapplied (run_task g sur started later key w).result
      ≡ (not (is_some served) && is_answered sur.upstream && is_some sur.failed_statement)
unfolding run_task
never_refused g sur started later key w site h =
    let initial = initial_state (get key started.tasks) in
    let cached = get (catalog_region_key key.fid key.gid) w.store.url_cache in
    answered-unapplied g sur key (current_lifecycle_notify_state later key initial)
      (task_freshness_window_seconds initial.0) w
      (if answers_from_cache started key sur.now (map_some (cache_row sur) cached)
        then cached
        else none)
      (rw h (fetch-proves site key.fid key.gid))
