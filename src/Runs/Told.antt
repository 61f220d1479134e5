-- ===== src/Runs/Told.antt =====
-- What a run that fetches its page tells a user of a package of the page.
use catnap.Common.{
  ◌≤◌, String, true, false, not, ◌&&◌, ◌≡◌, refl, [], none, some, eq_string, if◌then◌else◌, get,
  contains, count, map, map_some, is_some, Option-cases, inl, inr, find, has_key, Unique,
}
use catnap.Catalog.{catalog_region_key}
use catnap.Listing.Store.{ConfigBase}
use catnap.Listing.Apply.{announces, previous_ids, written, result_of}
use catnap.Listing.Rows.{id_of}
use catnap.Listing.Announced.{has_key-of_find, applied}
use catnap.Ops.Reasons.{should_emit_lifecycle_notify}
use catnap.Ops.State.{TaskKey, RuntimeState, eq_task_key}
use catnap.Ops.Worker.{answers_from_cache}
use catnap.Alerts.Lifecycle.{restock_notice, added_notice, removed_notice}
use catnap.Alerts.Audience.{monitoring_partition_key, is_monitored, in_scope}
use catnap.Alerts.Told.{as_number, told, told-nil, has_row}
use catnap.Runs.{
  label_of_run, Setting, Surroundings, RegionFetchDetailed, answered, World, page_of, cache_row,
  run_notices, initial_state, current_lifecycle_notify_state, run_task,
}
use catnap.Runs.Page.{notices-of_page}

notices-of_run :
    {X F Z : Type 0} (g : Setting X F Z) (sur : Surroundings X) (started later : RuntimeState)
    (key : TaskKey) (w : World X) (d : RegionFetchDetailed X) (id : String)
    → sur.failed_statement ≡ none
    → sur.upstream ≡ answered d
    → answers_from_cache started key sur.now
        (map_some (cache_row sur) (get (catalog_region_key key.fid key.gid) w.store.url_cache))
      ≡ false
    → has_key id_of id d.configs ≡ true
    → let f = page_of sur key d in
      (run_task g sur started later key w).notices
      ≡ run_notices g sur key
          (current_lifecycle_notify_state later key (initial_state (get key started.tasks)))
          (written (previous_ids w.store f) w.store f)
          (result_of (previous_ids w.store f) w.store f)
unfolding run_task
notices-of_run g sur started later key w d id fine h k has =
    rw (k, h, fine, applied w.store (page_of sur key d) id has) refl

undone-quiet :
    {X F Z : Type 0} (g : Setting X F Z) (sur : Surroundings X) (started later : RuntimeState)
    (key : TaskKey) (w : World X) (d : RegionFetchDetailed X) (err : String)
    → sur.failed_statement ≡ some err
    → sur.upstream ≡ answered d
    → answers_from_cache started key sur.now
        (map_some (cache_row sur) (get (catalog_region_key key.fid key.gid) w.store.url_cache))
      ≡ false
    → (run_task g sur started later key w).notices ≡ ([], false)
unfolding run_task
undone-quiet g sur started later key w d err f h k = rw (k, h, f) refl

-- Of a run that fetches a page whose packages are distinct, where a price does not differ from itself
-- and the user has settings at most once: it does not panic, and of a package of the page it tells the
-- user of nothing where the run has no reason to notify, a statement of the
-- transaction fails or the package is not announced as listed.
-- Else it tells of the restock once if the user has settings and monitors the package and, where they
-- wait for the run as a poller, the page did not have it before; it tells of the added package once
-- if they follow the partition and do not monitor it; and never of a removed one.
pub run_tells :
    {X F Z : Type 0} (g : Setting X F Z) (sur : Surroundings X) (started later : RuntimeState)
    (key : TaskKey) (w : World X) (d : RegionFetchDetailed X) (c : ConfigBase X) (user : String)
    → ((x : F) → g.formats.differ x x ≡ false)
    → sur.upstream ≡ answered d
    → answers_from_cache started key sur.now
        (map_some (cache_row sur) (get (catalog_region_key key.fid key.gid) w.store.url_cache))
      ≡ false
    → Unique id_of d.configs
    → find id_of c.id d.configs ≡ some c
    → count user (map (λ row. row.0.user_id) g.audience.settings) ≤ 1
    → let notices = (run_task g sur started later key w).notices in
      let state =
        current_lifecycle_notify_state later key (initial_state (get key started.tasks)) in
      let before = previous_ids w.store (page_of sur key d) in
      let tells =
        not (is_some sur.failed_statement)
        && should_emit_lifecycle_notify state.0
        && announces before w.store.configs c in
      let monitors = is_monitored g.audience user c.id in
      let follows =
        has_row user (in_scope g.audience (monitoring_partition_key key.fid key.gid)) g.audience in
      let may_tell = if contains user state.1 then not (contains c.id before) else true in
      (notices.1 ≡ false)
      × (told restock_notice user c.id notices.0
          ≡ as_number (tells && has_row user (λ row. true) g.audience && monitors && may_tell))
      × (told added_notice user c.id notices.0 ≡ as_number (tells && follows && not monitors))
      × (told removed_notice user c.id notices.0 ≡ 0)
run_tells {F = F} {Z = Z} g sur started later key w d c user same h k u found rows =
    let state = current_lifecycle_notify_state later key (initial_state (get key started.tasks)) in
    let f = page_of sur key d in
    elim (Option-cases sur.failed_statement) [
      | inl fine ↦
          rw
            (notices-of_run g sur started later key w d c.id fine h k
              (has_key-of_find c.id d.configs c found))
            (rw fine (
              notices-of_page g same w.store f u (label_of_run sur key) state.1 c.id c found sur key
                user state.0 refl rows))
      | inr (err, undone) ↦ rw (undone-quiet g sur started later key w d err undone h k) (
          rw undone (
            refl,
            told-nil F Z restock_notice user c.id,
            told-nil F Z added_notice user c.id,
            told-nil F Z removed_notice user c.id,
          ))
    ]
