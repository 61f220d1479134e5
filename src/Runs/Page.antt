-- ===== src/Runs/Page.antt =====
-- What the notifications of an applied page say of one of its packages.
use catnap.Common.{
  ◌≤◌, String, Bool, true, false, not, ◌&&◌, ◌≡◌, refl, ◌∙◌, List, [], ◌∷◌, ◌++◌, Option, none,
  some, eq_string, if◌then◌else◌, get, contains, contains-append, contains_of_count-pos,
  count-pos_of_contains, count, keep, map, is_some, find, has_key, Unique, arith, Bool-cases, inl,
  inr,
}
use catnap.Listing.Store.{ConfigBase, ConfigRow, Store}
use catnap.Listing.Apply.{
  Fetched, is_nil, ApplyCatalogUrlResult, config_ids, upserted_row, announces, previous_ids,
  written, result_of,
}
use catnap.Listing.Rows.{id_of}
use catnap.Listing.Exact.{contains-listed, contains-delisted}
use catnap.Listing.Announced.{has_key-of_find, picked, written-row, find-of_has_key}
use catnap.Ops.Reasons.{ReasonCounts, should_emit_lifecycle_notify}
use catnap.Ops.State.{TaskKey, eq_task_key}
use catnap.Alerts.Lifecycle.{
  Readings, restock_notice, added_notice, removed_notice, notify_lifecycle_events,
}
use catnap.Alerts.Audience.{monitoring_partition_key, is_monitored, in_scope}
use catnap.Alerts.Panics.{is_out, notify-calm}
use catnap.Alerts.Told.{as_number, told, told-nil, has_row, told_exactly}
use catnap.Runs.{label_of_run, Setting, Surroundings, run_notices, tells_any}
use catnap.Alerts.Items.{readings_of, ids_of_result}
use catnap.Alerts.Items.Read.{get-records, get-items, records-keyed}

has_key-of_kept :
    {X : Type 0} (p : ConfigBase X → Bool) (id : String) (cs : List (ConfigBase X))
    → contains id (config_ids (keep p cs)) ≡ true
    → has_key id_of id cs ≡ true
has_key-of_kept p id [] h = ground (arith, h)
has_key-of_kept p id (c ∷ cs) h = ground (arith, h, has_key-of_kept p id cs)

contains-nil : (id : String) (xs : List String) → is_nil xs ≡ true → contains id xs ≡ false
contains-nil id [] h = refl
contains-nil id (x ∷ xs) h = ground (arith, h)

quantity-upserted :
    {X : Type 0} (at : String) (c : ConfigBase X) (old : Option (ConfigRow X))
    → (upserted_row at c old).quantity ≡ c.quantity
quantity-upserted at c none = refl
quantity-upserted at c (some old) = refl

module _ {X F Z : Type 0} (g : Setting X F Z) (same : (x : F) → g.formats.differ x x ≡ false)
    (s : Store X) (f : Fetched X) (u : Unique id_of f.configs) (label : Option String)
    (waiters : List String) where
  abbrev after : Store X
  after = written (previous_ids s f) s f

  abbrev result : ApplyCatalogUrlResult
  result = result_of (previous_ids s f) s f

  abbrev readings : Readings F Z
  readings = readings_of g.columns label waiters result after

  -- Every package that is listed with an event is read in stock.
  stocked :
      (id : String)
      → contains id result.listed_event_ids ≡ true
      → is_out (get id readings.item_by_id) ≡ false
  stocked id h =
      let test = announces (previous_ids s f) s.configs in
      let (c, found) = find-of_has_key id f.configs (has_key-of_kept test id f.configs h) in
      let one = (picked test id f.configs c u found).0 in
      let listed = count-pos_of_contains id result.listed_event_ids h in
      let row = written-row s f c id u found in
      let known =
        contains-append id result.listed_event_ids
          (result.listed_pending_zero_stock_ids ++ result.delisted_ids) in
      rw (get-items g.columns (ids_of_result result) after.configs id, known, h, row)
        (ground (arith, one, listed, quantity-upserted f.fetched_at c (get id s.configs)))

  calm :
      (fid : String) (gid : Option String)
      → (notify_lifecycle_events g.formats g.audience readings result fid gid).1 ≡ false
  calm = notify-calm g.formats same g.audience readings result stocked

  module _ (id : String) (c : ConfigBase X) (found : find id_of id f.configs ≡ some c) where
    abbrev pub announced : Bool
    announced = announces (previous_ids s f) s.configs c

    count-listed : count id result.listed_event_ids ≡ as_number announced
    count-listed = (picked (announces (previous_ids s f) s.configs) id f.configs c u found).0

    contains-announced : contains id result.listed_event_ids ≡ announced
    contains-announced = ground (
      arith,
      count-listed,
      contains_of_count-pos id result.listed_event_ids,
      count-pos_of_contains id result.listed_event_ids,
    )

    not_delisted : contains id result.delisted_ids ≡ false
    not_delisted =
        ground
          (arith, contains-delisted id (previous_ids s f) f, has_key-of_find id f.configs c found)

    count-delisted : count id result.delisted_ids ≤ 1
    count-delisted = ground (arith, not_delisted, contains_of_count-pos id result.delisted_ids)

    known_config : announced ≡ true → is_some (get id readings.config_by_id) ≡ true
    known_config h =
        let row = written-row s f c id u found in
        let listed = contains-announced ∙ h in
        rw
          (
            get-records g.columns (ids_of_result result) after.configs id,
            contains-append id result.listed_event_ids
                (result.listed_pending_zero_stock_ids ++ result.delisted_ids),
            listed,
            row,
          )
          refl

    known_item : announced ≡ true → is_some (get id readings.item_by_id) ≡ true
    known_item h =
        let row = written-row s f c id u found in
        let listed = contains-announced ∙ h in
        rw
          (
            get-items g.columns (ids_of_result result) after.configs id,
            contains-append id result.listed_event_ids
                (result.listed_pending_zero_stock_ids ++ result.delisted_ids),
            listed,
            row,
          )
          refl

    -- A waiting poller is told by the run of a package that is new on the page alone.
    abbrev pub may_tell : String → Bool
    may_tell user = if contains user waiters then not (contains id (previous_ids s f)) else true

    told-of_page :
        (user fid : String) (gid : Option String)
        → count user (map (λ row. row.0.user_id) g.audience.settings) ≤ 1
        → let notices = (notify_lifecycle_events g.formats g.audience readings result fid gid).0 in
          let monitors = is_monitored g.audience user id in
          let follows =
            has_row user (in_scope g.audience (monitoring_partition_key fid gid)) g.audience in
          (told restock_notice user id notices
            ≡ as_number
                (announced && has_row user (λ row. true) g.audience && monitors && may_tell user))
          × (told added_notice user id notices ≡ as_number (announced && follows && not monitors))
          × (told removed_notice user id notices ≡ 0)
    told-of_page user fid gid h =
        let all =
          told_exactly g.formats g.audience readings result user id fid gid (calm fid gid) h
            (records-keyed g.columns (ids_of_result result) after.configs)
            (ground (arith, count-listed)) count-delisted in
        let listed = contains-listed id (previous_ids s f) f in
        let has = has_key-of_find id f.configs c found in
        (
          ground (arith, all.0, listed, has, contains-announced, known_config, known_item),
          ground (arith, all.1, contains-announced, known_config),
          ground (arith, all.2, not_delisted),
        )

    pub notices-of_page :
        (sur : Surroundings X) (key : TaskKey) (user : String) (counts : ReasonCounts)
        → label_of_run sur key ≡ label
        → count user (map (λ row. row.0.user_id) g.audience.settings) ≤ 1
        → let done = run_notices g sur key (counts, waiters) after result in
          let monitors = is_monitored g.audience user id in
          let follows =
            has_row user
              (in_scope g.audience (monitoring_partition_key key.fid key.gid))
              g.audience in
          let tells = should_emit_lifecycle_notify counts && announced in
          (done.1 ≡ false)
          × (told restock_notice user id done.0
              ≡ as_number
                  (tells && has_row user (λ row. true) g.audience && monitors && may_tell user))
          × (told added_notice user id done.0 ≡ as_number (tells && follows && not monitors))
          × (told removed_notice user id done.0 ≡ 0)
    notices-of_page sur key user counts e h =
        let all = told-of_page user key.fid key.gid h in
        let empty = contains-nil id result.listed_event_ids in
        elim (Bool-cases (should_emit_lifecycle_notify counts && tells_any result)) [
          | inl tells ↦
              rw (tells, e)
                (
                  calm key.fid key.gid,
                  ground (arith, all.0, tells),
                  ground (arith, all.1, tells),
                  all.2,
                )
          | inr quiet ↦ rw quiet (
            refl,
            ground (arith, told-nil F Z restock_notice user id, quiet, empty, contains-announced),
            ground (arith, told-nil F Z added_notice user id, quiet, empty, contains-announced),
            told-nil F Z removed_notice user id,
          )
        ]
