-- ===== src/Alerts/Told/Exactly.antt =====
-- Whom a run tells of a package that it listed or delisted, and how often.
use catnap.Common.{
  ℕ, ◌+◌, ◌≤◌, String, Bool, true, false, not, ◌&&◌, ◌≡◌, ap, List, ◌++◌, Option, some, ◌==◌,
  ==_iff, eq_string, eq_pair, if◌then◌else◌, is_some, map, any, count, contains, contains-keep, get,
  arith, Bool-cases, inl, inr,
}
use catnap.Listing.Apply.{ApplyCatalogUrlResult}
use catnap.Alerts.Texts.{Formats}
use catnap.Alerts.Records.{NotificationDeliveryTarget}
use catnap.Alerts.Lifecycle.{
  ConfigLifecycleRecord, NoticeKind, restock_notice, added_notice, removed_notice, Readings,
  records_of, is_allowed, deliver_monitored_restock_fallbacks, added_notices, removed_notices,
  scope_notices, monitored_notices, each_target, notify_lifecycle_events,
}
use catnap.Alerts.Audience.{
  Audience, monitoring_partition_key, is_monitored, in_scope, scope_targets,
  load_monitored_delivery_targets, load_enabled_monitoring_ids,
}
use catnap.Alerts.Told.Counts.{
  same_kind, as_number, when, told, told-append, told-then, told-each_target, scaled-count,
  occurrences, told-fallbacks, told-added, told-removed,
}
use catnap.Alerts.Told.Rows.{
  has_row, contains-rows, has_row-weaker, has_row-monitors, count-rows, occurrences-once,
}

module _ {F Z : Type 0} (f : Formats F) (a : Audience) (r : Readings F Z)
    (applied : ApplyCatalogUrlResult) (user id : String) where
  -- Whether a restock of the package is one to tell the user of.
  abbrev pub awaits : Bool
  awaits =
      is_monitored a user id
      && contains id applied.listed_event_ids
      && is_allowed r applied user id
      && is_some (get id r.item_by_id)

  abbrev listed : ℕ
  listed = occurrences id (records_of r.config_by_id applied.listed_event_ids)

  abbrev delisted : ℕ
  delisted = occurrences id (records_of r.config_by_id applied.delisted_ids)

  abbrev of_scope : NoticeKind → ℕ
  of_scope kind =
      when (same_kind restock_notice kind && awaits) listed
      + (when
            (same_kind added_notice kind
              && not (is_monitored a user id && contains id applied.listed_event_ids))
            listed
          + when (same_kind removed_notice kind) delisted)

  same_monitored : (u : String) → (u == user) ≡ true → is_monitored a u id ≡ is_monitored a user id
  same_monitored u e = ap (λ x. is_monitored a x id) ((==_iff u user).0 e)

  same_allowed :
      (u : String) → (u == user) ≡ true → is_allowed r applied u id ≡ is_allowed r applied user id
  same_allowed u e = ap (λ x. is_allowed r applied x id) ((==_iff u user).0 e)

  told-scope_notices :
      (kind : NoticeKind) (t : NotificationDeliveryTarget)
      → (scope_notices f a r applied t).1 ≡ false
      → told kind user id (scope_notices f a r applied t).0
        ≡ when (t.user_id == user) (of_scope kind)
  told-scope_notices kind t h =
      let monitored_ids = load_enabled_monitoring_ids a t.user_id applied.listed_event_ids in
      let cs = records_of r.config_by_id applied.listed_event_ids in
      let both =
        told-then kind user id (deliver_monitored_restock_fallbacks f r applied t monitored_ids cs)
          (
            added_notices f r t monitored_ids cs
                ++ removed_notices f r t (records_of r.config_by_id applied.delisted_ids),
            false,
          )
          h in
      ground (
        arith,
        both.2,
        same_monitored t.user_id,
        same_allowed t.user_id,
        contains-keep id (is_monitored a t.user_id) applied.listed_event_ids,
        told-fallbacks f r applied t monitored_ids kind user id cs both.0,
        told-append kind user id (added_notices f r t monitored_ids cs)
            (removed_notices f r t (records_of r.config_by_id applied.delisted_ids)),
        told-added f r applied t monitored_ids kind user id cs,
        told-removed f r applied t monitored_ids kind user id
            (records_of r.config_by_id applied.delisted_ids),
      )

  abbrev of_monitored : NoticeKind → List String → ℕ
  of_monitored kind users =
      if contains user users then 0 else when (same_kind restock_notice kind && awaits) listed

  told-monitored_notices :
      (kind : NoticeKind) (users : List String) (t : NotificationDeliveryTarget)
      → (monitored_notices f a r applied users t).1 ≡ false
      → told kind user id (monitored_notices f a r applied users t).0
        ≡ when (t.user_id == user) (of_monitored kind users)
  unfolding told
  told-monitored_notices kind users t h =
      let ids = load_enabled_monitoring_ids a t.user_id applied.listed_event_ids in
      let cs = records_of r.config_by_id applied.listed_event_ids in
      let same_seen = λ (e : (t.user_id == user) ≡ true).
        ap (λ u. contains u users) ((==_iff t.user_id user).0 e) in
      elim (Bool-cases (contains t.user_id users)) [
        | inl seen ↦ rw seen (ground (arith, seen, same_seen))
        | inr fresh ↦
            (rw fresh (
              ground (
                arith,
                fresh,
                same_seen,
                same_monitored t.user_id,
                same_allowed t.user_id,
                contains-keep id (is_monitored a t.user_id) applied.listed_event_ids,
                told-fallbacks f r applied t ids kind user id cs (rw fresh at h),
              )))
      ]

  told-parts :
      (kind : NoticeKind) (fid : String) (gid : Option String)
      → (notify_lifecycle_events f a r applied fid gid).1 ≡ false
      → count user (map (λ row. row.0.user_id) a.settings) ≤ 1
      → told kind user id (notify_lifecycle_events f a r applied fid gid).0
        ≡ when (has_row user (in_scope a (monitoring_partition_key fid gid)) a) (of_scope kind)
          + (if has_row user (in_scope a (monitoring_partition_key fid gid)) a
              then 0
              else when
                  (has_row user
                    (λ row. any (is_monitored a row.0.user_id) applied.listed_event_ids)
                    a)
                  (when (same_kind restock_notice kind && awaits) listed))
  unfolding notify_lifecycle_events
  told-parts kind fid gid h rows =
      let inside = in_scope a (monitoring_partition_key fid gid) in
      let monitors = λ (row : NotificationDeliveryTarget × Bool).
        any (is_monitored a row.0.user_id) applied.listed_event_ids in
      let scope = scope_targets a (monitoring_partition_key fid gid) in
      let others = load_monitored_delivery_targets a applied.listed_event_ids in
      let users = map (λ t. t.user_id) scope in
      let both =
        told-then kind user id (each_target (scope_notices f a r applied) scope)
          (each_target (monitored_notices f a r applied users) others) h in
      let count_in = count-rows user inside a.settings in
      let count_of = count-rows user monitors a.settings in
      ground (
        arith,
        both.2,
        told-each_target kind user id (scope_notices f a r applied) (of_scope kind)
            (told-scope_notices kind) scope both.0,
        told-each_target kind user id (monitored_notices f a r applied users)
            (of_monitored kind users) (told-monitored_notices kind users) others both.1,
        scaled-count user (of_scope kind) users (omega (arith, count_in, rows)),
        scaled-count user (of_monitored kind users) (map (λ t. t.user_id) others)
            (omega (arith, count_of, rows)),
        contains-rows user inside a.settings,
        contains-rows user monitors a.settings,
      )

  -- In a run that does not panic, where the user has settings at most once, packages are read under
  -- their own ids and each list of the result has the package at most once, the user is told: of its
  -- restock once if it is announced and read, the user has settings and monitors it, and, where they
  -- wait as a poller, it is newly listed; that it was added once if it is announced and read and the
  -- user follows the partition and does not monitor it; that it was removed once if it is delisted
  -- and read and the user follows the partition; and else not.
  pub told_exactly :
      (fid : String) (gid : Option String)
      → (notify_lifecycle_events f a r applied fid gid).1 ≡ false
      → count user (map (λ row. row.0.user_id) a.settings) ≤ 1
      → ((k : String) (c : ConfigLifecycleRecord F) → get k r.config_by_id ≡ some c → c.id ≡ k)
      → count id applied.listed_event_ids ≤ 1
      → count id applied.delisted_ids ≤ 1
      → let notices = (notify_lifecycle_events f a r applied fid gid).0 in
        let scoped = has_row user (in_scope a (monitoring_partition_key fid gid)) a in
        let known = is_some (get id r.config_by_id) in
        let is_listed = contains id applied.listed_event_ids && known in
        (told restock_notice user id notices
          ≡ as_number (has_row user (λ row. true) a && awaits && known))
        × (told added_notice user id notices
            ≡ as_number (scoped && is_listed && not (is_monitored a user id)))
        × (told removed_notice user id notices
            ≡ as_number (scoped && contains id applied.delisted_ids && known))
  told_exactly fid gid h rows keyed once_listed once_delisted =
      let all_listed =
        occurrences-once id r.config_by_id keyed applied.listed_event_ids once_listed in
      let all_delisted =
        occurrences-once id r.config_by_id keyed applied.delisted_ids once_delisted in
      let inside = in_scope a (monitoring_partition_key fid gid) in
      (
        ground (
          arith,
          told-parts restock_notice fid gid h rows,
          all_listed,
          has_row-weaker user inside a.settings,
          has_row-monitors a user id applied.listed_event_ids a.settings,
        ),
        ground (arith, told-parts added_notice fid gid h rows, all_listed),
        ground (arith, told-parts removed_notice fid gid h rows, all_delisted),
      )
