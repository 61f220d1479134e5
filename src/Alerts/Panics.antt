-- ===== src/Alerts/Panics.antt =====
-- src/ops.rs: when the `expect` of the restock fallbacks panics.
use catnap.Common.{
  String, Bool, true, false, not, ◌&&◌, ◌||◌, ◌≡◌, refl, ◌∙◌, List, [], ◌∷◌, Option, none, some,
  ==_refl, eq_string, any, map, contains, contains-keep, get, arith, Option-cases, inl, inr,
}
use catnap.Listing.Store.{is_positive}
use catnap.Listing.Apply.{ApplyCatalogUrlResult}
use catnap.Alerts.Texts.{Formats}
use catnap.Alerts.Content.{build_monitoring_change_notification}
use catnap.Alerts.Records.{NotificationDeliveryTarget, NotificationRecordItemView}
use catnap.Alerts.Lifecycle.{
  ConfigLifecycleRecord, Readings, Notices, then_notices, records_of, is_allowed,
  restock_notification, expected_notice, fallback_notice, deliver_monitored_restock_fallbacks,
  each_target, scope_notices, monitored_notices, notify_lifecycle_events,
}
use catnap.Alerts.Audience.{
  Audience, monitoring_partition_key, is_monitored, scope_targets, load_monitored_delivery_targets,
  load_enabled_monitoring_ids,
}

-- Whether an item that is told of as restocked has no stock.
abbrev pub is_out : {F Z : Type 0} → Option (NotificationRecordItemView F Z) → Bool
is_out none = false
is_out (some item) = not (is_positive item.quantity)

panics-then : {F Z : Type 0} (a b : Notices F Z) → (then_notices a b).1 ≡ (a.1 || b.1)
panics-then (first, true) b = refl
panics-then (first, false) b = refl

module _ {F Z : Type 0} (f : Formats F) (same : (x : F) → f.differ x x ≡ false) where
  expected-panics :
      (t : NotificationDeliveryTarget) (id : String) (item : NotificationRecordItemView F Z)
      → (expected_notice t id item (restock_notification f t.site_base_url item)).1
        ≡ not (is_positive item.quantity)
  unfolding build_monitoring_change_notification
  expected-panics t id item =
      ground (arith, same item.price.amount, ==_refl {A = String} "lifecycle-listed-pending")

  module _ (r : Readings F Z) (applied : ApplyCatalogUrlResult) (t : NotificationDeliveryTarget)
      (monitored_ids : List String) where
    fallback-panics :
        (id : String)
        → (fallback_notice f r applied t monitored_ids id).1 ≡ (
            contains id monitored_ids
            && is_allowed r applied t.user_id id
            && is_out (get id r.item_by_id))
    fallback-panics id = elim (Option-cases (get id r.item_by_id)) [
      | inl missing ↦ rw missing (ground arith)
      | inr (item, found) ↦ rw found (ground (arith, expected-panics t id item))
    ]

    -- Where a price does not differ from itself, the fallbacks of a target panic exactly where a
    -- package that it monitors and may be told of is read with no stock.
    pub fallbacks_panic :
        (cs : List (ConfigLifecycleRecord F))
        → (deliver_monitored_restock_fallbacks f r applied t monitored_ids cs).1
          ≡ any
              (λ c.
                contains c.id monitored_ids
                && is_allowed r applied t.user_id c.id
                && is_out (get c.id r.item_by_id))
              cs
    unfolding deliver_monitored_restock_fallbacks
    fallbacks_panic [] = refl
    fallbacks_panic (c ∷ cs) = ground (
      arith,
      fallback-panics c.id,
      fallbacks_panic cs,
      panics-then (fallback_notice f r applied t monitored_ids c.id)
          (deliver_monitored_restock_fallbacks f r applied t monitored_ids cs),
    )

any-never : {A : Type 0} (p : A → Bool) → ((x : A) → p x ≡ false) → (xs : List A) → any p xs ≡ false
any-never p h [] = refl
any-never p h (x ∷ xs) = ground (arith, h x, any-never p h xs)

each_target-calm :
    {F Z : Type 0} (notices : NotificationDeliveryTarget → Notices F Z)
    → ((t : NotificationDeliveryTarget) → (notices t).1 ≡ false)
    → (ts : List NotificationDeliveryTarget) → (each_target notices ts).1 ≡ false
unfolding each_target
each_target-calm notices h [] = refl
each_target-calm notices h (t ∷ ts) =
    ground
      (arith, panics-then (notices t) (each_target notices ts), h t, each_target-calm notices h ts)

module _ {F Z : Type 0} (f : Formats F) (same : (x : F) → f.differ x x ≡ false) (a : Audience)
    (r : Readings F Z) (applied : ApplyCatalogUrlResult)
    (stocked : (id : String)
      → contains id applied.listed_event_ids ≡ true
      → is_out (get id r.item_by_id) ≡ false) where
  fallbacks-calm :
      (t : NotificationDeliveryTarget) (cs : List (ConfigLifecycleRecord F))
      → (deliver_monitored_restock_fallbacks f r applied t
          (load_enabled_monitoring_ids a t.user_id applied.listed_event_ids)
          cs).1
        ≡ false
  fallbacks-calm t cs =
      let ids = load_enabled_monitoring_ids a t.user_id applied.listed_event_ids in
      fallbacks_panic f same r applied t ids cs
      ∙ any-never
          (λ c.
            contains c.id ids
            && is_allowed r applied t.user_id c.id
            && is_out (get c.id r.item_by_id))
          (λ c. ground (
            arith,
            stocked c.id,
            contains-keep c.id (is_monitored a t.user_id) applied.listed_event_ids,
          ))
          cs

  monitored-calm :
      (users : List String) (t : NotificationDeliveryTarget)
      → (monitored_notices f a r applied users t).1 ≡ false
  monitored-calm users t =
      ground (arith, fallbacks-calm t (records_of r.config_by_id applied.listed_event_ids))

  scope-calm : (t : NotificationDeliveryTarget) → (scope_notices f a r applied t).1 ≡ false
  scope-calm t = ground (
    arith,
    fallbacks-calm t (records_of r.config_by_id applied.listed_event_ids),
    panics-then (
        deliver_monitored_restock_fallbacks f r applied t
          (load_enabled_monitoring_ids a t.user_id applied.listed_event_ids)
          (records_of r.config_by_id applied.listed_event_ids)),
  )

  -- Where every listed package is read in stock, the notifications of a run do not panic.
  pub notify-calm :
      (fid : String) (gid : Option String)
      → (notify_lifecycle_events f a r applied fid gid).1 ≡ false
  unfolding notify_lifecycle_events
  notify-calm fid gid =
      let scope = scope_targets a (monitoring_partition_key fid gid) in
      let users = map (λ t. t.user_id) scope in
      let others = load_monitored_delivery_targets a applied.listed_event_ids in
      panics-then (each_target (scope_notices f a r applied) scope)
        (each_target (monitored_notices f a r applied users) others)
      ∙ ground (
        arith,
        each_target-calm (scope_notices f a r applied) scope-calm scope,
        each_target-calm (monitored_notices f a r applied users) (monitored-calm users) others,
      )
