-- ===== src/Alerts/Told/Counts.antt =====
-- How often a user is told of a package, through each part of `notify_lifecycle_events`.
use catnap.Common.{
  ℕ, ◌+◌, ◌≤◌, String, Bool, true, false, not, ◌&&◌, ◌≡◌, refl, ap, List, [], ◌∷◌, ◌++◌, Option,
  none, some, ◌==◌, ==_iff, eq_string, if◌then◌else◌, is_some, map, count, contains,
  count-pos_of_contains, get, arith, Bool-cases, inl, inr,
}
use catnap.Listing.Apply.{ApplyCatalogUrlResult}
use catnap.Alerts.Texts.{Formats}
use catnap.Alerts.Content.{MonitoringChangeNotification}
use catnap.Alerts.Records.{NotificationDeliveryTarget, NotificationRecordItemView}
use catnap.Alerts.Lifecycle.{
  ConfigLifecycleRecord, NoticeKind, restock_notice, added_notice, removed_notice, Notice, Readings,
  Notices, then_notices, restock_notification, expected_notice, item_notice, is_allowed,
  fallback_notice, deliver_monitored_restock_fallbacks, added_notices, removed_notices, each_target,
}

abbrev pub same_kind : NoticeKind → NoticeKind → Bool
same_kind restock_notice restock_notice = true
same_kind added_notice added_notice = true
same_kind removed_notice removed_notice = true
same_kind restock_notice added_notice = false
same_kind restock_notice removed_notice = false
same_kind added_notice restock_notice = false
same_kind added_notice removed_notice = false
same_kind removed_notice restock_notice = false
same_kind removed_notice added_notice = false

abbrev pub as_number : Bool → ℕ
as_number b = if b then 1 else 0

abbrev pub when : Bool → ℕ → ℕ
when b n = if b then n else 0

-- Each target is told a number of times if it is the user's, and else never.
abbrev pub scaled : String → ℕ → List String → ℕ
scaled user n [] = 0
scaled user n (u ∷ us) = when (u == user) n + scaled user n us

not_true : ¬ (true ≡ false)
not_true h = ground arith

module _ {F Z : Type 0} (kind : NoticeKind) (user id : String) where
  abbrev pub tells : Notice F Z → Bool
  tells n = same_kind n.kind kind && n.target.user_id == user && n.config_id == id

  -- How many of the deliveries are of a kind, to a user and about a package.
  unfoldable pub told : List (Notice F Z) → ℕ
  told [] = 0
  told (n ∷ ns) = as_number (tells n) + told ns

  pub told-append : (xs ys : List (Notice F Z)) → told (xs ++ ys) ≡ told xs + told ys
  unfolding told
  told-append [] ys = omega arith
  told-append (x ∷ xs) ys = omega (arith, told-append xs ys)

  pub told-then :
      (a b : Notices F Z)
      → (then_notices a b).1 ≡ false
      → (a.1 ≡ false) × (b.1 ≡ false) × (told (then_notices a b).0 ≡ told a.0 + told b.0)
  told-then (first, true) b h = absurd (not_true h)
  told-then (first, false) b h = (refl, h, told-append first b.0)

  pub told-each_target :
      (notices : NotificationDeliveryTarget → Notices F Z) (n : ℕ)
      → ((t : NotificationDeliveryTarget)
          → (notices t).1 ≡ false
          → told (notices t).0 ≡ when (t.user_id == user) n)
      → (ts : List NotificationDeliveryTarget) → (each_target notices ts).1 ≡ false
      → told (each_target notices ts).0 ≡ scaled user n (map (λ t. t.user_id) ts)
  unfolding each_target told
  told-each_target notices n h [] k = refl
  told-each_target notices n h (t ∷ ts) k =
      let both = told-then (notices t) (each_target notices ts) k in
      omega (arith, both.2, h t both.0, told-each_target notices n h ts both.1)

pub told-nil :
    (F Z : Type 0) (kind : NoticeKind) (user id : String) → told {F = F} {Z = Z} kind user id [] ≡ 0
unfolding told
told-nil F Z kind user id = refl

pub scaled-count :
    (user : String) (n : ℕ) (us : List String)
    → count user us ≤ 1
    → scaled user n us ≡ when (contains user us) n
scaled-count user n [] h = refl
scaled-count user n (u ∷ us) h = elim (Bool-cases (u == user)) [
  | inl same ↦ ground (arith, count-pos_of_contains user us, scaled-count user n us, same, h)
  | inr other ↦ ground (arith, scaled-count user n us, other, h)
]

-- How many records have an id.
abbrev pub occurrences : {F : Type 0} → String → List (ConfigLifecycleRecord F) → ℕ
occurrences id [] = 0
occurrences id (c ∷ cs) = as_number (c.id == id) + occurrences id cs

module _ {F Z : Type 0} (f : Formats F) (r : Readings F Z) (applied : ApplyCatalogUrlResult)
    (t : NotificationDeliveryTarget) (monitored_ids : List String) (kind : NoticeKind)
    (user id : String) where
  -- Whether a package is one that the fallbacks tell the target of.
  abbrev pub falls_back : String → Bool
  falls_back about =
      contains about monitored_ids
      && is_allowed r applied t.user_id about
      && is_some (get about r.item_by_id)

  abbrev pub restocks : Bool
  restocks = same_kind restock_notice kind && t.user_id == user && falls_back id

  told-expected :
      (about : String) (item : NotificationRecordItemView F Z)
      (n : Option MonitoringChangeNotification)
      → (expected_notice t about item n).1 ≡ false
      → told kind user id (expected_notice t about item n).0
        ≡ as_number (same_kind restock_notice kind && t.user_id == user && about == id)
  unfolding told
  told-expected about item none h = ground arith
  told-expected about item (some n) h = ground arith

  told-item :
      (about : String) (item : Option (NotificationRecordItemView F Z))
      → (item_notice f t about item).1 ≡ false
      → told kind user id (item_notice f t about item).0
        ≡ as_number
            (same_kind restock_notice kind && t.user_id == user && about == id && is_some item)
  unfolding told
  told-item about none h = ground arith
  told-item about (some item) h =
      ground (arith, told-expected about item (restock_notification f t.site_base_url item) h)

  told-allowed :
      (about : String) (allowed : Bool) (item : Option (NotificationRecordItemView F Z))
      → (if allowed then item_notice f t about item else ([], false)).1 ≡ false
      → told kind user id (if allowed then item_notice f t about item else ([], false)).0
        ≡ as_number (
            same_kind restock_notice kind
            && t.user_id == user
            && about == id
            && allowed
            && is_some item)
  unfolding told
  told-allowed about true item h = ground (arith, told-item about item h)
  told-allowed about false item h = ground arith

  pub told-fallbacks :
      (cs : List (ConfigLifecycleRecord F))
      → let done = deliver_monitored_restock_fallbacks f r applied t monitored_ids cs in
        done.1 ≡ false → told kind user id done.0 ≡ when restocks (occurrences id cs)
  unfolding deliver_monitored_restock_fallbacks told
  told-fallbacks [] h = ground arith
  told-fallbacks (c ∷ cs) h =
      let parts =
        told-then kind user id (fallback_notice f r applied t monitored_ids c.id)
          (deliver_monitored_restock_fallbacks f r applied t monitored_ids cs) h in
      let first =
        told-allowed c.id (contains c.id monitored_ids && is_allowed r applied t.user_id c.id)
          (get c.id r.item_by_id) parts.0 in
      let rest = told-fallbacks cs parts.1 in
      elim (Bool-cases (c.id == id)) [
        | inl same ↦
            ground (arith, parts.2, first, rest, same, ap falls_back ((==_iff c.id id).0 same))
        | inr other ↦ ground (arith, parts.2, first, rest, other)
      ]

  pub told-added :
      (cs : List (ConfigLifecycleRecord F))
      → told kind user id (added_notices f r t monitored_ids cs)
        ≡ when
            (same_kind added_notice kind && t.user_id == user && not (contains id monitored_ids))
            (occurrences id cs)
  unfolding told
  told-added [] = ground arith
  told-added (c ∷ cs) = elim (Bool-cases (c.id == id)) [
    | inl same ↦ ground (
      arith,
      told-added cs,
      same,
      ap (λ about. contains about monitored_ids) ((==_iff c.id id).0 same),
    )
    | inr other ↦ ground (arith, told-added cs, other)
  ]

  pub told-removed :
      (cs : List (ConfigLifecycleRecord F))
      → told kind user id (removed_notices f r t cs)
        ≡ when (same_kind removed_notice kind && t.user_id == user) (occurrences id cs)
  unfolding told
  told-removed [] = ground arith
  told-removed (c ∷ cs) = ground (arith, told-removed cs)
