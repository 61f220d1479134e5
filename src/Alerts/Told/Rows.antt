-- ===== src/Alerts/Told/Rows.antt =====
-- Who has settings, and which packages a run reads.
use catnap.Common.{
  ◌≤◌, String, Bool, true, ◌&&◌, ◌≡◌, refl, ap, List, [], ◌∷◌, some, ◌==◌, ==_iff, eq_string,
  eq_pair, is_some, keep, map, any, count, contains, get, arith, Option-cases, inl, inr,
}
use catnap.Alerts.Records.{NotificationDeliveryTarget}
use catnap.Alerts.Lifecycle.{ConfigLifecycleRecord, records_of}
use catnap.Alerts.Audience.{Audience, is_monitored}
use catnap.Alerts.Told.Counts.{as_number, scaled, scaled-count, occurrences}

-- Whether a user has settings that a test holds of.
abbrev pub has_row : String → (NotificationDeliveryTarget × Bool → Bool) → Audience → Bool
has_row user p a = any (λ row. row.0.user_id == user && p row) a.settings

pub contains-rows :
    {B : Type 0} (user : String) (p : NotificationDeliveryTarget × B → Bool)
    (rows : List (NotificationDeliveryTarget × B))
    → contains user (map (λ t. t.user_id) (map (λ row. row.0) (keep p rows)))
      ≡ any (λ row. row.0.user_id == user && p row) rows
contains-rows user p [] = refl
contains-rows user p (row ∷ rows) = ground (arith, contains-rows user p rows)

pub has_row-weaker :
    (user : String) (p : NotificationDeliveryTarget × Bool → Bool)
    (rows : List (NotificationDeliveryTarget × Bool))
    → any (λ row. row.0.user_id == user && p row) rows ≡ true
    → any (λ row. row.0.user_id == user && true) rows ≡ true
has_row-weaker user p [] h = ground (arith, h)
has_row-weaker user p (row ∷ rows) h = ground (arith, has_row-weaker user p rows, h)

any_of_contains :
    (p : String → Bool) (id : String) (ids : List String)
    → p id ≡ true
    → contains id ids ≡ true
    → any p ids ≡ true
any_of_contains p id [] h k = ground (arith, k)
any_of_contains p id (x ∷ ids) h k =
    ground
      (arith, h, k, any_of_contains p id ids, λ (e : (x == id) ≡ true). ap p ((==_iff x id).0 e))

pub has_row-monitors :
    (a : Audience) (user id : String) (ids : List String)
    (rows : List (NotificationDeliveryTarget × Bool))
    → is_monitored a user id ≡ true
    → contains id ids ≡ true
    → any (λ row. row.0.user_id == user && any (is_monitored a row.0.user_id) ids) rows
      ≡ any (λ row. row.0.user_id == user && true) rows
has_row-monitors a user id ids [] h k = refl
has_row-monitors a user id ids (row ∷ rows) h k = ground (
  arith,
  has_row-monitors a user id ids rows h k,
  any_of_contains (is_monitored a user) id ids h k,
  λ (e : (row.0.user_id == user) ≡ true).
      ap (λ u. any (is_monitored a u) ids) ((==_iff row.0.user_id user).0 e),
)

pub count-rows :
    {B : Type 0} (user : String) (p : NotificationDeliveryTarget × B → Bool)
    (rows : List (NotificationDeliveryTarget × B))
    → count user (map (λ t. t.user_id) (map (λ row. row.0) (keep p rows)))
      ≤ count user (map (λ row. row.0.user_id) rows)
count-rows user p [] = ground arith
count-rows user p (row ∷ rows) = ground (arith, count-rows user p rows)

module _ {F : Type 0} (id : String) (config_by_id : List (String × ConfigLifecycleRecord F))
    (keyed : (k : String) (c : ConfigLifecycleRecord F)
      → get k config_by_id ≡ some c
      → c.id ≡ k) where
  occurrences-records_of :
      (ids : List String)
      → occurrences id (records_of config_by_id ids)
        ≡ scaled id (as_number (is_some (get id config_by_id))) ids
  unfolding records_of
  occurrences-records_of [] = refl
  occurrences-records_of (k ∷ ids) =
      let same =
        λ (e : (k == id) ≡ true). ap (λ key. is_some (get key config_by_id)) ((==_iff k id).0 e) in
      elim (Option-cases (get k config_by_id)) [
        | inl missing ↦ ground (arith, missing, same, occurrences-records_of ids)
        | inr (c, found) ↦
            ground
              (arith, found, same, occurrences-records_of ids, ap (λ x. x == id) (keyed k c found))
      ]

  pub occurrences-once :
      (ids : List String)
      → count id ids ≤ 1
      → occurrences id (records_of config_by_id ids)
        ≡ as_number (contains id ids && is_some (get id config_by_id))
  occurrences-once ids h = ground (
    arith,
    occurrences-records_of ids,
    scaled-count id (as_number (is_some (get id config_by_id))) ids h,
  )
