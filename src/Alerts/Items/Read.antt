-- ===== src/Alerts/Items/Read.antt =====
-- What the notifications of a run read of the packages that its page wrote.
use catnap.Common.{
  String, Bool, true, false, ◌≡◌, sym, ap, ◌∙◌, List, [], ◌∷◌, Option, none, some, ◌==◌, ==_iff,
  eq_string, if◌then◌else◌, get, contains, keep, map, map_some, some_inj, none-ne-some, arith,
}
use catnap.Listing.Store.{ConfigRow}
use catnap.Alerts.Lifecycle.{ConfigLifecycleRecord}
use catnap.Alerts.Items.{
  Columns, lifecycle_record, load_config_lifecycle_records, notification_record_item_view_from_row,
  load_notification_record_item_map,
}

get-loaded :
    {X V : Type 0} (ids : List String) (h : String × ConfigRow X → V) (id : String)
    (rows : List (String × ConfigRow X))
    → get id (map (λ row. (row.0, h row)) (keep (λ row. contains row.0 ids) rows))
      ≡ (if contains id ids then map_some (λ row. h (id, row)) (get id rows) else none)
unfolding get
get-loaded ids h id [] = ground arith
get-loaded ids h id ((key, row) ∷ rows) =
    let same_ids = λ (e : (key == id) ≡ true). ap (λ k. contains k ids) ((==_iff key id).0 e) in
    let same_value = λ (e : (key == id) ≡ true). ap (λ k. h (k, row)) ((==_iff key id).0 e) in
    ground (arith, same_ids, same_value, get-loaded ids h id rows)

keyed_record :
    {X F Z : Type 0} (cols : Columns X F Z) (id : String) (b : Bool) (row : Option (ConfigRow X))
    (c : ConfigLifecycleRecord F)
    → (if b then map_some (λ r. lifecycle_record cols (id, r)) row else none) ≡ some c
    → c.id ≡ id
keyed_record cols id true none c h = absurd (none-ne-some h)
keyed_record cols id true (some row) c h = ap (λ r. r.id) (sym (some_inj h))
keyed_record cols id false row c h = absurd (none-ne-some h)

module _ {X F Z : Type 0} (cols : Columns X F Z) (ids : List String)
    (rows : List (String × ConfigRow X)) where
  pub get-records :
      (id : String)
      → get id (load_config_lifecycle_records cols ids rows) ≡ (
          if contains id ids
          then map_some (λ row. lifecycle_record cols (id, row)) (get id rows)
          else none)
  unfolding load_config_lifecycle_records
  get-records id = get-loaded ids (lifecycle_record cols) id rows

  pub get-items :
      (id : String)
      → get id (load_notification_record_item_map cols ids rows) ≡ (
          if contains id ids
          then map_some (λ row. notification_record_item_view_from_row cols (id, row)) (get id rows)
          else none)
  unfolding load_notification_record_item_map
  get-items id = get-loaded ids (notification_record_item_view_from_row cols) id rows

  pub records-keyed :
      (id : String) (c : ConfigLifecycleRecord F)
      → get id (load_config_lifecycle_records cols ids rows) ≡ some c
      → c.id ≡ id
  records-keyed id c h =
      keyed_record cols id (contains id ids) (get id rows) c (sym (get-records id) ∙ h)
