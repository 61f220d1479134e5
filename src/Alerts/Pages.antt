-- ===== src/Alerts/Pages.antt =====
-- The list of a user's notification records, `get_notification_records` of src/app_api.rs and
-- `list_notification_records` of src/db.rs, and how a client follows it. A statement does not fail.
pub mod Cursors
pub mod Read
mod Examples
use catnap.Common.{
  ℕ, zero, suc, max, min, String, Bool, true, false, not, ◌&&◌, ltb, List, [], ◌∷◌, ◌++◌, Option,
  none, some, ◌==◌, eq_string, eq_nat, if◌then◌else◌, trim, is_empty, is_some, unwrap_or, map_some,
  and_then, keep, take, length, pair_ltb, sort_by, ℤ, pos, negsuc,
}
use Prim.Native.String.{[], ◌∷◌}
use Prim.Native.Char.{Char, code}
use catnap.Alerts.Texts.{text}

-- `V`: what a record shows besides, with its items and deliveries.
pub record NotificationRecord (V : Type 0) : Type 0 where
  pub id : String
  pub user_id : String
  pub created_at : String
  pub shown : V

abbrev pub part_found : Char → String → Option (String × String) → Option (String × String)
part_found c s none = if code c == 58 then some ("", s) else none
part_found c s (some (before, behind)) = some (String.◌∷◌ c before, behind)

-- `rsplit_once(':')`, which finds what `rsplitn(2, ':')` gives where it gives two parts.
unfoldable pub rsplit_once : String → Option (String × String)
rsplit_once String.[] = none
rsplit_once (String.◌∷◌ c s) = part_found c s (rsplit_once s)

-- `RFC3339`: the time of a text, in the form in which the records have theirs, if it is one.
abbrev pub Canonical : Type 0
Canonical = String → Option String

abbrev pub parsed_cursor : Canonical → String × String → Option (String × String)
parsed_cursor canonical (ts, id) = map_some (λ time. (time, trim id)) (canonical (trim ts))

abbrev pub first_cursor : String × String
first_cursor = ("9999-12-31T23:59:59.999999999Z", "zzzz")

abbrev pub cursor_of : Canonical → Option String → String × String
cursor_of canonical none = first_cursor
cursor_of canonical (some cursor) =
    unwrap_or (and_then (rsplit_once cursor) (parsed_cursor canonical)) first_cursor

abbrev pub row_key : {V : Type 0} → NotificationRecord V → String × String
row_key r = (r.created_at, r.id)

abbrev pub newer_first : {V : Type 0} → NotificationRecord V → NotificationRecord V → Bool
newer_first a b = pair_ltb (row_key b) (row_key a)

-- The records of a user in the order of the list.
abbrev pub user_records :
    {V : Type 0} → String → List (NotificationRecord V) → List (NotificationRecord V)
user_records user rows = sort_by newer_first (keep (λ r. r.user_id == user) rows)

abbrev pub cursor_text : {V : Type 0} → NotificationRecord V → String
cursor_text r = text (r.created_at ∷ ":" ∷ r.id ∷ [])

abbrev pub last_cursor : {V : Type 0} → List (NotificationRecord V) → Option String
last_cursor [] = none
last_cursor (r ∷ []) = some (cursor_text r)
last_cursor (r ∷ q ∷ rs) = last_cursor (q ∷ rs)

abbrev pub page_of_rows :
    {V : Type 0} → ℕ → List (NotificationRecord V) → List (NotificationRecord V) × Option String
page_of_rows limit rows =
    (take limit rows, if ltb limit (length rows) then last_cursor (take limit rows) else none)

-- With a limit of at least 1.
unfoldable pub list_notification_records :
    {V : Type 0}
    → Canonical
    → List (NotificationRecord V)
    → String
    → Option String
    → ℕ
    → List (NotificationRecord V) × Option String
unfolding rsplit_once
list_notification_records canonical rows user cursor limit =
    let key = cursor_of canonical cursor in
    page_of_rows limit
      (take (suc limit) (keep (λ r. pair_ltb (row_key r) key) (user_records user rows)))

abbrev pub are_valid : Canonical → Option (String × String) → Bool
are_valid canonical none = false
are_valid canonical (some (ts, id)) =
    not (is_empty (trim ts)) && not (is_empty (trim id)) && is_some (canonical (trim ts))

unfoldable pub validate_notification_records_cursor : Canonical → Option String → Bool
unfolding rsplit_once
validate_notification_records_cursor canonical none = true
validate_notification_records_cursor canonical (some cursor) =
    not (is_empty (trim cursor)) && are_valid canonical (rsplit_once (trim cursor))

abbrev pub clamped_limit : Option ℤ → ℕ
clamped_limit none = 20
clamped_limit (some (negsuc n)) = 1
clamped_limit (some (pos n)) = max 1 (min n 50)

-- A page, or none where the cursor is refused.
unfoldable pub get_notification_records :
    {V : Type 0}
    → Canonical
    → List (NotificationRecord V)
    → String
    → Option String
    → Option ℤ
    → Option (List (NotificationRecord V) × Option String)
unfolding list_notification_records validate_notification_records_cursor
get_notification_records canonical rows user cursor limit =
    if validate_notification_records_cursor canonical cursor
    then some (list_notification_records canonical rows user cursor (clamped_limit limit))
    else none
