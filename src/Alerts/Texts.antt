-- ===== src/Alerts/Texts.antt =====
-- src/notification_content.rs: prices and links in a text.
use Prim.Native.Char.{Char, code}
use catnap.Common.{
  String, String-append, Bool, ◌&&◌, List, [], ◌∷◌, Option, none, some, ◌==◌, eq_string, eq_nat,
  if◌then◌else◌, trim, is_empty, ℤ,
}

-- `F` is `f64`. What is used of it: `(a - b).abs() > f64::EPSILON`, `{:.2}` and `{}`; and how an
-- integer is shown.
pub record Formats (F : Type 0) : Type 0 where
  pub differ : F → F → Bool
  pub two_decimals : F → String
  pub shown : F → String
  pub shown_int : ℤ → String

pub record Money (F : Type 0) : Type 0 where
  pub amount : F
  pub currency : String
  pub period : String

-- `format!` of these parts.
abbrev pub text : List String → String
text [] = ""
text (s ∷ parts) = String-append s (text parts)

-- `join`
abbrev joined : String → String → List String → String
joined separator s [] = s
joined separator s (t ∷ more) = String-append s (String-append separator (joined separator t more))

abbrev pub join : String → List String → String
join separator [] = ""
join separator (s ∷ more) = joined separator s more

abbrev period_label : String → String
period_label period = if period == "month" then "月" else (if period == "year" then "年" else period)

unfoldable pub format_money : {F : Type 0} → Formats F → Money F → String
format_money f m =
    if m.currency == "CNY"
    then text ("¥" ∷ f.two_decimals m.amount ∷ " / " ∷ period_label m.period ∷ [])
    else text (f.two_decimals m.amount ∷ " " ∷ m.currency ∷ "/" ∷ m.period ∷ [])

unfoldable pub format_price_change : {F : Type 0} → Formats F → Money F → Money F → String
unfolding format_money
format_price_change f old new =
    if old.currency == new.currency && old.period == new.period
    then (if old.currency == "CNY"
        then text (
            "¥"
            ∷ f.two_decimals old.amount
            ∷ " → ¥"
            ∷ f.two_decimals new.amount
            ∷ " / "
            ∷ period_label new.period
            ∷ [])
        else text (
            f.two_decimals old.amount
            ∷ " "
            ∷ old.currency
            ∷ "/"
            ∷ old.period
            ∷ " → "
            ∷ f.two_decimals new.amount
            ∷ " "
            ∷ new.currency
            ∷ "/"
            ∷ new.period
            ∷ []))
    else text (format_money f old ∷ " → " ∷ format_money f new ∷ [])

-- `trim_end_matches('/')`
abbrev cons_unslashed : Char → String → String
cons_unslashed c String.[] = if code c == 47 then String.[] else String.◌∷◌ c String.[]
cons_unslashed c (String.◌∷◌ d s) = String.◌∷◌ c (String.◌∷◌ d s)

unfoldable pub trim_slashes : String → String
trim_slashes String.[] = String.[]
trim_slashes (String.◌∷◌ c s) = cons_unslashed c (trim_slashes s)

-- The address with something after it, where there is one.
abbrev url_of : Option String → List String → Option String
url_of none rest = none
url_of (some base) rest =
    if is_empty (trim base) then none else some (text (trim_slashes (trim base) ∷ rest))

unfoldable pub monitoring_url : Option String → Option String
monitoring_url site_base_url = url_of site_base_url ("/monitoring" ∷ [])

unfoldable pub products_url : Option String → Option String
products_url site_base_url = url_of site_base_url ("/products" ∷ [])

unfoldable pub notification_record_url : Option String → String → Option String
notification_record_url site_base_url record_id =
    if is_empty (trim record_id)
    then none
    else url_of site_base_url ("/?notification=" ∷ trim record_id ∷ "#notifications" ∷ [])

abbrev with_link : String → Option String → String
with_link telegram_text none = telegram_text
with_link telegram_text (some url) =
    if is_empty (trim telegram_text)
    then text ("查看通知记录：" ∷ url ∷ [])
    else text (telegram_text ∷ "\n查看通知记录：" ∷ url ∷ [])

unfoldable pub append_notification_record_link : String → Option String → String → String
unfolding notification_record_url
append_notification_record_link telegram_text site_base_url record_id =
    with_link telegram_text (notification_record_url site_base_url record_id)
