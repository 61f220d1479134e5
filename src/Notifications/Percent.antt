-- ===== src/Notifications/Percent.antt =====
-- src/notifications.rs, `percent_encode_url_component`: how a token stands in a URL. Texts are bytes.
pub mod Decoded
pub mod Examples
use catnap.Common.{
  ℕ, ◌/◌, ◌%◌, Bool, true, false, ◌&&◌, ◌||◌, List, [], ◌∷◌, Option, none, some, leb, ◌==◌, eq_nat,
  if◌then◌else◌, codes, get_elem?, unwrap_or,
}

abbrev is_ascii_alphanumeric : ℕ → Bool
is_ascii_alphanumeric b =
    (leb 48 b && leb b 57) || (leb 65 b && leb b 90) || (leb 97 b && leb b 122)

-- The bytes that stand as they are; the last four are `-`, `_`, `.` and `~`.
unfoldable pub is_unreserved : ℕ → Bool
is_unreserved b = is_ascii_alphanumeric b || b == 45 || b == 95 || b == 46 || b == 126

abbrev pub upper_hex : List ℕ
upper_hex = codes "0123456789ABCDEF"

abbrev pub lower_hex : List ℕ
lower_hex = codes "0123456789abcdef"

-- `hex[d]`; the index is below 16, and a table has 16 digits.
unfoldable pub hex_digit : List ℕ → ℕ → ℕ
hex_digit hex d = unwrap_or (get_elem? hex d) 0

unfoldable pub percent_encode_url_component : List ℕ → List ℕ → List ℕ
unfolding is_unreserved hex_digit
percent_encode_url_component hex [] = []
percent_encode_url_component hex (b ∷ value) =
    let rest = percent_encode_url_component hex value in
    if is_unreserved b
    then b ∷ rest
    else 37 ∷ hex_digit hex (b / 16) ∷ hex_digit hex (b % 16) ∷ rest
