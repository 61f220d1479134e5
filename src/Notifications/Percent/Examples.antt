-- ===== src/Notifications/Percent/Examples.antt =====
-- The encoding of two bytes, in both cases of the digits.
use catnap.Common.{false, ◌≡◌, refl, [], ◌∷◌, codes, arith}
use catnap.Notifications.Percent.{
  is_unreserved, hex_digit, upper_hex, lower_hex, percent_encode_url_component,
}
use catnap.Notifications.Percent.Decoded.{plain, decode, hex_table, decode-percent_encode}

encoded_upper : percent_encode_url_component upper_hex (codes "1:k") ≡ codes "1%3Ak"
unfolding percent_encode_url_component is_unreserved hex_digit
encoded_upper = refl

encoded_lower : percent_encode_url_component lower_hex (codes "1:k") ≡ codes "1%3ak"
unfolding percent_encode_url_component is_unreserved hex_digit
encoded_lower = refl

decode-percent_encode_example :
    decode plain (percent_encode_url_component (hex_table false) (58 ∷ 255 ∷ [])) ≡ 58 ∷ 255 ∷ []
decode-percent_encode_example =
    decode-percent_encode false (58 ∷ 255 ∷ []) (omega arith, (omega arith, tt))
