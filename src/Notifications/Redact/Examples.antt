-- ===== src/Notifications/Redact/Examples.antt =====
-- The token "1:ab" in texts, with a space in it, after `bot`, and inside a longer word.
use catnap.Common.{◌≡◌, refl, some, codes, is_whitespace}
use catnap.Notifications.Redact.{
  token_length, has_bot_prefix, match_token_boundaries, redacted_here, redact_from,
  redact_with_optional_whitespace,
}

split_redacted :
    redact_with_optional_whitespace (codes "at 1:a b!") (codes "1:ab")
    ≡ some (codes "at [REDACTED]!")
unfolding redact_with_optional_whitespace redact_from redacted_here token_length
    match_token_boundaries has_bot_prefix is_whitespace
split_redacted = refl

bot_redacted :
    redact_with_optional_whitespace (codes "/bot1:abc") (codes "1:ab")
    ≡ some (codes "/bot[REDACTED]c")
unfolding redact_with_optional_whitespace redact_from redacted_here token_length
    match_token_boundaries has_bot_prefix is_whitespace
bot_redacted = refl

longer_kept :
    redact_with_optional_whitespace (codes "x1:abc") (codes "1:ab") ≡ some (codes "x1:abc")
unfolding redact_with_optional_whitespace redact_from redacted_here token_length
    match_token_boundaries has_bot_prefix is_whitespace
longer_kept = refl
