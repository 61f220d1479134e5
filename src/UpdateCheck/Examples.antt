-- ===== src/UpdateCheck/Examples.antt =====
-- The check for a newer release at concrete calls.
use catnap.Common.{
  String, Bool, true, ◌≡◌, refl, none, some, trim, trim_start, trim_end, is_whitespace, parse_u64,
  parse_digits,
}
use catnap.Config.Examples.{config}
use catnap.UpdateCheck.{
  UpdateCheckCache, new_cache, parse_semver_triplet, split_dots, is_update_available,
}
use catnap.UpdateCheck.Cache.{maybe_refresh, responded}
use catnap.UpdateCheck.Cache.Kept.{unanswered_keeps}

-- What a comparison computes with.
compare_versions : String → String → Bool
unfolding is_update_available parse_semver_triplet split_dots trim trim_start trim_end is_whitespace
    parse_u64 parse_digits
compare_versions a b = is_update_available a b

nine_then_ten : is_update_available "0.9.1" "v0.10.0" ≡ true
unfolding is_update_available parse_semver_triplet split_dots trim trim_start trim_end is_whitespace
    parse_u64 parse_digits
nine_then_ten = refl

ten_then_one : is_update_available "v0.10.0" "1.0.0" ≡ true
unfolding is_update_available parse_semver_triplet split_dots trim trim_start trim_end is_whitespace
    parse_u64 parse_digits
ten_then_one = refl

abbrev checked : UpdateCheckCache
checked = record new_cache { checked_at_unix = some 1000; latest_version = some "0.2.0" }

unanswered_keeps_example :
    let next = maybe_refresh config checked true 5000 "t" 5000 (responded 503 none none) in
    (next.latest_version ≡ some "0.2.0") × (next.latest_url ≡ none)
unanswered_keeps_example =
    unanswered_keeps config checked true 5000 "t" 5000 (responded 503 none none) refl
