-- ===== src/UpdateCheck.antt =====
-- src/update_check.rs: the cached check for a newer release.
pub mod Order
pub mod Cache
pub mod Examples
use catnap.Common.{
  ℕ, ◌+◌, ◌*◌, String, String-append, Bool, true, false, not, ◌&&◌, ◌||◌, List, [], ◌∷◌, ◌++◌,
  Option, none, some, ltb, leb, ◌==◌, eq_nat, if◌then◌else◌, filter_some, map_some, and_then,
  unwrap_or, is_empty, is_some, trim, codes, contains, parse_u64, ℤ, pos, negsuc,
}
use catnap.Config.{RuntimeConfig}

pub record UpdateCheckCache : Type 0 where
  pub checked_at : Option String
  pub checked_at_unix : Option ℕ
  pub etag : Option String
  pub latest_version : Option String
  pub latest_url : Option String
  pub last_error : Option String

-- `UpdateCheckCache::default`
abbrev pub new_cache : UpdateCheckCache
new_cache = record {
  checked_at = none;
  checked_at_unix = none;
  etag = none;
  latest_version = none;
  latest_url = none;
  last_error = none;
}

pub record GitHubRelease : Type 0 where
  pub tag_name : String
  pub html_url : String

-- `split('.')`: the pieces between full stops, of which there is at least one.
unfoldable pub split_dots : List ℕ → List ℕ → List (List ℕ)
split_dots piece [] = piece ∷ []
split_dots piece (c ∷ cs) =
    let inside = split_dots (piece ++ c ∷ []) cs in
    let after = piece ∷ split_dots [] cs in if c == 46 then after else inside

abbrev strip_v : List ℕ → List ℕ
strip_v [] = []
strip_v (c ∷ cs) = if c == 118 then cs else c ∷ cs

pub record Version : Type 0 where
  pub major : ℕ
  pub minor : ℕ
  pub patch : ℕ

abbrev pub three_numbers : List (List ℕ) → Option Version
three_numbers [] = none
three_numbers (a ∷ []) = none
three_numbers (a ∷ b ∷ []) = none
three_numbers (a ∷ b ∷ c ∷ (d ∷ more)) = none
three_numbers (a ∷ b ∷ c ∷ []) = and_then (parse_u64 a) (λ major. and_then (parse_u64 b) (λ minor.
    and_then (parse_u64 c)
      (λ patch. some (record { major = major; minor = minor; patch = patch }))))

unfoldable pub parse_semver_triplet : String → Option Version
unfolding split_dots
parse_semver_triplet v = three_numbers (split_dots [] (strip_v (codes (trim v))))

-- `a < b` on the triples.
abbrev pub version_ltb : Version → Version → Bool
version_ltb a b =
    ltb a.major b.major
    || (a.major == b.major && (ltb a.minor b.minor || (a.minor == b.minor && ltb a.patch b.patch)))

abbrev pub newer : Option Version → Option Version → Bool
newer none b = false
newer (some a) none = false
newer (some a) (some b) = version_ltb a b

unfoldable pub is_update_available : String → String → Bool
is_update_available current latest =
    newer (parse_semver_triplet current) (parse_semver_triplet latest)
