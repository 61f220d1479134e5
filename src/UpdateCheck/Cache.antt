-- ===== src/UpdateCheck/Cache.antt =====
-- src/update_check.rs, `maybe_refresh`: one call, by what the server answers.
pub mod Ttl
pub mod Kept
use Prim.Native.Char.{code}
use Prim.Native.String.{[], ◌∷◌}
use catnap.Common.{
  ℕ, zero, suc, ◌+◌, ◌/◌, ◌%◌, max, String, String-append, Bool, true, false, not, ◌&&◌, List,
  Option, none, some, ltb, leb, ◌==◌, eq_nat, if◌then◌else◌, is_empty, is_some, trim, codes,
  contains, get_elem?, unwrap_or, ℤ, pos, negsuc,
}
use catnap.Config.{RuntimeConfig, trimmed}
use catnap.UpdateCheck.{UpdateCheckCache, GitHubRelease, Version, parse_semver_triplet}

abbrev digits : List String
digits = List.◌∷◌ "0" (
    List.◌∷◌ "1" (
      List.◌∷◌ "2" (
        List.◌∷◌ "3" (
          List.◌∷◌ "4"
            (List.◌∷◌ "5" (List.◌∷◌ "6" (List.◌∷◌ "7" (List.◌∷◌ "8" (List.◌∷◌ "9" List.[])))))))))

-- A number in decimal, at most as many digits as the fuel.
unfoldable pub decimal : ℕ → ℕ → String
decimal zero n = []
decimal (suc fuel) n =
    let front = decimal fuel (n / 10) in
    let last = unwrap_or (get_elem? digits (n % 10)) [] in
    if ltb n 10 then last else String-append front last

-- Every `u64` has at most 20 digits.
abbrev show_u64 : ℕ → String
show_u64 = decimal 20

abbrev show_version : Option Version → Option String
show_version none = none
show_version (some v) = some (
    String-append (show_u64 v.major)
      (String-append "." (String-append (show_u64 v.minor) (String-append "." (show_u64 v.patch)))))

-- The same reading as `parse_semver_triplet`, then `format!("{major}.{minor}.{patch}")`.
unfoldable pub normalize_semver_tag : String → Option String
unfolding decimal
normalize_semver_tag tag = show_version (parse_semver_triplet tag)

abbrev cons_unless_slash : Prim.Native.Char.Char → String → String
cons_unless_slash c [] = if code c == 47 then [] else c ∷ []
cons_unless_slash c (d ∷ s) = c ∷ d ∷ s

-- `trim_end_matches('/')`
unfoldable pub trim_end_slashes : String → String
trim_end_slashes [] = []
trim_end_slashes (c ∷ s) = cons_unless_slash c (trim_end_slashes s)

pub data Url : Type 0 where
  url : String → Url
  bad : String → Url

unfoldable pub build_latest_release_url : {F : Type 0} → RuntimeConfig F → Url
unfolding trim_end_slashes
build_latest_release_url cfg =
    let repo = trim cfg.update_repo in
    let base = trim_end_slashes (trim cfg.github_api_base_url) in
    if is_empty repo
    then bad "missing CATNAP_UPDATE_REPO"
    else if not (contains 47 (codes repo))
    then bad "invalid CATNAP_UPDATE_REPO (expected owner/repo)"
    else if is_empty base
    then bad "invalid CATNAP_GITHUB_API_BASE_URL"
    else url (String-append base (String-append "/repos/" (String-append repo "/releases/latest")))

-- What comes of the request: the client cannot be built, the request fails, or a response with its
-- status, its `ETag` where it is a text, and its body where it is a release.
pub data Answer : Type 0 where
  client_failed request_failed : Answer
  responded : ℕ → Option String → Option GitHubRelease → Answer

abbrev failed : UpdateCheckCache → String → UpdateCheckCache
failed next message = record next { last_error = some message }

abbrev pub with_etag : UpdateCheckCache → Option String → UpdateCheckCache
with_etag next none = next
with_etag next (some etag) = record next { etag = some etag }

abbrev pub with_version : UpdateCheckCache → String → Option String → UpdateCheckCache
with_version next tag none = record next {
  latest_version = none;
  last_error = some (String-append "unsupported latest tag: " tag);
}
with_version next tag (some v) = record next { latest_version = some v; last_error = none }

abbrev with_release : UpdateCheckCache → Option GitHubRelease → UpdateCheckCache
with_release next none = failed next "update-check response parse failed"
with_release next (some json) =
    with_version (record next { latest_url = some json.html_url }) json.tag_name
      (normalize_semver_tag json.tag_name)

-- From the call of the server on.
unfoldable pub take_answer : UpdateCheckCache → Answer → UpdateCheckCache
take_answer next client_failed = failed next "update-check client init failed"
take_answer next request_failed = failed next "update-check request failed"
take_answer next (responded status etag body) =
    if status == 304
    then record next { last_error = none }
    else if not (leb 200 status && ltb status 300)
    then failed next (String-append "update-check http " (show_u64 status))
    else with_release (with_etag next (trimmed etag)) body

abbrev pub requested : UpdateCheckCache → Answer → Url → UpdateCheckCache
requested next answer (bad message) = failed next message
requested next answer (url u) = take_answer next answer

-- `max(0)`
abbrev pub ttl_of : ℤ → ℕ
ttl_of (pos n) = n
ttl_of (negsuc n) = 0

abbrev pub is_stale : ℕ → ℕ → Option ℕ → Bool
is_stale now ttl none = true
is_stale now ttl (some at) = leb (at + ttl) now

-- The time is read once for the test and again for the stamp.
unfoldable pub maybe_refresh :
    {F : Type 0}
    → RuntimeConfig F
    → UpdateCheckCache
    → Bool
    → ℕ
    → String
    → ℕ
    → Answer
    → UpdateCheckCache
maybe_refresh cfg cache force now_unix checked_at checked_at_unix answer =
    let next = record cache {
      checked_at = some checked_at;
      checked_at_unix = some checked_at_unix;
    } in
    let refreshed = requested next answer (build_latest_release_url cfg) in
    if not cfg.update_check_enabled
    then cache
    else if force
    then refreshed
    else if is_stale now_unix (ttl_of cfg.update_check_ttl_seconds) cache.checked_at_unix
    then refreshed
    else cache
