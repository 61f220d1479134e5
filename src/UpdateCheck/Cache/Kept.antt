-- ===== src/UpdateCheck/Cache/Kept.antt =====
-- What a check that fails leaves.
use catnap.Common.{
  ℕ, String, ◌&&◌, not, Bool, true, false, ◌≡◌, refl, Option, none, some, ltb, leb, if◌then◌else◌,
  ◌==◌, eq_nat, Bool-cases, inl, inr,
}
use catnap.Config.{RuntimeConfig, trimmed}
use catnap.UpdateCheck.{UpdateCheckCache, GitHubRelease}
use catnap.UpdateCheck.Cache.{
  with_etag, requested, is_stale, ttl_of, Answer, client_failed, request_failed, responded,
  take_answer, build_latest_release_url, maybe_refresh, Url, url, bad,
}

-- Whether an answer carries a release.
abbrev pub carries_release : Answer → Bool
carries_release client_failed = false
carries_release request_failed = false
carries_release (responded status etag none) = false
carries_release (responded status etag (some r)) = leb 200 status && ltb status 300

abbrev Keeps : UpdateCheckCache → UpdateCheckCache → Type 0
Keeps before after =
    (after.latest_version ≡ before.latest_version) × (after.latest_url ≡ before.latest_url)

with_etag-Keeps :
    (next : UpdateCheckCache) (etag : Option String) → Keeps next (with_etag next etag)
with_etag-Keeps next none = (refl, refl)
with_etag-Keeps next (some e) = (refl, refl)

take_answer-Keeps :
    (next : UpdateCheckCache) (answer : Answer)
    → carries_release answer ≡ false
    → Keeps next (take_answer next answer)
unfolding take_answer
take_answer-Keeps next client_failed h = (refl, refl)
take_answer-Keeps next request_failed h = (refl, refl)
take_answer-Keeps next (responded status etag none) h = elim (Bool-cases (status == 304)) [
  | inl same ↦ rw (same, take_answer) (refl, refl)
  | inr other ↦ elim (Bool-cases (leb 200 status && ltb status 300)) [
    | inl fine ↦ rw (other, take_answer) (rw fine (with_etag-Keeps next (trimmed etag)))
    | inr failing ↦ rw (other, take_answer) (rw failing (refl, refl))
  ]
]
take_answer-Keeps next (responded status etag (some r)) h = elim (Bool-cases (status == 304)) [
  | inl same ↦ rw (same, take_answer) (refl, refl)
  | inr other ↦ rw (other, take_answer) (rw h (refl, refl))
]

requested-Keeps :
    (next : UpdateCheckCache) (answer : Answer) (u : Url)
    → carries_release answer ≡ false
    → Keeps next (requested next answer u)
requested-Keeps next answer (url u) h = take_answer-Keeps next answer h
requested-Keeps next answer (bad message) h = (refl, refl)

choice-cases :
    {A : Type 0} (P : A → Type 0) (on force stale : Bool) {kept changed : A}
    → P kept
    → P changed
    → P (if not on then kept else if force then changed else if stale then changed else kept)
choice-cases P false force stale k c = k
choice-cases P true true stale k c = c
choice-cases P true false true k c = c
choice-cases P true false false k c = k

-- A call leaves the cache, or does what the server answers to it with the new times.
refresh-cases :
    {F : Type 0} (P : UpdateCheckCache → Type 0) (cfg : RuntimeConfig F) (cache : UpdateCheckCache)
    (force : Bool) (now_unix : ℕ) (checked_at : String) (checked_at_unix : ℕ) (answer : Answer)
    → P cache
    → P (
        requested
          (record cache { checked_at = some checked_at; checked_at_unix = some checked_at_unix })
          answer
          (build_latest_release_url cfg))
    → P (maybe_refresh cfg cache force now_unix checked_at checked_at_unix answer)
unfolding maybe_refresh
refresh-cases P cfg cache force now_unix checked_at checked_at_unix answer kept changed =
    choice-cases P cfg.update_check_enabled force
      (is_stale now_unix (ttl_of cfg.update_check_ttl_seconds) cache.checked_at_unix) kept changed

-- A call whose answer carries no release, whether the request failed, the status was an error or not
-- modified, or the body was no release, leaves the version and the URL that are known.
pub unanswered_keeps :
    {F : Type 0} (cfg : RuntimeConfig F) (cache : UpdateCheckCache) (force : Bool) (now_unix : ℕ)
    (checked_at : String) (checked_at_unix : ℕ) (answer : Answer)
    → carries_release answer ≡ false
    → let next = maybe_refresh cfg cache force now_unix checked_at checked_at_unix answer in
      (next.latest_version ≡ cache.latest_version) × (next.latest_url ≡ cache.latest_url)
unanswered_keeps cfg cache force now_unix checked_at checked_at_unix answer h =
    refresh-cases (Keeps cache) cfg cache force now_unix checked_at checked_at_unix answer
      (refl, refl)
      (requested-Keeps
        (record cache { checked_at = some checked_at; checked_at_unix = some checked_at_unix })
        answer (build_latest_release_url cfg) h)

-- A response of status 200 whose body is no release still sets the tag that the next request sends:
-- if the server
-- then answers that nothing was modified, the error is cleared, and the version stays what it was
-- before the response.
unread_release_is_forgotten :
    (next : UpdateCheckCache) (tag : String) (etag : Option String) (body : Option GitHubRelease)
    → trimmed (some tag) ≡ some tag
    → let lost = take_answer next (responded 200 (some tag) none) in
      let after = take_answer lost (responded 304 etag body) in
      (lost.etag ≡ some tag)
      × (after.etag ≡ some tag)
      × (after.last_error ≡ none)
      × (after.latest_version ≡ next.latest_version)
unfolding take_answer
unread_release_is_forgotten next tag etag body h = rw h (refl, refl, refl, refl)
