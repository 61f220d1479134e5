-- ===== src/Upstream.antt =====
-- src/upstream.rs: the fetch of a page, from what the site answers and what the parsers find in it.
pub mod Accepted
pub mod Direct
pub mod Examples
use catnap.Common.{
  ℕ, String, Bool, true, false, not, ◌&&◌, ltb, leb, List, [], ◌∷◌, ◌++◌, Option, none, some, ◌==◌,
  eq_string, if◌then◌else◌, trim, is_empty, filter_some, contains, keep, map,
}
use catnap.Listing.Store.{ConfigBase}
use catnap.Listing.Apply.{is_nil}
use catnap.Alerts.Texts.{text}
use catnap.Runs.{RegionFetchDetailed, Upstream, answered, failed}

-- What the parsers find in a page: the ids of its regions, its notice and its packages.
pub record Parsed (X : Type 0) : Type 0 where
  pub regions : List String
  pub region_notice : Option String
  pub configs : List (ConfigBase X)

pub record Response (X : Type 0) : Type 0 where
  pub http_status : ℕ
  pub elapsed_ms : ℕ
  pub bytes : ℕ
  pub parsed : Parsed X

-- The answer to a request, or the error of the connection or of the body.
pub data Answer (X : Type 0) : Type 0 where
  response : Response X → Answer X
  no_response : String → Answer X

-- The site by URL, the digest of a package, how a status is shown, and the time that parsing took.
pub record Site (X : Type 0) : Type 0 where
  pub cart_url : String
  pub get_page : String → Answer X
  pub digest : X → String
  pub shown_status : ℕ → String
  pub parse_elapsed_ms : ℕ

abbrev key_of : {X : Type 0} → (X → String) → ConfigBase X → Option String → String
key_of digest c none = text ("digest:" ∷ digest c.columns ∷ [])
key_of digest c (some pid) = text ("pid:" ∷ trim pid ∷ [])

unfoldable pub config_dedupe_key : {X : Type 0} → (X → String) → ConfigBase X → String
config_dedupe_key digest c =
    key_of digest c (filter_some (λ value. not (is_empty (trim value))) c.source_pid)

unfoldable pub retain_country_direct_configs :
    {X : Type 0} → (X → String) → List (ConfigBase X) → List (ConfigBase X) → List (ConfigBase X)
retain_country_direct_configs digest direct regions =
    if is_nil direct
    then direct
    else if is_nil regions
    then direct
    else keep
        (λ c. not (contains (config_dedupe_key digest c) (map (config_dedupe_key digest) regions)))
        direct

abbrev pub is_success : ℕ → Bool
is_success status = leb 200 status && ltb status 300

abbrev pub page_url : String → String → Option String → String
page_url cart_url fid none = text (cart_url ∷ "?fid=" ∷ fid ∷ [])
page_url cart_url fid (some gid) = text (cart_url ∷ "?fid=" ∷ fid ∷ "&gid=" ∷ gid ∷ [])

abbrev http_error : {X : Type 0} → Site X → ℕ → String → String
http_error site status url = text ("upstream http " ∷ site.shown_status status ∷ " for " ∷ url ∷ [])

-- A value, or the text of an error.
pub data Fallible (A : Type 0) : Type 0 where
  value : A → Fallible A
  error : String → Fallible A

-- The packages of a region's page, in the loop over the regions of a country.
abbrev pub region_page : {X : Type 0} → Site X → String → Answer X → Fallible (List (ConfigBase X))
region_page site url (no_response message) = error message
region_page site url (response r) =
    if is_success r.http_status
    then value r.parsed.configs
    else error (http_error site r.http_status url)

abbrev pub and_then_more :
    {X : Type 0}
    → Fallible (List (ConfigBase X))
    → Fallible (List (ConfigBase X))
    → Fallible (List (ConfigBase X))
and_then_more (error message) rest = error message
and_then_more (value cs) (error message) = error message
and_then_more (value cs) (value more) = value (cs ++ more)

unfoldable pub region_configs :
    {X : Type 0} → Site X → String → List String → Fallible (List (ConfigBase X))
region_configs site fid [] = value []
region_configs site fid (gid ∷ gids) =
    let url = page_url site.cart_url fid (some gid) in
    and_then_more (region_page site url (site.get_page url)) (region_configs site fid gids)

abbrev pub retained :
    {X : Type 0}
    → Site X
    → List (ConfigBase X)
    → Fallible (List (ConfigBase X))
    → Fallible (List (ConfigBase X) × Bool)
retained site direct (error message) = error message
retained site direct (value regions) =
    value (retain_country_direct_configs site.digest direct regions, true)

-- The packages of a page, and whether an empty page proves that there are none.
abbrev pub configs_of :
    {X : Type 0}
    → Site X
    → String
    → Option String
    → Parsed X
    → Fallible (List (ConfigBase X) × Bool)
configs_of site fid (some gid) p = value (p.configs, not (is_nil p.regions))
configs_of site fid none p =
    if is_nil p.regions
    then value (p.configs, false)
    else if is_nil p.configs
    then value (p.configs, true)
    else retained site p.configs (region_configs site fid p.regions)

abbrev pub page_checked :
    {X : Type 0} → Site X → String → Response X → Fallible (List (ConfigBase X) × Bool) → Upstream X
page_checked site url r (error message) = failed message
page_checked site url r (value (configs, authoritative)) =
    if is_nil configs && not authoritative
    then failed (text ("upstream parse produced 0 configs for " ∷ url ∷ []))
    else answered (record {
      url = url;
      http_status = r.http_status;
      bytes = r.bytes;
      elapsed_ms = r.elapsed_ms;
      parse_elapsed_ms = site.parse_elapsed_ms;
      configs = configs;
      region_notice = r.parsed.region_notice;
      empty_result_authoritative = authoritative;
    })

abbrev pub page_read :
    {X : Type 0} → Site X → String → Option String → String → Answer X → Upstream X
page_read site fid gid url (no_response message) = failed message
page_read site fid gid url (response r) =
    if is_success r.http_status
    then page_checked site url r (configs_of site fid gid r.parsed)
    else failed (http_error site r.http_status url)

unfoldable pub fetch_region_configs_detailed :
    {X : Type 0} → Site X → String → Option String → Upstream X
unfolding region_configs retain_country_direct_configs config_dedupe_key
fetch_region_configs_detailed site fid gid =
    let url = page_url site.cart_url fid gid in page_read site fid gid url (site.get_page url)
