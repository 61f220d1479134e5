-- ===== src/Upstream/Direct.antt =====
-- Which packages of a country's own page are taken: those that no page of its regions has.
use catnap.Common.{
  String, Bool, true, false, not, ◌&&◌, ◌≡◌, refl, sym, ap, ◌∙◌, List, [], ◌∷◌, Option, none, some,
  eq_string, if◌then◌else◌, contains, keep, map, Bool-cases, inl, inr, some_inj, none-ne-some,
}
use catnap.Listing.Store.{ConfigBase}
use catnap.Listing.Apply.{is_nil}
use catnap.Runs.{RegionFetchDetailed, Upstream, answered, failed}
use catnap.Upstream.{
  Site, response, Response, Parsed, Fallible, value, error, is_success, configs_of, page_checked,
  page_read, retained, page_url, region_configs, config_dedupe_key, retain_country_direct_configs,
  fetch_region_configs_detailed,
}

abbrev pub not_mirrored : {X : Type 0} → Site X → List (ConfigBase X) → ConfigBase X → Bool
not_mirrored site cs c =
    not (contains (config_dedupe_key site.digest c) (map (config_dedupe_key site.digest) cs))

keep-all : {A : Type 0} (xs : List A) → keep (λ x. true) xs ≡ xs
keep-all [] = refl
keep-all (x ∷ xs) = ap (λ ys. x ∷ ys) (keep-all xs)

retain-keep :
    {X : Type 0} (site : Site X) (direct cs : List (ConfigBase X))
    → retain_country_direct_configs site.digest direct cs ≡ keep (not_mirrored site cs) direct
unfolding retain_country_direct_configs
retain-keep site [] cs = refl
retain-keep site (c ∷ direct) [] = sym (keep-all (c ∷ direct))
retain-keep site (c ∷ direct) (d ∷ cs) = refl

-- What is taken, of the regions and of the packages of the page itself.
abbrev Taken : {X : Type 0} → Fallible (List (ConfigBase X) × Bool) → List (ConfigBase X) → Type 0
Taken o cs = (b : Bool) × (o ≡ value (cs, b))

abbrev values : {X : Type 0} → Fallible (List (ConfigBase X)) → List (ConfigBase X)
values (value cs) = cs
values (error message) = []

country-Taken :
    {X : Type 0} (site : Site X) (fid : String) (regions : List String)
    (direct cs : List (ConfigBase X))
    → region_configs site fid regions ≡ value cs
    → Taken
        (if is_nil regions
          then value (direct, false)
          else if is_nil direct
          then value (direct, true)
          else retained site direct (region_configs site fid regions))
        (keep (not_mirrored site cs) direct)
unfolding region_configs
country-Taken site fid [] direct cs h = (
  false,
  ap (λ xs. value (xs, false))
      (sym (keep-all direct) ∙ ap (λ ys. keep (not_mirrored site ys) direct) (ap values h)),
)
country-Taken site fid (gid ∷ gids) [] cs h = (true, refl)
country-Taken site fid (gid ∷ gids) (c ∷ direct) cs h = (
  true,
  ap (retained site (c ∷ direct)) h
      ∙ ap (λ xs. value (xs, true)) (retain-keep site (c ∷ direct) cs),
)

configs_of-country :
    {X : Type 0} (site : Site X) (fid : String) (p : Parsed X) (cs : List (ConfigBase X))
    → region_configs site fid p.regions ≡ value cs
    → Taken (configs_of site fid none p) (keep (not_mirrored site cs) p.configs)
configs_of-country site fid p cs h = country-Taken site fid p.regions p.configs cs h

-- The packages of an answer.
abbrev taken : {X : Type 0} → Upstream X → Option (List (ConfigBase X))
taken (failed message) = none
taken (answered d) = some d.configs

page_checked-taken :
    {X : Type 0} (site : Site X) (url : String) (r : Response X) (cs : List (ConfigBase X))
    (b : Bool) (d : RegionFetchDetailed X)
    → page_checked site url r (value (cs, b)) ≡ answered d
    → d.configs ≡ cs
page_checked-taken site url r cs b d h = elim (Bool-cases (is_nil cs && not b)) [
  | inl empty ↦ absurd (none-ne-some (ap taken (rw empty at h)))
  | inr fine ↦ sym (some_inj (ap taken (rw fine at h)))
]

-- Where a country's page is answered with success and those of its regions are read, and the fetch
-- gives packages, they are those of the country's page whose key no package of the regions has.
pub direct_exact :
    {X : Type 0} (site : Site X) (fid : String) (r : Response X) (cs : List (ConfigBase X))
    (d : RegionFetchDetailed X)
    → site.get_page (page_url site.cart_url fid none) ≡ response r
    → region_configs site fid r.parsed.regions ≡ value cs
    → fetch_region_configs_detailed site fid none ≡ answered d
    → d.configs ≡ keep (not_mirrored site cs) r.parsed.configs
unfolding fetch_region_configs_detailed
direct_exact site fid r cs d got regions h =
    let url = page_url site.cart_url fid none in
    let read = sym (ap (page_read site fid none url) got) ∙ h in
    let (b, all) = configs_of-country site fid r.parsed cs regions in
    elim (Bool-cases (is_success r.http_status)) [
      | inl ok ↦
          page_checked-taken site url r (keep (not_mirrored site cs) r.parsed.configs) b d
            (sym (ap (page_checked site url r) all) ∙ (rw ok at read))
      | inr bad ↦ absurd (none-ne-some (ap taken (rw bad at read)))
    ]
