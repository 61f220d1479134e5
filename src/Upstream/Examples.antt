-- ===== src/Upstream/Examples.antt =====
-- The fetch of a country's page that repeats a package of its region.
use catnap.Common.{
  ℕ, true, ◌≡◌, refl, [], ◌∷◌, none, some, keep, get, trim, if◌then◌else◌, ◌==◌, eq_string,
}
use catnap.Listing.Store.{ConfigBase}
use catnap.Runs.{RegionFetchDetailed, Surroundings, answered, run_task}
use catnap.Ops.Worker.{answers_from_cache}
use catnap.Ops.State.{task_key_beq}
use catnap.Ops.Reasons.{task_freshness_window_seconds, reason_freshness_window_seconds}
use catnap.Runs.Examples.{setting, plan, surroundings, key, state, world}
use catnap.Upstream.{
  Site, Response, response, region_configs, config_dedupe_key, retain_country_direct_configs,
  fetch_region_configs_detailed,
}
use catnap.Upstream.Accepted.{is_unapplied, never_refused}
use catnap.Upstream.Direct.{not_mirrored, direct_exact}

-- With the same product id as the package of the region, and another id.
abbrev own : ConfigBase ℕ
own = record plan { id = "own"; source_pid = some "9" }

abbrev page : Response ℕ
page = record {
  http_status = 200;
  elapsed_ms = 1;
  bytes = 10;
  parsed = record { regions = "3" ∷ []; region_notice = none; configs = plan ∷ own ∷ [] };
}

abbrev region : Response ℕ
region = record page {
  parsed = record {
    regions = "3" ∷ [];
    region_notice = none;
    configs = record plan { id = "mirrored"; source_pid = some " 9 " } ∷ [];
  };
}

abbrev site : Site ℕ
site = record {
  cart_url = "https://example.com/cart";
  get_page =
      λ url. if url == "https://example.com/cart?fid=7" then response page else response region;
  digest = λ x. "d";
  shown_status = λ n. "200";
  parse_elapsed_ms = 0;
}

abbrev fetch : RegionFetchDetailed ℕ
fetch = record {
  url = "https://example.com/cart?fid=7";
  http_status = 200;
  bytes = 10;
  elapsed_ms = 1;
  parse_elapsed_ms = 0;
  configs = plan ∷ [];
  region_notice = none;
  empty_result_authoritative = true;
}

direct_exact_example :
    plan ∷ [] ≡ keep (not_mirrored site (region.parsed.configs)) (plan ∷ own ∷ [])
unfolding region_configs fetch_region_configs_detailed retain_country_direct_configs
    config_dedupe_key trim
direct_exact_example = direct_exact site "7" page region.parsed.configs fetch refl refl refl

-- A page that is read, and a transaction that is undone.
abbrev reading : Surroundings ℕ
reading = record surroundings {
  upstream = answered fetch;
  failed_statement = some "database is locked";
}

reading_is_fetched : answered fetch ≡ fetch_region_configs_detailed site "7" none
unfolding region_configs fetch_region_configs_detailed retain_country_direct_configs
    config_dedupe_key trim
reading_is_fetched = refl

never_refused_example : is_unapplied (run_task setting reading state state key world).result ≡ true
unfolding answers_from_cache get task_key_beq task_freshness_window_seconds
    reason_freshness_window_seconds
never_refused_example = never_refused setting reading state state key world site reading_is_fetched
