-- ===== src/Listing/Apply.antt =====
-- src/db.rs: `apply_catalog_url_fetch_success`, `retire_catalog_targets` and
-- `archive_all_delisted_configs`. Each is one transaction: a failing statement leaves the store.
use catnap.Common.{
  String, Bool, true, false, not, ◌&&◌, ◌||◌, List, [], ◌∷◌, ◌++◌, Option, none, some, ◌==◌,
  eq_string, eq_option, eq_pair, if◌then◌else◌, get, insert, remove, contains, keep, map, map_some,
  dedup, ℤ, filter_some, is_empty, trim, is_some,
}
use catnap.Catalog.{catalog_region_key}
use catnap.Topology.Targets.{Target}
use catnap.Listing.Store.{
  ConfigBase, LifecycleState, active, delisted, is_active, ConfigRow, UrlCache, NoticeRow, Store,
  is_positive, is_zero, not_negative, event_at, new_row,
}

-- What a page gave, with the time of the fetch and its minute, where that can be written.
pub record Fetched (X : Type 0) : Type 0 where
  pub fid : String
  pub gid : Option String
  pub url_key : String
  pub url : String
  pub configs : List (ConfigBase X)
  pub region_notice : Option String
  pub empty_result_authoritative : Bool
  pub fetched_at : String
  pub ts_minute : Option String

pub record ApplyCatalogUrlResult : Type 0 where
  pub listed_ids : List String
  pub listed_event_ids : List String
  pub listed_pending_zero_stock_ids : List String
  pub delisted_ids : List String
  pub fetched_at : String

-- `source_fid = ? AND (both gids NULL, or equal)`
abbrev pub is_from : {X : Type 0} → String → Option String → ConfigRow X → Bool
is_from fid gid row = row.source_fid == some fid && row.source_gid == gid

abbrev pub ids_where :
    {X : Type 0} → (ConfigRow X → Bool) → List (String × ConfigRow X) → List String
ids_where p rows = map (λ r. r.0) (keep (λ r. p r.1) rows)

abbrev pub cached_ids : Option UrlCache → List String → List String
cached_ids none ids = ids
cached_ids (some cache) ids = cache.config_ids

unfoldable pub previous_ids : {X : Type 0} → Store X → Fetched X → List String
previous_ids s f =
    cached_ids (get f.url_key s.url_cache)
      (ids_where (λ row. is_from f.fid f.gid row && is_active row.lifecycle_state) s.configs)

abbrev pub config_ids : {X : Type 0} → List (ConfigBase X) → List String
config_ids = map (λ c. c.id)

-- A package that is listed as active, with no announcement that is noted.
abbrev pub is_unannounced : {X : Type 0} → Option (ConfigRow X) → Bool
is_unannounced none = false
is_unannounced (some row) =
    is_active row.lifecycle_state
    && not (is_some (filter_some (λ v. not (is_empty (trim v))) row.listed_event_at))

abbrev pub announces :
    {X : Type 0} → List String → List (String × ConfigRow X) → ConfigBase X → Bool
announces previous rows c =
    is_positive c.quantity && (not (contains c.id previous) || is_unannounced (get c.id rows))

abbrev first_time : Option String → String → Option String
first_time none at = some at
first_time (some t) at = if t == "1970-01-01T00:00:00Z" then some at else some t

abbrev listed_time : LifecycleState → Option String → String → Option String
listed_time delisted old at = some at
listed_time active old at = first_time old at

abbrev event_time : LifecycleState → Option String → Option String → Option String
event_time delisted old new = new
event_time active none new = new
event_time active (some t) new = some t

abbrev coalesce : Option String → Option String → Option String
coalesce none b = b
coalesce (some a) b = some a

-- `ON CONFLICT(id) DO UPDATE`. The new event time is NULL itself where nothing is in stock.
abbrev pub upserted_row : {X : Type 0} → String → ConfigBase X → Option (ConfigRow X) → ConfigRow X
upserted_row at c none = new_row at c
upserted_row at c (some old) = record (new_row at c) {
  listed_at = listed_time old.lifecycle_state old.listed_at at;
  listed_event_at = event_time old.lifecycle_state old.listed_event_at (event_at at c.quantity);
  source_pid = coalesce c.source_pid old.source_pid;
}

unfoldable pub upsert_configs :
    {X : Type 0}
    → String
    → List (ConfigBase X)
    → List (String × ConfigRow X)
    → List (String × ConfigRow X)
upsert_configs at [] rows = rows
upsert_configs at (c ∷ cs) rows =
    upsert_configs at cs (insert c.id (upserted_row at c (get c.id rows)) rows)

unfoldable pub write_samples :
    {X : Type 0}
    → Option String
    → List (ConfigBase X)
    → List ((String × String) × ℤ)
    → List ((String × String) × ℤ)
write_samples none cs samples = samples
write_samples (some minute) [] samples = samples
write_samples (some minute) (c ∷ cs) samples =
    write_samples (some minute) cs (insert (c.id, minute) (not_negative c.quantity) samples)

-- A row that is delisted keeps the time at which it was.
abbrev pub delist_row : {X : Type 0} → String → ConfigRow X → ConfigRow X
delist_row at row = elim row.lifecycle_state [
  | delisted ↦ row
  | active ↦ record row {
    lifecycle_state = delisted;
    delisted_at = some at;
    listed_event_at = none;
  }
]

unfoldable pub delist_where :
    {X : Type 0}
    → (String → ConfigRow X → Bool)
    → (ConfigRow X → ConfigRow X)
    → List (String × ConfigRow X)
    → List (String × ConfigRow X)
delist_where p f [] = []
delist_where p f ((id, row) ∷ rows) = (id, if p id row then f row else row) ∷ delist_where p f rows

abbrev pub notice_of : Option String → Option String
notice_of text = filter_some (λ v. not (is_empty v)) (map_some trim text)

abbrev pub set_notice :
    {X : Type 0} → Fetched X → Option String → List (String × NoticeRow) → List (String × NoticeRow)
set_notice f none notices = remove f.url_key notices
set_notice f (some text) notices =
    insert f.url_key
      (record { country_id = f.fid; region_id = f.gid; text = text; updated_at = f.fetched_at })
      notices

abbrev pub is_nil : {A : Type 0} → List A → Bool
is_nil [] = true
is_nil (x ∷ xs) = false

-- The ids of a page, as a set.
abbrev pub fetched_ids : {X : Type 0} → Fetched X → List String
fetched_ids f = dedup (λ id. id) [] (config_ids f.configs)

abbrev pub listed_ids_of : {X : Type 0} → List String → Fetched X → List String
listed_ids_of previous f = keep (λ id. not (contains id previous)) (fetched_ids f)

abbrev pub delisted_ids_of : {X : Type 0} → List String → Fetched X → List String
delisted_ids_of previous f =
    keep (λ id. not (contains id (fetched_ids f))) (dedup (λ id. id) [] previous)

-- The result, from the ids that the page had before.
abbrev pub result_of : {X : Type 0} → List String → Store X → Fetched X → ApplyCatalogUrlResult
result_of previous s f = record {
  listed_ids = listed_ids_of previous f;
  listed_event_ids = config_ids (keep (announces previous s.configs) f.configs);
  listed_pending_zero_stock_ids =
      config_ids (keep (λ c. not (contains c.id previous) && is_zero c.quantity) f.configs);
  delisted_ids = delisted_ids_of previous f;
  fetched_at = f.fetched_at;
}

unfoldable pub written : {X : Type 0} → List String → Store X → Fetched X → Store X
written previous s f = record {
  configs =
      delist_where (λ id row. contains id (delisted_ids_of previous f)) (delist_row f.fetched_at)
        (upsert_configs f.fetched_at f.configs s.configs);
  url_cache =
      insert f.url_key
        (record {
          url = f.url;
          config_ids = config_ids f.configs;
          last_success_at = f.fetched_at;
          updated_at = f.fetched_at;
        })
        s.url_cache;
  notices = set_notice f (notice_of f.region_notice) s.notices;
  archives = keep (λ a. not (contains a.1 (fetched_ids f))) s.archives;
  samples = write_samples f.ts_minute f.configs s.samples;
}

-- An empty page that proves nothing does not delist what was there.
abbrev pub refuses : {X : Type 0} → List String → Fetched X → Bool
refuses previous f = is_nil f.configs && not (is_nil previous) && not f.empty_result_authoritative

unfoldable pub apply_catalog_url_fetch_success :
    {X : Type 0} → Store X → Fetched X → Option (Store X × ApplyCatalogUrlResult)
unfolding written
apply_catalog_url_fetch_success s f =
    let previous = previous_ids s f in
    if refuses previous f then none else some (written previous s f, result_of previous s f)

-- The update of `retire_catalog_targets` leaves the time of the announcement.
abbrev pub retire_row : {X : Type 0} → String → ConfigRow X → ConfigRow X
retire_row at row = record row { lifecycle_state = delisted; delisted_at = some at }

abbrev pub is_retired : {X : Type 0} → Target → ConfigRow X → Bool
is_retired t row = is_from t.0 t.1 row && is_active row.lifecycle_state

unfoldable pub retire_catalog_targets :
    {X : Type 0} → String → List Target → Store X → Store X × List String
retire_catalog_targets at [] s = (s, [])
retire_catalog_targets at (t ∷ ts) s =
    let retired = record s {
      configs = delist_where (λ id row. is_retired t row) (retire_row at) s.configs;
      url_cache = remove (catalog_region_key t.0 t.1) s.url_cache;
    } in
    let rest = retire_catalog_targets at ts retired in
    (rest.0, ids_where (is_retired t) s.configs ++ rest.1)

-- The order of the ids that are returned is left open.
unfoldable pub archive_all_delisted_configs :
    {X : Type 0} → String → Store X → Store X × List String
archive_all_delisted_configs user s =
    let ids =
      keep (λ id. not (contains (user, id) s.archives))
        (ids_where (λ row. not (is_active row.lifecycle_state)) s.configs) in
    (record s { archives = s.archives ++ map (λ id. (user, id)) ids }, ids)
