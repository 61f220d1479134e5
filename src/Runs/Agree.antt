-- ===== src/Runs/Agree.antt =====
-- The notices of the catalog in memory and those of the database.
use catnap.Common.{
  ℕ, String, Bool, true, false, not, ◌&&◌, ◌≡◌, refl, sym, ap, ◌∙◌, List, [], ◌∷◌, ◌++◌, Option,
  none, some, ◌==◌, ==_iff, ==_refl, eq_string, eq_option, if◌then◌else◌, get, get-insert,
  get-remove, get-remove_self, get-insert_self, keep, map, map_some, arith,
}
use catnap.Catalog.{RegionNotice, CatalogSnapshot, catalog_region_key}
use catnap.Listing.Store.{Store, NoticeRow, UrlCache}
use catnap.Listing.Apply.{
  Fetched, ApplyCatalogUrlResult, notice_of, set_notice, written, apply_catalog_url_fetch_success,
}
use catnap.Listing.Exact.{applied-written}
use catnap.Ops.Worker.{answers_from_cache}
use catnap.Ops.Reasons.{ReasonCounts, task_freshness_window_seconds}
use catnap.Ops.State.{TaskKey, RuntimeState, eq_task_key}
use catnap.Runs.{
  Setting, Surroundings, RegionFetchDetailed, Upstream, answered, failed, World, page_of,
  pushed_notice, upsert_region_notice_in_snapshot, task_applied, unless_failed, task_fetched,
  task_answered, initial_state, current_lifecycle_notify_state, cache_row, run_task,
}

abbrev is_at : String → Option String → RegionNotice → Bool
is_at fid gid n = n.country_id == fid && n.region_id == gid

-- The texts that the catalog shows for a place, and what the database has for it.
abbrev pub shown_notices : CatalogSnapshot → String → Option String → List String
shown_notices catalog fid gid = map (λ n. n.text) (keep (is_at fid gid) catalog.region_notices)

abbrev texts_of : Option NoticeRow → List String
texts_of none = []
texts_of (some row) = row.text ∷ []

abbrev pub stored_notices : {X : Type 0} → Store X → String → Option String → List String
stored_notices s fid gid = texts_of (get (catalog_region_key fid gid) s.notices)

keep-dropped :
    {A : Type 0} (p : A → Bool) (xs ys : List A)
    → keep p (keep (λ x. not (p x)) xs ++ ys) ≡ keep p ys
keep-dropped p [] ys = refl
keep-dropped p (x ∷ xs) ys = ground (arith, keep-dropped p xs ys)

keep-apart :
    {A : Type 0} (p q : A → Bool)
    → ((x : A) → p x ≡ true → q x ≡ false)
    → (xs ys : List A) → keep p ys ≡ []
    → keep p (keep (λ x. not (q x)) xs ++ ys) ≡ keep p xs
keep-apart p q apart [] ys h = h
keep-apart p q apart (x ∷ xs) ys h = ground (arith, apart x, keep-apart p q apart xs ys h)

places_same :
    (fid : String) (gid : Option String) (key : TaskKey) (x : RegionNotice)
    → is_at fid gid x ≡ true
    → is_at key.fid key.gid x ≡ true
    → (catalog_region_key key.fid key.gid == catalog_region_key fid gid) ≡ true
places_same fid gid key x h k =
    let first =
      sym ((==_iff x.country_id key.fid).0 (ground (arith, k)))
      ∙ (==_iff x.country_id fid).0 (ground (arith, h)) in
    let second =
      sym ((==_iff x.region_id key.gid).0 (ground (arith, k)))
      ∙ (==_iff x.region_id gid).0 (ground (arith, h)) in
    (==_iff (catalog_region_key key.fid key.gid) (catalog_region_key fid gid)).1
      (ap (λ v. catalog_region_key v key.gid) first ∙ ap (catalog_region_key fid) second)

abbrev items_of : Option String → List String
items_of none = []
items_of (some t) = t ∷ []

pushed_self :
    (fid : String) (gid t : Option String)
    → map (λ n. n.text) (keep (is_at fid gid) (pushed_notice fid gid t)) ≡ items_of t
pushed_self fid gid none = refl
pushed_self fid gid (some t) = rw (==_refl fid, ==_refl gid) refl

pushed-other :
    (fid : String) (gid : Option String) (key : TaskKey) (t : Option String)
    → (catalog_region_key key.fid key.gid == catalog_region_key fid gid) ≡ false
    → keep (is_at fid gid) (pushed_notice key.fid key.gid t) ≡ []
pushed-other fid gid key none h = refl
pushed-other fid gid key (some t) h =
    let n : RegionNotice = record { country_id = key.fid; region_id = key.gid; text = t } in
    ground (arith, h, places_same fid gid key n, ==_refl key.fid, ==_refl key.gid)

module _ (key : TaskKey) (at : String) (catalog : CatalogSnapshot) (notice : Option String) where
  abbrev upserted : CatalogSnapshot
  upserted =
      upsert_region_notice_in_snapshot key.fid key.gid notice (record catalog { fetched_at = at })

  shown_self : shown_notices upserted key.fid key.gid ≡ items_of (notice_of notice)
  unfolding upsert_region_notice_in_snapshot
  shown_self =
      ap (map (λ n. n.text)) (
        keep-dropped (is_at key.fid key.gid) catalog.region_notices
          (pushed_notice key.fid key.gid (notice_of notice)))
      ∙ pushed_self key.fid key.gid (notice_of notice)

  shown-other :
      (fid : String) (gid : Option String)
      → (catalog_region_key key.fid key.gid == catalog_region_key fid gid) ≡ false
      → shown_notices upserted fid gid ≡ shown_notices catalog fid gid
  unfolding upsert_region_notice_in_snapshot
  shown-other fid gid h = ap (map (λ n. n.text)) (
      keep-apart (is_at fid gid) (is_at key.fid key.gid)
        (λ x e. ground (arith, places_same fid gid key x e, h)) catalog.region_notices
        (pushed_notice key.fid key.gid (notice_of notice))
        (pushed-other fid gid key (notice_of notice) h))

module _ {X : Type 0} (f : Fetched X) (notices : List (String × NoticeRow)) where
  stored_self : (t : Option String) → texts_of (get f.url_key (set_notice f t notices)) ≡ items_of t
  stored_self none = rw (get-remove_self f.url_key notices) refl
  stored_self (some t) = rw (get-insert_self f.url_key _ notices) refl

  stored-other :
      (other : String) (t : Option String)
      → (f.url_key == other) ≡ false
      → texts_of (get other (set_notice f t notices)) ≡ texts_of (get other notices)
  stored-other other none h = rw (get-remove f.url_key other notices, h) refl
  stored-other other (some t) h = rw (get-insert f.url_key other _ notices, h) refl

abbrev Agree : {X : Type 0} → World X → String → Option String → Type 0
Agree w fid gid = shown_notices w.catalog fid gid ≡ stored_notices w.store fid gid

module _ {X F Z : Type 0} (g : Setting X F Z) (sur : Surroundings X) (key : TaskKey)
    (notify : ReasonCounts × List String) (window : Option ℕ) (w : World X) (fid : String)
    (gid : Option String) (here : Agree w key.fid key.gid) (there : Agree w fid gid)
    (apart : (catalog_region_key key.fid key.gid == catalog_region_key fid gid) ≡ false) where
  Agree-applied :
      (d : RegionFetchDetailed X) (o : Option (Store X × ApplyCatalogUrlResult))
      → apply_catalog_url_fetch_success w.store (page_of sur key d) ≡ o
      → let after = (task_applied g sur key notify window w d o).world in
        Agree after key.fid key.gid × Agree after fid gid
  unfolding written
  Agree-applied d none e = (here, there)
  Agree-applied d (some (s, r)) e =
      let f = page_of sur key d in
      let same = ap (λ p. p.0) (applied-written w.store f s r e) in
      let notice = notice_of d.region_notice in
      (
        shown_self key r.fetched_at w.catalog d.region_notice
            ∙ sym (stored_self f w.store.notices notice)
            ∙ ap (λ t. stored_notices t key.fid key.gid) same,
        shown-other key r.fetched_at w.catalog d.region_notice fid gid apart
            ∙ there
            ∙ sym (stored-other f w.store.notices (catalog_region_key fid gid) notice apart)
            ∙ ap (λ t. stored_notices t fid gid) same,
      )

  Agree-undone :
      (failure : Option String) (d : RegionFetchDetailed X)
      → let applied = apply_catalog_url_fetch_success w.store (page_of sur key d) in
        let after =
          (task_applied g sur key notify window w d (unless_failed failure applied)).world in
        Agree after key.fid key.gid × Agree after fid gid
  Agree-undone none d =
      Agree-applied d (apply_catalog_url_fetch_success w.store (page_of sur key d)) refl
  Agree-undone (some err) d = (here, there)

  Agree-fetched :
      (u : Upstream X)
      → let after = (task_fetched g sur key notify window w u).world in
        Agree after key.fid key.gid × Agree after fid gid
  Agree-fetched (failed message) = (here, there)
  Agree-fetched (answered d) = Agree-undone sur.failed_statement d

  Agree-answered :
      (cached : Option UrlCache)
      → let after = (task_answered g sur key notify window w cached).world in
        Agree after key.fid key.gid × Agree after fid gid
  Agree-answered none = Agree-fetched sur.upstream
  Agree-answered (some cached) = (here, there)

-- Where the catalog in memory shows, for the place of a key and for one with another key in the
-- database, the notice that the database has, it does so after any run for the key.
pub notices_agree :
    {X F Z : Type 0} (g : Setting X F Z) (sur : Surroundings X) (started later : RuntimeState)
    (key : TaskKey) (w : World X) (fid : String) (gid : Option String)
    → shown_notices w.catalog key.fid key.gid ≡ stored_notices w.store key.fid key.gid
    → shown_notices w.catalog fid gid ≡ stored_notices w.store fid gid
    → (catalog_region_key key.fid key.gid == catalog_region_key fid gid) ≡ false
    → let after = (run_task g sur started later key w).world in
      (shown_notices after.catalog key.fid key.gid ≡ stored_notices after.store key.fid key.gid)
      × (shown_notices after.catalog fid gid ≡ stored_notices after.store fid gid)
unfolding run_task
notices_agree g sur started later key w fid gid here there apart =
    let initial = initial_state (get key started.tasks) in
    let cached = get (catalog_region_key key.fid key.gid) w.store.url_cache in
    Agree-answered g sur key (current_lifecycle_notify_state later key initial)
      (task_freshness_window_seconds initial.0) w fid gid here there apart
      (if answers_from_cache started key sur.now (map_some (cache_row sur) cached)
        then cached
        else none)
