-- ===== src/Alerts/Places/Cached.antt =====
-- The targets that were read for a country are kept for its other regions.
use catnap.Common.{
  String, ◌&&◌, ◌≡◌, refl, sym, ap, ◌∙◌, List, [], ◌∷◌, ◌++◌, none, some, ◌==◌, ==_iff, eq_string,
  eq_pair, eq_nat, if◌then◌else◌, get, insert, get-insert, Bool-cases, Option-cases, inl, inr,
  some_inj, none-ne-some,
}
use catnap.Topology.Changes.{RegionTopologyChange, TopologyNotificationChanges}
use catnap.Listing.Apply.{is_nil}
use catnap.Alerts.Texts.{Formats}
use catnap.Alerts.Records.{NotificationDeliveryTarget}
use catnap.Alerts.Audience.{monitoring_partition_key}
use catnap.Alerts.Places.{
  PlaceAudience, PlaceReadings, PlaceNotice, site_targets, load_region_targets, added_country,
  removed_country, added_region, removed_region, for_each, TargetCache, region_targets,
  region_notices, notify_topology_changes,
}

-- Every entry of the cache is what is read for its key.
abbrev Sound : PlaceAudience → TargetCache → Type 0
Sound a cache =
    (key : String) (ts : List NotificationDeliveryTarget)
    → get key cache ≡ some ts
    → ts ≡ load_region_targets a key

-- What the loops would give if they read the targets anew for each change.
abbrev pub read_anew :
    {F Z : Type 0}
    → (RegionTopologyChange → List NotificationDeliveryTarget → List (PlaceNotice F Z))
    → PlaceAudience
    → List RegionTopologyChange
    → List (PlaceNotice F Z)
read_anew notices a = for_each (λ change.
    notices change (load_region_targets a (monitoring_partition_key change.country_id none)))

insert-Sound :
    (a : PlaceAudience) (cache : TargetCache) (key : String)
    → Sound a cache
    → Sound a (insert key (load_region_targets a key) cache)
insert-Sound a cache key h k ts e =
    let read = sym (get-insert key k (load_region_targets a key) cache) ∙ e in
    elim (Bool-cases (key == k)) [
      | inl same ↦
          sym (some_inj (rw same at read)) ∙ ap (load_region_targets a) ((==_iff key k).0 same)
      | inr other ↦ h k ts (rw other at read)
    ]

region_targets-Sound :
    (a : PlaceAudience) (cache : TargetCache) (key : String)
    → Sound a cache
    → ((region_targets a cache key).0 ≡ load_region_targets a key)
      × Sound a (region_targets a cache key).1
region_targets-Sound a cache key h = elim (Option-cases (get key cache)) [
  | inl missing ↦ rw (missing, region_targets) (refl, insert-Sound a cache key h)
  | inr (ts, found) ↦ rw (found, region_targets) (h key ts found, h)
]

region_notices-read_anew :
    {F Z : Type 0}
    (notices : RegionTopologyChange → List NotificationDeliveryTarget → List (PlaceNotice F Z))
    (a : PlaceAudience) (cache : TargetCache) (changes : List RegionTopologyChange)
    → Sound a cache
    → ((region_notices notices a cache changes).0 ≡ read_anew notices a changes)
      × Sound a (region_notices notices a cache changes).1
unfolding region_notices
region_notices-read_anew notices a cache [] h = (refl, h)
region_notices-read_anew notices a cache (c ∷ cs) h =
    let key = monitoring_partition_key c.country_id none in
    let found = region_targets-Sound a cache key h in
    let rest = region_notices-read_anew notices a (region_targets a cache key).1 cs found.1 in
    (
      ap (λ ts. notices c ts ++ (region_notices notices a (region_targets a cache key).1 cs).0)
            found.0
          ∙ ap (λ ns. notices c (load_region_targets a key) ++ ns) rest.0,
      rest.1,
    )

countries_part :
    {A B C : Type 0} (f g : List C → A → List B) (ts : List C) (xs ys : List A) (zs : List B)
    → let some_targets = if is_nil xs && is_nil ys then [] else ts in
      (for_each (f some_targets) xs ++ (for_each (g some_targets) ys ++ zs))
      ≡ (for_each (f ts) xs ++ (for_each (g ts) ys ++ zs))
countries_part f g ts [] [] zs = refl
countries_part f g ts [] (y ∷ ys) zs = refl
countries_part f g ts (x ∷ xs) ys zs = refl

-- Users are told of the same, in the same order, as if the targets were read anew for each change.
pub topology_read_anew :
    {F Z : Type 0} (f : Formats F) (a : PlaceAudience) (r : PlaceReadings F Z)
    (changes : TopologyNotificationChanges)
    → notify_topology_changes f a r changes
      ≡ for_each (added_country f r changes.added_regions (site_targets a)) changes.added_countries
        ++ (for_each (removed_country f (site_targets a)) changes.removed_countries
            ++ (read_anew (added_region f r) a changes.added_regions
                ++ read_anew (removed_region f) a changes.removed_regions))
unfolding notify_topology_changes get
topology_read_anew f a r changes =
    let targets =
      if is_nil changes.added_countries && is_nil changes.removed_countries
      then []
      else site_targets a in
    let added =
      region_notices-read_anew (added_region f r) a [] changes.added_regions
        (λ key ts e. absurd (none-ne-some e)) in
    let cache = (region_notices (added_region f r) a [] changes.added_regions).1 in
    let removed =
      region_notices-read_anew (removed_region f) a cache changes.removed_regions added.1 in
    ap
      (λ ns.
        for_each (added_country f r changes.added_regions targets) changes.added_countries
        ++ (for_each (removed_country f targets) changes.removed_countries
            ++ (ns ++ (region_notices (removed_region f) a cache changes.removed_regions).0)))
      added.0
    ∙ ap
        (λ ns.
          for_each (added_country f r changes.added_regions targets) changes.added_countries
          ++ (for_each (removed_country f targets) changes.removed_countries
              ++ (read_anew (added_region f r) a changes.added_regions ++ ns)))
        removed.0
    ∙ countries_part (added_country f r changes.added_regions) (removed_country f) (site_targets a)
        changes.added_countries changes.removed_countries
        (read_anew (added_region f r) a changes.added_regions
          ++ read_anew (removed_region f) a changes.removed_regions)
