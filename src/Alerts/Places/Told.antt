-- ===== src/Alerts/Places/Told.antt =====
-- Who is told of a country or a region that came or went, and how often.
use catnap.Common.{
  ℕ, ◌+◌, ◌≤◌, String, Bool, true, ◌&&◌, ◌≡◌, ap, List, [], ◌∷◌, ◌++◌, none, ◌==◌, ==_iff,
  eq_string, eq_pair, eq_nat, keep, map, any, count, contains_of_count-pos, count-pos_of_contains,
  arith,
}
use catnap.Topology.Changes.{
  CountryTopologyChange, RegionTopologyChange, TopologyNotificationChanges,
}
use catnap.Alerts.Texts.{Formats}
use catnap.Alerts.Records.{NotificationRecordItemView, NotificationDeliveryTarget}
use catnap.Alerts.Audience.{monitoring_partition_key}
use catnap.Alerts.Told.{as_number, when, contains-rows, count-rows}
use catnap.Alerts.Places.{
  TopologyNotificationKind, region_added, region_removed, partition_added, partition_removed,
  PlaceAudience, PlaceReadings, PlaceNotice, CatalogSummary, site_targets, wants_regions,
  load_region_targets, place_notices, added_country, removed_country, added_region, removed_region,
  for_each, notify_topology_changes,
}
use catnap.Alerts.Places.Cached.{read_anew, topology_read_anew}

abbrev kind_number : TopologyNotificationKind → ℕ
kind_number region_added = 0
kind_number region_removed = 1
kind_number partition_added = 2
kind_number partition_removed = 3

abbrev same_kind : TopologyNotificationKind → TopologyNotificationKind → Bool
same_kind a b = kind_number a == kind_number b

module _ {F Z : Type 0} (kind : TopologyNotificationKind) (user : String)
    (place : String × String) where
  -- How many of the deliveries are of a kind, to a user and about a place.
  unfoldable pub placed : List (PlaceNotice F Z) → ℕ
  placed [] = 0
  placed (n ∷ ns) =
      as_number (same_kind n.kind kind && n.target.user_id == user && n.place == place) + placed ns

  placed-append : (xs ys : List (PlaceNotice F Z)) → placed (xs ++ ys) ≡ placed xs + placed ys
  unfolding placed
  placed-append [] ys = omega arith
  placed-append (x ∷ xs) ys = omega (arith, placed-append xs ys)

  placed-place_notices :
      (f : Formats F) (k : TopologyNotificationKind) (record_kind : String) (p : String × String)
      (label : String) (s : CatalogSummary F) (items : List (NotificationRecordItemView F Z))
      (ts : List NotificationDeliveryTarget)
      → placed (place_notices f k record_kind p label s items ts)
        ≡ when (same_kind k kind && p == place) (count user (map (λ t. t.user_id) ts))
  unfolding placed
  placed-place_notices f k record_kind p label s items [] = ground arith
  placed-place_notices f k record_kind p label s items (t ∷ ts) =
      ground (arith, placed-place_notices f k record_kind p label s items ts)

  placed-told :
      (f : Formats F) (k : TopologyNotificationKind) (record_kind : String) (p : String × String)
      (label : String) (s : CatalogSummary F) (items : List (NotificationRecordItemView F Z))
      (ts : List NotificationDeliveryTarget) (b : Bool)
      → count user (map (λ t. t.user_id) ts) ≡ as_number b
      → placed (place_notices f k record_kind p label s items ts)
        ≡ when (p == place) (as_number (same_kind k kind && b))
  placed-told f k record_kind p label s items ts b h =
      ground (arith, h, placed-place_notices f k record_kind p label s items ts)

  placed-for_each :
      {A : Type 0} (g : A → List (PlaceNotice F Z)) (key : A → String × String) (b : Bool)
      → ((x : A) → placed (g x) ≡ when (key x == place) (as_number b))
      → (xs : List A) → placed (for_each g xs) ≡ when b (count place (map key xs))
  unfolding placed
  placed-for_each g key b h [] = ground arith
  placed-for_each g key b h (x ∷ xs) =
      ground (arith, placed-append (g x) (for_each g xs), h x, placed-for_each g key b h xs)

-- Whether a user has settings that a test holds of.
abbrev pub has_place_row :
    String → (NotificationDeliveryTarget × (Bool × Bool) → Bool) → PlaceAudience → Bool
has_place_row user p a = any (λ row. row.0.user_id == user && p row) a.settings

count-targets :
    (a : PlaceAudience) (user : String) (p : NotificationDeliveryTarget × (Bool × Bool) → Bool)
    → count user (map (λ row. row.0.user_id) a.settings) ≤ 1
    → count user (map (λ t. t.user_id) (map (λ row. row.0) (keep p a.settings)))
      ≡ as_number (has_place_row user p a)
count-targets a user p h =
    let ids = map (λ t. t.user_id) (map (λ row. row.0) (keep p a.settings)) in
    ground (
      arith,
      h,
      count-rows user p a.settings,
      contains-rows user p a.settings,
      count-pos_of_contains user ids,
      contains_of_count-pos user ids,
    )

abbrev pub country_place : CountryTopologyChange → String × String
country_place c = (c.id, "")

abbrev pub region_place : RegionTopologyChange → String × String
region_place c = (c.country_id, c.region_id)

module _ {F Z : Type 0} (f : Formats F) (a : PlaceAudience) (r : PlaceReadings F Z) (user : String)
    (rows : count user (map (λ row. row.0.user_id) a.settings) ≤ 1)
    (kind : TopologyNotificationKind) (place : String × String) where
  abbrev tells_site : Bool
  tells_site = has_place_row user (λ row. row.1.0) a

  abbrev tells_region : Bool
  tells_region = has_place_row user (wants_regions a (monitoring_partition_key place.0 none)) a

  placed-added_countries :
      (regions : List RegionTopologyChange) (cs : List CountryTopologyChange)
      → placed kind user place (for_each (added_country f r regions (site_targets a)) cs)
        ≡ when (same_kind region_added kind && tells_site) (count place (map country_place cs))
  placed-added_countries regions cs =
      placed-for_each kind user place (added_country f r regions (site_targets a)) country_place
        (same_kind region_added kind && tells_site)
        (λ c.
          placed-told kind user place f region_added "catalog.region.added" (c.id, "") _ _ _
            (site_targets a) tells_site (count-targets a user (λ row. row.1.0) rows))
        cs

  placed-removed_countries :
      (cs : List CountryTopologyChange)
      → placed {F = F} {Z = Z} kind user place (for_each (removed_country f (site_targets a)) cs)
        ≡ when (same_kind region_removed kind && tells_site) (count place (map country_place cs))
  placed-removed_countries cs =
      placed-for_each kind user place (removed_country f (site_targets a)) country_place
        (same_kind region_removed kind && tells_site)
        (λ c.
          placed-told kind user place f region_removed "catalog.region.removed" (c.id, "") _ _ []
            (site_targets a) tells_site (count-targets a user (λ row. row.1.0) rows))
        cs

  -- The targets of a region are those of its country, so of the place where it is the one.
  region-told :
      (k : TopologyNotificationKind) (record_kind label : String) (s : CatalogSummary F)
      (items : List (NotificationRecordItemView F Z)) (c : RegionTopologyChange)
      → placed kind user place (
          place_notices f k record_kind
            (region_place c)
            label
            s
            items
            (load_region_targets a (monitoring_partition_key c.country_id none)))
        ≡ when (region_place c == place) (as_number (same_kind k kind && tells_region))
  unfolding load_region_targets
  region-told k record_kind label s items c =
      let key = monitoring_partition_key c.country_id none in
      let b = has_place_row user (wants_regions a key) a in
      ground (
        arith,
        placed-told kind user place f k record_kind (region_place c) label s items
            (load_region_targets a key) b (count-targets a user (wants_regions a key) rows),
        λ (e : (c.country_id == place.0) ≡ true).
            ap (λ id. has_place_row user (wants_regions a (monitoring_partition_key id none)) a)
              ((==_iff c.country_id place.0).0 e),
      )

  placed-added_regions :
      (cs : List RegionTopologyChange)
      → placed kind user place (read_anew (added_region f r) a cs)
        ≡ when (same_kind partition_added kind && tells_region) (count place (map region_place cs))
  placed-added_regions cs =
      placed-for_each kind user place
        (λ c.
          added_region f r c (load_region_targets a (monitoring_partition_key c.country_id none)))
        region_place (same_kind partition_added kind && tells_region)
        (λ c. region-told partition_added "catalog.partition.added" _ _ _ c) cs

  placed-removed_regions :
      (cs : List RegionTopologyChange)
      → placed {F = F} {Z = Z} kind user place (read_anew (removed_region f) a cs)
        ≡ when
            (same_kind partition_removed kind && tells_region)
            (count place (map region_place cs))
  placed-removed_regions cs =
      placed-for_each kind user place
        (λ c.
          removed_region f c (load_region_targets a (monitoring_partition_key c.country_id none)))
        region_place (same_kind partition_removed kind && tells_region)
        (λ c. region-told partition_removed "catalog.partition.removed" _ _ [] c) cs

  placed_all :
      (changes : TopologyNotificationChanges)
      → placed kind user place (notify_topology_changes f a r changes)
        ≡ when
            (same_kind region_added kind && tells_site)
            (count place (map country_place changes.added_countries))
          + (when
                (same_kind region_removed kind && tells_site)
                (count place (map country_place changes.removed_countries))
              + (when
                    (same_kind partition_added kind && tells_region)
                    (count place (map region_place changes.added_regions))
                  + when
                      (same_kind partition_removed kind && tells_region)
                      (count place (map region_place changes.removed_regions))))
  placed_all changes =
      let site = site_targets a in
      let came = for_each (added_country f r changes.added_regions site) changes.added_countries in
      let went : List (PlaceNotice F Z) =
        for_each (removed_country f site) changes.removed_countries in
      let regions_came = read_anew (added_region f r) a changes.added_regions in
      let regions_went : List (PlaceNotice F Z) =
        read_anew (removed_region f) a changes.removed_regions in
      omega (
        arith,
        ap (placed kind user place) (topology_read_anew f a r changes),
        placed-append kind user place came (went ++ (regions_came ++ regions_went)),
        placed-append kind user place went (regions_came ++ regions_went),
        placed-append kind user place regions_came regions_went,
        placed-added_countries changes.added_regions changes.added_countries,
        placed-removed_countries changes.removed_countries,
        placed-added_regions changes.added_regions,
        placed-removed_regions changes.removed_regions,
      )

-- Where a user has settings at most once, they are told of a country that came or went as often as it
-- is among the changes if they asked for changes of countries, and else not; and of a region so if they
-- asked for changes of regions and follow its country.
pub topology_told :
    {F Z : Type 0} (f : Formats F) (a : PlaceAudience) (r : PlaceReadings F Z)
    (changes : TopologyNotificationChanges) (user country region : String)
    → count user (map (λ row. row.0.user_id) a.settings) ≤ 1
    → let notices = notify_topology_changes f a r changes in
      let site = has_place_row user (λ row. row.1.0) a in
      let follows =
        has_place_row user (wants_regions a (monitoring_partition_key country none)) a in
      (placed region_added user (country, "") notices
        ≡ when site (count (country, "") (map country_place changes.added_countries)))
      × (placed region_removed user (country, "") notices
          ≡ when site (count (country, "") (map country_place changes.removed_countries)))
      × (placed partition_added user (country, region) notices
          ≡ when follows (count (country, region) (map region_place changes.added_regions)))
      × (placed partition_removed user (country, region) notices
          ≡ when follows (count (country, region) (map region_place changes.removed_regions)))
topology_told f a r changes user country region rows = (
  omega (arith, placed_all f a r user rows region_added (country, "") changes),
  omega (arith, placed_all f a r user rows region_removed (country, "") changes),
  omega (arith, placed_all f a r user rows partition_added (country, region) changes),
  omega (arith, placed_all f a r user rows partition_removed (country, region) changes),
)
