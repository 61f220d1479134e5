-- ===== src/Alerts/Places.antt =====
-- The notifications of a country or a region that came or went: src/notification_content.rs and
-- `notify_topology_changes` of src/ops.rs. The tables do not change meanwhile, and logs are left out.
pub mod Cached
pub mod Told
pub mod Refreshed
use catnap.Common.{
  ℕ, suc, ◌-◌, String, Bool, true, false, not, ◌&&◌, ◌||◌, ltb, List, [], ◌∷◌, ◌++◌, Option, none,
  some, ◌==◌, eq_string, eq_pair, if◌then◌else◌, trim, get, insert, contains, keep, map, any,
  length, unwrap_or, ℤ, pos,
}
use catnap.Catalog.{catalog_region_key}
use catnap.Topology.Changes.{
  CountryTopologyChange, RegionTopologyChange, TopologyNotificationChanges,
}
use catnap.Listing.Apply.{is_nil}
use catnap.Alerts.Texts.{Formats, Money, text, join, format_money, products_url}
use catnap.Alerts.Content.{OutboundNotification, link_line}
use catnap.Alerts.Records.{NotificationRecordItemView, NotificationDeliveryTarget}
use catnap.Alerts.Deliver.{Sending, outbound_sending}
use catnap.Alerts.Audience.{monitoring_partition_key}

pub data TopologyNotificationKind : Type 0 where
  region_added region_removed partition_added partition_removed : TopologyNotificationKind

abbrev kind_label : TopologyNotificationKind → String
kind_label region_added = "新国家"
kind_label region_removed = "国家已删除"
kind_label partition_added = "新可用区"
kind_label partition_removed = "可用区已删除"

abbrev target_label : TopologyNotificationKind → String
target_label region_added = "国家"
target_label region_removed = "国家"
target_label partition_added = "可用区"
target_label partition_removed = "可用区"

abbrev includes_catalog : TopologyNotificationKind → Bool
includes_catalog region_added = true
includes_catalog region_removed = false
includes_catalog partition_added = true
includes_catalog partition_removed = false

pub record CatalogSummaryItem (F : Type 0) : Type 0 where
  pub name : String
  pub price : Money F

-- The packages that are shown of a place, how many there are, and whether a fetch of one of its pages
-- failed.
pub record CatalogSummary (F : Type 0) : Type 0 where
  pub items : List (CatalogSummaryItem F)
  pub total : ℕ
  pub failed : Bool
  pub partially_failed : Bool

abbrev shown_count : {F : Type 0} → Formats F → ℕ → String
shown_count f n = f.shown_int (pos n)

abbrev numbered : {F : Type 0} → Formats F → ℕ → List (CatalogSummaryItem F) → List String
numbered f i [] = []
numbered f i (item ∷ items) =
    text (shown_count f (suc i) ∷ ". " ∷ item.name ∷ "｜" ∷ format_money f item.price ∷ [])
    ∷ numbered f (suc i) items

abbrev item_lines : {F : Type 0} → Formats F → CatalogSummary F → List String
item_lines f s =
    "当前套餐：" ∷ numbered f 0 s.items
    ++ ((if ltb (length s.items) s.total
          then text ("其余 " ∷ shown_count f (s.total - length s.items) ∷ " 个套餐未展开。" ∷ []) ∷ []
          else [])
        ++ (if s.partially_failed then "部分套餐摘要抓取失败，稍后重试。" ∷ [] else []))

abbrev catalog_lines : {F : Type 0} → Formats F → CatalogSummary F → List String
catalog_lines f s =
    if is_nil s.items
    then (if s.failed then "套餐摘要抓取失败，稍后重试。" else "当前未发现套餐。") ∷ []
    else item_lines f s

abbrev catalog_body : {F : Type 0} → Formats F → String → CatalogSummary F → String
catalog_body f label s =
    if is_nil s.items
    then (if s.failed then text (label ∷ "｜套餐摘要抓取失败，稍后重试" ∷ []) else text (label ∷ "｜当前未发现套餐" ∷ []))
    else (if s.partially_failed
        then text (label ∷ "｜已抓到 " ∷ shown_count f (length s.items) ∷ " 个套餐，部分摘要抓取失败" ∷ [])
        else (if ltb (length s.items) s.total
            then text (
                label
                ∷ "｜"
                ∷ shown_count f s.total
                ∷ " 个套餐，已展开前 "
                ∷ shown_count f (length s.items)
                ∷ " 个"
                ∷ [])
            else text (label ∷ "｜" ∷ shown_count f (length s.items) ∷ " 个当前套餐" ∷ [])))

unfoldable pub build_topology_notification :
    {F : Type 0}
    → Formats F
    → TopologyNotificationKind
    → String
    → CatalogSummary F
    → Option String
    → OutboundNotification
unfolding format_money products_url
build_topology_notification f kind scope_label s site_base_url =
    let label = trim scope_label in
    let body = if includes_catalog kind then catalog_body f label s else label in
    record {
      title = kind_label kind;
      summary = body;
      partition_label = some label;
      telegram_text = join "\n" (
          text ("【" ∷ kind_label kind ∷ "】" ∷ label ∷ [])
            ∷ text (target_label kind ∷ "：" ∷ label ∷ [])
            ∷ (if includes_catalog kind then catalog_lines f s else [])
          ++ link_line "查看全部产品：" (products_url site_base_url));
      web_push_title = text ("Catnap · " ∷ kind_label kind ∷ []);
      web_push_body = body;
      web_push_url = "/products";
    }

-- A row of `settings`: the target of its user, whether changes of countries are told, and whether
-- changes of regions are; then which partitions a user follows.
pub record PlaceAudience : Type 0 where
  pub settings : List (NotificationDeliveryTarget × (Bool × Bool))
  pub monitoring_partitions : List ((String × String) × Bool)

-- What is read of a place: the packages to show with their number, and the items of the record.
pub record PlaceCatalog (F Z : Type 0) : Type 0 where
  pub shown : List (CatalogSummaryItem F)
  pub total : ℕ
  pub items : List (NotificationRecordItemView F Z)

-- What is read of the catalog, of countries and of regions, and the pages whose fetch failed.
pub record PlaceReadings (F Z : Type 0) : Type 0 where
  pub country : String → PlaceCatalog F Z
  pub region : String → String → PlaceCatalog F Z
  pub added_catalog_fetch_failures : List String

pub record PlaceNotice (F Z : Type 0) : Type 0 where
  pub target : NotificationDeliveryTarget
  pub kind : TopologyNotificationKind
  pub place : String × String
  pub sending : Sending F Z

abbrev pub site_targets : PlaceAudience → List NotificationDeliveryTarget
site_targets a = map (λ row. row.0) (keep (λ row. row.1.0) a.settings)

abbrev pub wants_regions :
    PlaceAudience → String → NotificationDeliveryTarget × (Bool × Bool) → Bool
wants_regions a key row =
    row.1.1 && unwrap_or (get (row.0.user_id, key) a.monitoring_partitions) false

unfoldable pub load_region_targets : PlaceAudience → String → List NotificationDeliveryTarget
load_region_targets a key = map (λ row. row.0) (keep (wants_regions a key) a.settings)

abbrev summary_of : {F Z : Type 0} → PlaceCatalog F Z → Bool → CatalogSummary F
summary_of c incomplete = record {
  items = c.shown;
  total = c.total;
  failed = incomplete && is_nil c.shown;
  partially_failed = incomplete && not (is_nil c.shown);
}

abbrev no_summary : {F : Type 0} → CatalogSummary F
no_summary = record { items = []; total = 0; failed = false; partially_failed = false }

abbrev pub place_notices :
    {F Z : Type 0}
    → Formats F
    → TopologyNotificationKind
    → String
    → String × String
    → String
    → CatalogSummary F
    → List (NotificationRecordItemView F Z)
    → List NotificationDeliveryTarget
    → List (PlaceNotice F Z)
place_notices f kind record_kind place label s items targets =
    map
      (λ t. record {
        target = t;
        kind = kind;
        place = place;
        sending =
            outbound_sending record_kind
              (build_topology_notification f kind label s t.site_base_url) items;
      })
      targets

abbrev country_incomplete :
    {F Z : Type 0} → PlaceReadings F Z → List RegionTopologyChange → CountryTopologyChange → Bool
country_incomplete r added_regions change =
    contains (catalog_region_key change.id none) r.added_catalog_fetch_failures
    || any
        (λ region.
          region.country_id == change.id
          && contains (catalog_region_key region.country_id (some region.region_id))
              r.added_catalog_fetch_failures)
        added_regions

abbrev pub added_country :
    {F Z : Type 0}
    → Formats F
    → PlaceReadings F Z
    → List RegionTopologyChange
    → List NotificationDeliveryTarget
    → CountryTopologyChange
    → List (PlaceNotice F Z)
added_country f r added_regions targets change =
    let c = r.country change.id in
    place_notices f region_added "catalog.region.added" (change.id, "") change.name
      (summary_of c (country_incomplete r added_regions change)) c.items targets

abbrev pub removed_country :
    {F Z : Type 0}
    → Formats F
    → List NotificationDeliveryTarget
    → CountryTopologyChange
    → List (PlaceNotice F Z)
removed_country f targets change =
    place_notices f region_removed "catalog.region.removed" (change.id, "") change.name no_summary
      [] targets

abbrev region_label : RegionTopologyChange → String
region_label change = text (change.country_name ∷ " / " ∷ change.region_name ∷ [])

abbrev pub added_region :
    {F Z : Type 0}
    → Formats F
    → PlaceReadings F Z
    → RegionTopologyChange
    → List NotificationDeliveryTarget
    → List (PlaceNotice F Z)
added_region f r change targets =
    let c = r.region change.country_id change.region_id in
    let incomplete =
      contains (catalog_region_key change.country_id (some change.region_id))
        r.added_catalog_fetch_failures in
    place_notices f partition_added "catalog.partition.added" (change.country_id, change.region_id)
      (region_label change) (summary_of c incomplete) c.items targets

abbrev pub removed_region :
    {F Z : Type 0}
    → Formats F
    → RegionTopologyChange
    → List NotificationDeliveryTarget
    → List (PlaceNotice F Z)
removed_region f change targets =
    place_notices f partition_removed "catalog.partition.removed"
      (change.country_id, change.region_id) (region_label change) no_summary [] targets

abbrev pub for_each : {A B : Type 0} → (A → List B) → List A → List B
for_each f [] = []
for_each f (x ∷ xs) = f x ++ for_each f xs

-- `region_targets_by_country`: the targets that were read, by the key of the country's partition.
abbrev pub TargetCache : Type 0
TargetCache = List (String × List NotificationDeliveryTarget)

abbrev pub region_targets :
    PlaceAudience → TargetCache → String → List NotificationDeliveryTarget × TargetCache
region_targets a cache key = elim (get key cache) [
  | some existing ↦ (existing, cache)
  | none ↦ (load_region_targets a key, insert key (load_region_targets a key) cache)
]

-- The loop over added regions and that over removed ones.
unfoldable pub region_notices :
    {F Z : Type 0}
    → (RegionTopologyChange → List NotificationDeliveryTarget → List (PlaceNotice F Z))
    → PlaceAudience
    → TargetCache
    → List RegionTopologyChange
    → List (PlaceNotice F Z) × TargetCache
unfolding load_region_targets
region_notices notices a cache [] = ([], cache)
region_notices notices a cache (change ∷ changes) =
    let found = region_targets a cache (monitoring_partition_key change.country_id none) in
    let rest = region_notices notices a found.1 changes in
    (notices change found.0 ++ rest.0, rest.1)

unfoldable pub notify_topology_changes :
    {F Z : Type 0}
    → Formats F
    → PlaceAudience
    → PlaceReadings F Z
    → TopologyNotificationChanges
    → List (PlaceNotice F Z)
unfolding region_notices build_topology_notification
notify_topology_changes f a r changes =
    let targets =
      if is_nil changes.added_countries && is_nil changes.removed_countries
      then []
      else site_targets a in
    let added = region_notices (added_region f r) a [] changes.added_regions in
    let removed = region_notices (removed_region f) a added.1 changes.removed_regions in
    for_each (added_country f r changes.added_regions targets) changes.added_countries
    ++ (for_each (removed_country f targets) changes.removed_countries ++ (added.0 ++ removed.0))
