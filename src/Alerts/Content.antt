-- ===== src/Alerts/Content.antt =====
-- src/notification_content.rs: the notifications of a monitored package that changed, and of one that
-- came or went.
use catnap.Common.{
  String, Bool, not, ◌&&◌, ◌||◌, List, [], ◌∷◌, ◌++◌, Option, none, some, ◌==◌, eq_string,
  if◌then◌else◌, trim, is_empty, filter_some, map_some, map, keep, ℤ, codes, starts_with,
}
use catnap.Listing.Store.{is_positive, is_zero}
use catnap.Alerts.Texts.{
  Formats, Money, text, join, format_money, format_price_change, monitoring_url, products_url,
}

pub data MonitorEventKind : Type 0 where
  restock price config : MonitorEventKind

abbrev pub as_str : MonitorEventKind → String
as_str restock = "restock"
as_str price = "price"
as_str config = "config"

abbrev label : MonitorEventKind → String
label restock = "补货"
label price = "价格变动"
label config = "配置更新"

pub record MonitoringSnapshot (F : Type 0) : Type 0 where
  pub inventory_quantity : ℤ
  pub price : Money F
  pub digest : String

pub record MonitoringChangeNotification : Type 0 where
  pub events : List MonitorEventKind
  pub title : String
  pub summary : String
  pub telegram_text : String
  pub web_push_title : String
  pub web_push_body : String
  pub web_push_url : String

-- Which of the three happened.
pub record Changes : Type 0 where
  pub restocked : Bool
  pub repriced : Bool
  pub reconfigured : Bool

abbrev pub changes_of :
    {F : Type 0} → Formats F → MonitoringSnapshot F → MonitoringSnapshot F → Changes
changes_of f old new = record {
  restocked = is_zero old.inventory_quantity && is_positive new.inventory_quantity;
  repriced = f.differ old.price.amount new.price.amount;
  reconfigured = not (old.digest == new.digest);
}

abbrev one_if : {A : Type 0} → Bool → A → List A
one_if b a = if b then a ∷ [] else []

abbrev pub events_of : Changes → List MonitorEventKind
events_of c = one_if c.restocked restock ++ one_if c.repriced price ++ one_if c.reconfigured config

abbrev stock_line : {F : Type 0} → Formats F → MonitoringSnapshot F → String
stock_line f new =
    text ("库存 " ∷ f.shown_int new.inventory_quantity ∷ "｜" ∷ format_money f new.price ∷ [])

abbrev pub summary_parts :
    {F : Type 0} → Formats F → Changes → MonitoringSnapshot F → MonitoringSnapshot F → List String
summary_parts f c old new =
    one_if c.restocked (
      text (
        "库存 "
        ∷ f.shown_int old.inventory_quantity
        ∷ " → "
        ∷ f.shown_int new.inventory_quantity
        ∷ []))
    ++ (if c.repriced
        then text ("价格 " ∷ format_price_change f old.price new.price ∷ []) ∷ []
        else one_if c.restocked (format_money f new.price))

-- The second line: from the parts, then with the stock after a price alone, then, where the
-- configuration alone changed, the stock.
abbrev parts_line : {F : Type 0} → Formats F → MonitoringSnapshot F → List String → String
parts_line f new [] = stock_line f new
parts_line f new (part ∷ parts) = join "｜" (part ∷ parts)

abbrev pub detail_line :
    {F : Type 0} → Formats F → Changes → MonitoringSnapshot F → MonitoringSnapshot F → String
detail_line f c old new =
    let line = parts_line f new (summary_parts f c old new) in
    let line =
      if not c.restocked && c.repriced
      then text (line ∷ "｜库存 " ∷ f.shown_int new.inventory_quantity ∷ [])
      else line in
    if not c.restocked && not c.repriced && c.reconfigured then stock_line f new else line

abbrev pub config_line : Changes → List String
config_line c = one_if (c.reconfigured && (c.restocked || c.repriced)) "配置内容已更新"

abbrev pub link_line : String → Option String → List String
link_line before none = []
link_line before (some url) = text (before ∷ url ∷ []) ∷ []

abbrev is_monitoring_link : String → Bool
is_monitoring_link line = starts_with (codes "查看监控：") (codes line)

abbrev body_of : String → List String → String
body_of name [] = name
body_of name (line ∷ lines) = text (name ∷ "｜" ∷ join "｜" (line ∷ lines) ∷ [])

abbrev pub change_notification :
    {F : Type 0}
    → Formats F
    → Changes
    → String
    → MonitoringSnapshot F
    → MonitoringSnapshot F
    → Option String
    → MonitoringChangeNotification
change_notification f c name old new site_base_url =
    let title = join " + " (map label (events_of c)) in
    let detail = detail_line f c old new in
    let rest = detail ∷ config_line c ++ link_line "查看监控：" (monitoring_url site_base_url) in
    record {
      events = events_of c;
      title = title;
      summary = text (name ∷ " · " ∷ detail ∷ []);
      telegram_text = join "\n" (text ("【" ∷ title ∷ "】" ∷ name ∷ []) ∷ rest);
      web_push_title = text ("Catnap · " ∷ title ∷ []);
      web_push_body = body_of name (keep (λ line. not (is_monitoring_link line)) rest);
      web_push_url = "/monitoring";
    }

abbrev pub when_some : {A B : Type 0} → List A → B → Option B
when_some [] b = none
when_some (x ∷ xs) b = some b

unfoldable pub build_monitoring_change_notification :
    {F : Type 0}
    → Formats F
    → String
    → MonitoringSnapshot F
    → MonitoringSnapshot F
    → Option String
    → Option MonitoringChangeNotification
unfolding format_money format_price_change monitoring_url
build_monitoring_change_notification f name old new site_base_url =
    let c = changes_of f old new in
    when_some (events_of c) (change_notification f c name old new site_base_url)

pub data ConfigLifecycleNotificationKind : Type 0 where
  added removed : ConfigLifecycleNotificationKind

abbrev lifecycle_label : ConfigLifecycleNotificationKind → String
lifecycle_label added = "套餐新增"
lifecycle_label removed = "套餐已删除"

abbrev summary_prefix : ConfigLifecycleNotificationKind → String
summary_prefix added = "库存"
summary_prefix removed = "最近状态：库存"

pub record OutboundNotification : Type 0 where
  pub title : String
  pub summary : String
  pub partition_label : Option String
  pub telegram_text : String
  pub web_push_title : String
  pub web_push_body : String
  pub web_push_url : String

abbrev scope_line : Option String → List String
scope_line none = []
scope_line (some scope) = text ("范围：" ∷ scope ∷ []) ∷ []

abbrev before_name : Option String → List String
before_name none = []
before_name (some scope) = scope ∷ "｜" ∷ []

unfoldable pub build_config_lifecycle_notification :
    {F : Type 0}
    → Formats F
    → ConfigLifecycleNotificationKind
    → String
    → Option String
    → ℤ
    → Money F
    → Option String
    → OutboundNotification
unfolding format_money products_url
build_config_lifecycle_notification f kind name partition_label quantity money site_base_url =
    let summary =
      text (summary_prefix kind ∷ " " ∷ f.shown_int quantity ∷ "｜" ∷ format_money f money ∷ []) in
    let scope = filter_some (λ v. not (is_empty v)) (map_some trim partition_label) in
    record {
      title = lifecycle_label kind;
      summary = text (name ∷ " · " ∷ summary ∷ []);
      partition_label = scope;
      telegram_text = join "\n" (
          text ("【" ∷ lifecycle_label kind ∷ "】" ∷ name ∷ []) ∷ scope_line scope
          ++ summary ∷ link_line "查看全部产品：" (products_url site_base_url));
      web_push_title = text ("Catnap · " ∷ lifecycle_label kind ∷ []);
      web_push_body = text (before_name scope ++ name ∷ "｜" ∷ summary ∷ []);
      web_push_url = "/products";
    }
