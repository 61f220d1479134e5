-- ===== src/Alerts/Deliver.antt =====
-- src/ops.rs and src/notifications.rs: a notification is recorded and sent. src/poller.rs sends a poll's
-- in the same way.
use catnap.Common.{
  ℕ, String, Bool, true, false, not, ◌&&◌, ltb, List, [], ◌∷◌, Option, none, some, ◌==◌, eq_string,
  eq_nat, eq_pair, if◌then◌else◌, trim, is_empty, filter_some, map_some, map, keep, any, all,
  length,
}
use catnap.Alerts.Texts.{text, join, append_notification_record_link}
use catnap.Alerts.Content.{as_str, MonitoringChangeNotification, OutboundNotification}
use catnap.Alerts.Records.{
  Ledger, NotificationDeliveryTarget, NotificationRecordDeliveryView, NotificationRecordDraft,
  NotificationRecordItemView, Outside, Subscribed, insert_notification_record, record_notify,
  replace_notification_record_deliveries, update_notification_record_channel_status, subscription,
  unsubscribed, lookup_failed, telegram, web_push,
}

abbrev pub has_status : String → NotificationRecordDeliveryView → Bool
has_status status d = d.status == status

abbrev pub count_status : String → List NotificationRecordDeliveryView → ℕ
count_status status ds = length (keep (has_status status) ds)

abbrev is_nil : {A : Type 0} → List A → Bool
is_nil [] = true
is_nil (x ∷ xs) = false

unfoldable pub aggregate_telegram_status : Bool → List NotificationRecordDeliveryView → String
aggregate_telegram_status attempted ds =
    let success = count_status "success" ds in
    let error = count_status "error" ds in
    if not attempted
    then "skipped"
    else (if is_nil ds
        then "skipped"
        else (if success == length ds
            then "success"
            else (if error == length ds
                then "error"
                else (if ltb 0 success && ltb 0 error
                    then "partial_success"
                    else (if any (has_status "pending") ds
                        then "pending"
                        else (if all (has_status "skipped") ds then "skipped" else "error"))))))

abbrev delivery_of : String → Option String → NotificationRecordDeliveryView
delivery_of target none = record {
  channel = "telegram";
  target = target;
  status = "success";
  error = none;
}
delivery_of target (some err) = record {
  channel = "telegram";
  target = target;
  status = "error";
  error = some err;
}

abbrev pub send_telegram_to_targets :
    {S : Type 0} → Outside S → String → List String → String → List NotificationRecordDeliveryView
send_telegram_to_targets out token targets message =
    map (λ target. delivery_of target (out.send_telegram token target message)) targets

unfoldable pub notify_all :
    {F Z : Type 0} → ℕ → List NotificationRecordDeliveryView → Ledger F Z → Ledger F Z
notify_all run_id [] l = l
notify_all run_id (d ∷ ds) l =
    notify_all run_id ds (
      record_notify run_id telegram (if d.status == "success" then "success" else "error") d.error
        l)

abbrev pub missing_config : NotificationRecordDeliveryView
missing_config = record {
  channel = "telegram";
  target = "(config)";
  status = "error";
  error = some "missing telegram config";
}

abbrev pub usable_token : Option String → List String → Option String
usable_token token targets =
    filter_some (λ t. not (is_empty t) && not (is_nil targets)) (map_some trim token)

abbrev pub telegram_sent :
    {F Z S : Type 0}
    → Outside S
    → ℕ
    → String
    → List String
    → String
    → Option String
    → Ledger F Z
    → Ledger F Z
telegram_sent out run_id record_id targets message none l =
    update_notification_record_channel_status record_id telegram "error"
      (replace_notification_record_deliveries record_id "telegram" (missing_config ∷ []) l)
telegram_sent out run_id record_id targets message (some token) l =
    let ds = send_telegram_to_targets out token targets message in
    notify_all run_id ds (
      update_notification_record_channel_status record_id telegram
        (aggregate_telegram_status true ds)
        (replace_notification_record_deliveries record_id "telegram" ds l))

unfoldable pub deliver_telegram_channel :
    {F Z S : Type 0}
    → Outside S
    → ℕ
    → String
    → NotificationDeliveryTarget
    → String
    → Ledger F Z
    → Ledger F Z
unfolding update_notification_record_channel_status aggregate_telegram_status notify_all
deliver_telegram_channel out run_id record_id t message l =
    if t.tg_enabled
    then telegram_sent out run_id record_id t.tg_targets message
        (usable_token t.tg_bot_token t.tg_targets) l
    else l

abbrev pub settled : {F Z : Type 0} → ℕ → String → String → Option String → Ledger F Z → Ledger F Z
settled run_id record_id status message l =
    record_notify run_id web_push status message
      (update_notification_record_channel_status record_id web_push status l)

abbrev pub push_answered : {F Z : Type 0} → ℕ → String → Option String → Ledger F Z → Ledger F Z
push_answered run_id record_id none l = settled run_id record_id "success" none l
push_answered run_id record_id (some err) l = settled run_id record_id "error" (some err) l

abbrev pub web_push_sent :
    {F Z S : Type 0}
    → Outside S
    → ℕ
    → String
    → String
    → String
    → String
    → Subscribed S
    → Ledger F Z
    → Ledger F Z
web_push_sent out run_id record_id title body url (subscription s) l =
    push_answered run_id record_id (out.send_web_push s title body url) l
web_push_sent out run_id record_id title body url unsubscribed l =
    settled run_id record_id "skipped" (some "missing web push subscription") l
web_push_sent out run_id record_id title body url (lookup_failed err) l =
    settled run_id record_id "error" (some err) l

-- What both deliveries send: the record's columns and the texts.
pub record Sending (F Z : Type 0) : Type 0 where
  pub kind : String
  pub title : String
  pub summary : String
  pub partition_label : Option String
  pub telegram_text : String
  pub web_push_title : String
  pub web_push_body : String
  pub web_push_url : String
  pub items : List (NotificationRecordItemView F Z)

abbrev pub status_at_first : Bool → String
status_at_first enabled = if enabled then "pending" else "skipped"

abbrev pub draft_of :
    {F Z : Type 0} → NotificationDeliveryTarget → Sending F Z → NotificationRecordDraft F Z
draft_of t s = record {
  kind = s.kind;
  title = s.title;
  summary = s.summary;
  partition_label = s.partition_label;
  telegram_status = status_at_first t.tg_enabled;
  web_push_status = status_at_first t.wp_enabled;
  items = s.items;
}

-- The body that `deliver_outbound_notification` and `deliver_monitoring_change_notification` share.
unfoldable pub deliver :
    {F Z S : Type 0}
    → Outside S
    → ℕ
    → NotificationDeliveryTarget
    → Sending F Z
    → Ledger F Z
    → Ledger F Z
unfolding deliver_telegram_channel
deliver out run_id t s l =
    let record_id = out.uuid l.inserted in
    let sent =
      deliver_telegram_channel out run_id record_id t
        (append_notification_record_link s.telegram_text t.site_base_url record_id)
        (insert_notification_record out t.user_id (draft_of t s) l) in
    if t.wp_enabled
    then web_push_sent out run_id record_id s.web_push_title s.web_push_body s.web_push_url
        (out.latest_subscription t.user_id) sent
    else sent

abbrev label_of : {F Z : Type 0} → NotificationRecordItemView F Z → Option String
label_of item = elim item.partition_label [
  | some scope ↦ some scope
  | none ↦ elim item.region_name [
    | some region ↦ some (text (item.country_name ∷ " / " ∷ region ∷ []))
    | none ↦ some item.country_name
  ]
]

abbrev pub notification_partition_label_from_items :
    {F Z : Type 0} → List (NotificationRecordItemView F Z) → Option String
notification_partition_label_from_items [] = none
notification_partition_label_from_items (item ∷ items) = label_of item

abbrev scope_or : Option String → Option String → Option String
scope_or none b = b
scope_or (some a) b = some a

abbrev pub outbound_sending :
    {F Z : Type 0}
    → String
    → OutboundNotification
    → List (NotificationRecordItemView F Z)
    → Sending F Z
outbound_sending kind n items = record {
  kind = kind;
  title = n.title;
  summary = n.summary;
  partition_label = scope_or n.partition_label (notification_partition_label_from_items items);
  telegram_text = n.telegram_text;
  web_push_title = n.web_push_title;
  web_push_body = n.web_push_body;
  web_push_url = n.web_push_url;
  items = items;
}

abbrev pub monitoring_sending :
    {F Z : Type 0}
    → MonitoringChangeNotification
    → List (NotificationRecordItemView F Z)
    → Sending F Z
monitoring_sending n items = record {
  kind = text ("monitoring." ∷ join "+" (map as_str n.events) ∷ []);
  title = n.title;
  summary = n.summary;
  partition_label = notification_partition_label_from_items items;
  telegram_text = n.telegram_text;
  web_push_title = n.web_push_title;
  web_push_body = n.web_push_body;
  web_push_url = n.web_push_url;
  items = items;
}
