-- ===== src/Alerts/Records.antt =====
-- src/db.rs and src/models.rs: the notification records and the statements that write them. A statement
-- of the database does not fail here; logs are left out.
use catnap.Common.{
  ℕ, suc, String, Bool, List, [], ◌∷◌, ◌++◌, Option, none, some, eq_string, eq_nat, eq_pair, get,
  insert, ℤ,
}
use catnap.Alerts.Texts.{Money}

-- `Z`: the specs, the inventory's status and time, and the lifecycle, which are copied.
pub record NotificationRecordItemView (F Z : Type 0) : Type 0 where
  pub config_id : Option String
  pub country_name : String
  pub region_name : Option String
  pub partition_label : Option String
  pub name : String
  pub price : Money F
  pub quantity : ℤ
  pub rest : Z

pub record NotificationRecordDraft (F Z : Type 0) : Type 0 where
  pub kind : String
  pub title : String
  pub summary : String
  pub partition_label : Option String
  pub telegram_status : String
  pub web_push_status : String
  pub items : List (NotificationRecordItemView F Z)

pub record NotificationRecordDeliveryView : Type 0 where
  pub channel : String
  pub target : String
  pub status : String
  pub error : Option String

pub record NotificationDeliveryTarget : Type 0 where
  pub user_id : String
  pub site_base_url : Option String
  pub tg_enabled : Bool
  pub tg_bot_token : Option String
  pub tg_targets : List String
  pub wp_enabled : Bool

-- A row of `ops_notify_runs`.
pub record NotifyRun : Type 0 where
  pub task_run_id : ℕ
  pub channel : String
  pub result : String
  pub error_message : Option String

-- The tables by id, and by id and channel. `inserted` counts the records that were ever inserted.
pub record Ledger (F Z : Type 0) : Type 0 where
  pub records : List (String × (String × NotificationRecordDraft F Z))
  pub deliveries : List ((String × String) × List NotificationRecordDeliveryView)
  pub notify_runs : List NotifyRun
  pub inserted : ℕ

-- The row of the latest subscription, `S`, or that there is none, or an error.
pub data Subscribed (S : Type 0) : Type 0 where
  subscription : S → Subscribed S
  unsubscribed : Subscribed S
  lookup_failed : String → Subscribed S

-- What is not of this program: the ids that `Uuid::new_v4` gives, one after the other, and what a send
-- answers, `none` where it succeeds and else its error.
pub record Outside (S : Type 0) : Type 0 where
  pub uuid : ℕ → String
  pub send_telegram : String → String → String → Option String
  pub latest_subscription : String → Subscribed S
  pub send_web_push : S → String → String → String → Option String

abbrev pub insert_notification_record :
    {F Z S : Type 0} → Outside S → String → NotificationRecordDraft F Z → Ledger F Z → Ledger F Z
insert_notification_record out user draft l = record l {
  records = insert (out.uuid l.inserted) (user, draft) l.records;
  inserted = suc l.inserted;
}

abbrev pub replace_notification_record_deliveries :
    {F Z : Type 0} → String → String → List NotificationRecordDeliveryView → Ledger F Z → Ledger F Z
replace_notification_record_deliveries record_id channel ds l = record l {
  deliveries = insert (record_id, channel) ds l.deliveries;
}

-- The two channels that the program names.
pub data Channel : Type 0 where
  telegram web_push : Channel

abbrev pub channel_name : Channel → String
channel_name telegram = "telegram"
channel_name web_push = "webPush"

abbrev pub with_status :
    {F Z : Type 0} → Channel → String → NotificationRecordDraft F Z → NotificationRecordDraft F Z
with_status telegram status d = record d { telegram_status = status }
with_status web_push status d = record d { web_push_status = status }

abbrev pub updated_record :
    {F Z : Type 0}
    → String
    → Channel
    → String
    → Option (String × NotificationRecordDraft F Z)
    → List (String × (String × NotificationRecordDraft F Z))
    → List (String × (String × NotificationRecordDraft F Z))
updated_record id channel status none records = records
updated_record id channel status (some (user, draft)) records =
    insert id (user, with_status channel status draft) records

unfoldable pub update_notification_record_channel_status :
    {F Z : Type 0} → String → Channel → String → Ledger F Z → Ledger F Z
update_notification_record_channel_status id channel status l = record l {
  records = updated_record id channel status (get id l.records) l.records;
}

abbrev pub record_notify :
    {F Z : Type 0} → ℕ → Channel → String → Option String → Ledger F Z → Ledger F Z
record_notify run_id channel result message l = record l {
  notify_runs =
      l.notify_runs
      ++ (record {
        task_run_id = run_id;
        channel = channel_name channel;
        result = result;
        error_message = message;
      })
        ∷ [];
}
