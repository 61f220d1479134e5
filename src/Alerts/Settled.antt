-- ===== src/Alerts/Settled.antt =====
-- The record of a notification that was delivered.
use catnap.Common.{
  ℕ, String, Bool, true, false, ◌≡◌, refl, ap, ◌∙◌, List, [], ◌∷◌, Option, some, ◌==◌, eq_nat,
  eq_string, eq_pair, if◌then◌else◌, get, get-insert, get-insert_self, Bool-cases, Option-cases,
  inl, inr,
}
use catnap.Alerts.Texts.{append_notification_record_link}
use catnap.Alerts.Records.{
  NotificationRecordDraft, NotificationDeliveryTarget, Ledger, Subscribed, subscription,
  unsubscribed, lookup_failed, Outside, telegram, web_push, with_status,
  update_notification_record_channel_status, replace_notification_record_deliveries,
  insert_notification_record,
}
use catnap.Alerts.Deliver.{
  aggregate_telegram_status, send_telegram_to_targets, missing_config, status_at_first,
  usable_token, telegram_sent, deliver_telegram_channel, web_push_sent, Sending, draft_of, deliver,
}
use catnap.Alerts.Statuses.{
  get-update, get-update_other, notify_all-get, aggregated, usable_token-nil, sent_status,
  telegram_status_of, push_status, web_push_status_of,
}

module _ {F Z S : Type 0} (out : Outside S) (run_id : ℕ) (id user : String)
    (d : NotificationRecordDraft F Z) (l : Ledger F Z) (h : get id l.records ≡ some (user, d)) where
  sent-get :
      (token : Option String) (targets : List String) (message : String)
      → get id (telegram_sent out run_id id targets message (usable_token token targets) l).records
        ≡ some (
          user,
          with_status telegram (sent_status out (usable_token token targets) targets message) d,
        )
  sent-get token [] message = rw (usable_token-nil token) (
      get-update id telegram "error"
        (replace_notification_record_deliveries id "telegram" (missing_config ∷ []) l) user d h)
  sent-get token (t ∷ ts) message = elim (Option-cases (usable_token token (t ∷ ts))) [
    | inl missing ↦ rw missing (
        get-update id telegram "error"
          (replace_notification_record_deliveries id "telegram" (missing_config ∷ []) l) user d h)
    | inr (usable, found) ↦ rw found (
        let ds = send_telegram_to_targets out usable (t ∷ ts) message in
        let replaced = replace_notification_record_deliveries id "telegram" ds l in
        notify_all-get id run_id ds (
          update_notification_record_channel_status id telegram (aggregate_telegram_status true ds)
            replaced)
        ∙ get-update id telegram (aggregate_telegram_status true ds) replaced user d h
        ∙ ap (λ st. some (user, with_status telegram st d)) (aggregated out usable message t ts))
  ]

  telegram-get :
      (t : NotificationDeliveryTarget) (message : String)
      → d.telegram_status ≡ status_at_first t.tg_enabled
      → get id (deliver_telegram_channel out run_id id t message l).records
        ≡ some (user, with_status telegram (telegram_status_of out t message) d)
  unfolding deliver_telegram_channel
  telegram-get t message k = elim (Bool-cases t.tg_enabled) [
    | inl on ↦ rw (on, deliver_telegram_channel) (sent-get t.tg_bot_token t.tg_targets message)
    | inr off ↦
        rw (off, deliver_telegram_channel)
          (h ∙ ap (λ st. some (user, with_status telegram st d)) (rw off at k))
  ]

  push-get :
      (s : Sending F Z) (a : Subscribed S)
      → get id
          (web_push_sent out run_id id s.web_push_title s.web_push_body s.web_push_url a l).records
        ≡ some (user, with_status web_push (push_status out s a) d)
  push-get s unsubscribed = get-update id web_push "skipped" l user d h
  push-get s (lookup_failed err) = get-update id web_push "error" l user d h
  push-get s (subscription sub) =
      elim (Option-cases (out.send_web_push sub s.web_push_title s.web_push_body s.web_push_url)) [
        | inl ok ↦ rw ok (get-update id web_push "success" l user d h)
        | inr (err, failed) ↦ rw failed (get-update id web_push "error" l user d h)
      ]

  pushed-get :
      (s : Sending F Z) (on : Bool) (a : Subscribed S)
      → d.web_push_status ≡ status_at_first on
      → get id
          (if on
            then web_push_sent out run_id id s.web_push_title s.web_push_body s.web_push_url a l
            else l).records
        ≡ some (user, with_status web_push (if on then push_status out s a else "skipped") d)
  pushed-get s true a k = push-get s a
  pushed-get s false a k = h ∙ ap (λ st. some (user, with_status web_push st d)) k

module _ {F Z S : Type 0} (out : Outside S) (run_id : ℕ) (id other : String) (l : Ledger F Z)
    (h : (id == other) ≡ false) where
  telegram-other :
      (t : NotificationDeliveryTarget) (message : String)
      → get other (deliver_telegram_channel out run_id id t message l).records ≡ get other l.records
  unfolding deliver_telegram_channel
  telegram-other t message = elim (Bool-cases t.tg_enabled) [
    | inl on ↦ elim (Option-cases (usable_token t.tg_bot_token t.tg_targets)) [
      | inl missing ↦
          rw (on, missing, deliver_telegram_channel)
            (get-update_other id other telegram "error"
              (replace_notification_record_deliveries id "telegram" (missing_config ∷ []) l) h)
      | inr (token, found) ↦
          rw (on, found, deliver_telegram_channel)
            (let ds = send_telegram_to_targets out token t.tg_targets message in
              let replaced = replace_notification_record_deliveries id "telegram" ds l in
              notify_all-get other run_id ds (
                update_notification_record_channel_status id telegram
                  (aggregate_telegram_status true ds) replaced)
              ∙ get-update_other id other telegram (aggregate_telegram_status true ds) replaced h)
    ]
    | inr off ↦ rw (off, deliver_telegram_channel) refl
  ]

  push-other :
      (title body url : String) (a : Subscribed S)
      → get other (web_push_sent out run_id id title body url a l).records ≡ get other l.records
  push-other title body url unsubscribed = get-update_other id other web_push "skipped" l h
  push-other title body url (lookup_failed err) = get-update_other id other web_push "error" l h
  push-other title body url (subscription sub) =
      elim (Option-cases (out.send_web_push sub title body url)) [
        | inl ok ↦ rw ok (get-update_other id other web_push "success" l h)
        | inr (err, failed) ↦ rw failed (get-update_other id other web_push "error" l h)
      ]

  pushed-other :
      (title body url : String) (on : Bool) (a : Subscribed S)
      → get other (if on then web_push_sent out run_id id title body url a l else l).records
        ≡ get other l.records
  pushed-other title body url true a = push-other title body url a
  pushed-other title body url false a = refl

-- A delivery's record is in the end that of its user with its texts. The status of an enabled channel
-- is what its sends answered, an error where the token or the targets are missing, and for web push
-- skipped where no subscription is there; that of a disabled channel is skipped; none is left pending.
-- The record of any other id is as before.
pub delivered_settled :
    {F Z S : Type 0} (out : Outside S) (run_id : ℕ) (t : NotificationDeliveryTarget)
    (s : Sending F Z) (l : Ledger F Z) (other : String)
    → (out.uuid l.inserted == other) ≡ false
    → let id = out.uuid l.inserted in
      let message = append_notification_record_link s.telegram_text t.site_base_url id in
      (get id (deliver out run_id t s l).records
        ≡ some (
          t.user_id,
          record (draft_of t s) {
            telegram_status = telegram_status_of out t message;
            web_push_status = web_push_status_of out t s;
          },
        ))
      × (get other (deliver out run_id t s l).records ≡ get other l.records)
unfolding deliver
delivered_settled out run_id t s l other h =
    let id = out.uuid l.inserted in
    let message = append_notification_record_link s.telegram_text t.site_base_url id in
    let inserted = insert_notification_record out t.user_id (draft_of t s) l in
    let sent = deliver_telegram_channel out run_id id t message inserted in
    let first =
      telegram-get out run_id id t.user_id (draft_of t s) inserted
        (get-insert_self id (t.user_id, draft_of t s) l.records) t message refl in
    let others =
      telegram-other out run_id id other inserted h t message
      ∙ get-insert id other (t.user_id, draft_of t s) l.records
      ∙ rw h refl in
    (
      pushed-get out run_id id t.user_id
          (with_status telegram (telegram_status_of out t message) (draft_of t s)) sent first s
          t.wp_enabled (out.latest_subscription t.user_id) refl,
      pushed-other out run_id id other sent h s.web_push_title s.web_push_body s.web_push_url
            t.wp_enabled (out.latest_subscription t.user_id)
          ∙ others,
    )
