-- ===== src/Alerts/Statuses.antt =====
-- The statuses that the sends of a channel give, and the records that the statements leave.
use catnap.Common.{
  ℕ, suc, ◌+◌, ◌≤◌, String, Bool, true, false, not, ◌&&◌, ltb, ◌≡◌, refl, ap, List, [], ◌∷◌, Option,
  none, some, ◌==◌, eq_nat, eq_string, eq_pair, if◌then◌else◌, is_some, keep, all, any, length, get,
  get-insert, get-insert_self, arith, Option-cases, inl, inr,
}
use catnap.Alerts.Records.{
  NotificationRecordDraft, NotificationDeliveryTarget, NotificationRecordDeliveryView, Ledger,
  Subscribed, subscription, unsubscribed, lookup_failed, Outside, Channel, with_status,
  update_notification_record_channel_status,
}
use catnap.Alerts.Deliver.{
  count_status, has_status, aggregate_telegram_status, send_telegram_to_targets, notify_all,
  usable_token, Sending,
}

module _ {S : Type 0} (out : Outside S) (token message : String) where
  abbrev fails : String → Bool
  fails target = is_some (out.send_telegram token target message)

  -- What a telegram that is sent to several targets comes to.
  abbrev pub sends_status : List String → String
  sends_status targets =
      if all (λ t. not (fails t)) targets
      then "success"
      else (if all fails targets then "error" else "partial_success")

  counts :
      (targets : List String)
      → let ds = send_telegram_to_targets out token targets message in
        (length ds ≡ length targets)
        × (count_status "success" ds ≡ length (keep (λ t. not (fails t)) targets))
        × (count_status "error" ds ≡ length (keep fails targets))
  counts [] = (refl, refl, refl)
  counts (t ∷ ts) =
      let rest = counts ts in
      elim (Option-cases (out.send_telegram token t message)) [
        | inl sent ↦ rw sent (ap suc rest.0, ap suc rest.1, rest.2)
        | inr (err, failed) ↦ rw failed (ap suc rest.0, rest.1, ap suc rest.2)
      ]

module _ {A : Type 0} (p : A → Bool) where
  length-keep_le : (xs : List A) → length (keep p xs) ≤ length xs
  length-keep_le [] = omega arith
  length-keep_le (x ∷ xs) = ground (arith, length-keep_le xs)

  length-keep-all : (xs : List A) → (length (keep p xs) == length xs) ≡ all p xs
  length-keep-all [] = refl
  length-keep-all (x ∷ xs) = ground (arith, length-keep-all xs, length-keep_le xs)

  length-keep_both :
      (xs : List A) → length (keep p xs) + length (keep (λ x. not (p x)) xs) ≡ length xs
  length-keep_both [] = omega arith
  length-keep_both (x ∷ xs) = ground (arith, length-keep_both xs)

module _ {F Z : Type 0} where
  notify_all-records :
      (run_id : ℕ) (ds : List NotificationRecordDeliveryView) (l : Ledger F Z)
      → (notify_all run_id ds l).records ≡ l.records
  unfolding notify_all
  notify_all-records run_id [] l = refl
  notify_all-records run_id (d ∷ ds) l = notify_all-records run_id ds _

  -- A channel's status of the record that has an id, and the record of another id.
  pub get-update :
      (id : String) (c : Channel) (status : String) (l : Ledger F Z) (user : String)
      (d : NotificationRecordDraft F Z)
      → get id l.records ≡ some (user, d)
      → get id (update_notification_record_channel_status id c status l).records
        ≡ some (user, with_status c status d)
  unfolding update_notification_record_channel_status
  get-update id c status l user d h =
      rw h (get-insert_self id (user, with_status c status d) l.records)

  pub get-update_other :
      (id other : String) (c : Channel) (status : String) (l : Ledger F Z)
      → (id == other) ≡ false
      → get other (update_notification_record_channel_status id c status l).records
        ≡ get other l.records
  unfolding update_notification_record_channel_status
  get-update_other id other c status l h = elim (Option-cases (get id l.records)) [
    | inl missing ↦ rw missing refl
    | inr ((user, d), found) ↦
        rw (found, get-insert id other (user, with_status c status d) l.records, h) refl
  ]

  pub notify_all-get :
      (id : String) (run_id : ℕ) (ds : List NotificationRecordDeliveryView) (l : Ledger F Z)
      → get id (notify_all run_id ds l).records ≡ get id l.records
  notify_all-get id run_id ds l = ap (get id) (notify_all-records run_id ds l)

two_counts :
    {A : Type 0} (s e n : ℕ) (a b : Bool) (x y z rest : A)
    → s + e ≡ n
    → (s == n) ≡ a
    → (e == n) ≡ b
    → (if s == n then x else (if e == n then y else (if ltb 0 s && ltb 0 e then z else rest)))
      ≡ (if a then x else (if b then y else z))
two_counts s e n a b x y z rest h i j = ground arith

pub aggregated :
    {S : Type 0} (out : Outside S) (token message t : String) (ts : List String)
    → aggregate_telegram_status true (send_telegram_to_targets out token (t ∷ ts) message)
      ≡ sends_status out token message (t ∷ ts)
unfolding aggregate_telegram_status
aggregated out token message t ts =
    let c = counts out token message (t ∷ ts) in
    let ok = length-keep-all (λ t. not (fails out token message t)) (t ∷ ts) in
    let bad = length-keep-all (fails out token message) (t ∷ ts) in
    let both = length-keep_both (fails out token message) (t ∷ ts) in
    let ds = send_telegram_to_targets out token (t ∷ ts) message in
    two_counts (count_status "success" ds) (count_status "error" ds) (length ds)
      (all (λ t. not (fails out token message t)) (t ∷ ts)) (all (fails out token message) (t ∷ ts))
      "success" "error" "partial_success"
      (if any (has_status "pending") ds
        then "pending"
        else (if all (has_status "skipped") ds then "skipped" else "error"))
      (omega (arith, c.0, c.1, c.2, both)) (rw (c.1, c.0) ok) (rw (c.2, c.0) bad)

pub usable_token-nil : (token : Option String) → usable_token token [] ≡ none
usable_token-nil none = refl
usable_token-nil (some t) = ground arith

module _ {S : Type 0} (out : Outside S) where
  -- What the status of a channel is in the end, from the settings and what the sends answer.
  abbrev pub sent_status : Option String → List String → String → String
  sent_status none targets message = "error"
  sent_status (some token) targets message = sends_status out token message targets

  abbrev pub telegram_status_of : NotificationDeliveryTarget → String → String
  telegram_status_of t message =
      if t.tg_enabled
      then sent_status (usable_token t.tg_bot_token t.tg_targets) t.tg_targets message
      else "skipped"

  abbrev pub push_status : {F Z : Type 0} → Sending F Z → Subscribed S → String
  push_status s unsubscribed = "skipped"
  push_status s (lookup_failed err) = "error"
  push_status s (subscription sub) =
      if is_some (out.send_web_push sub s.web_push_title s.web_push_body s.web_push_url)
      then "error"
      else "success"

  abbrev pub web_push_status_of : {F Z : Type 0} → NotificationDeliveryTarget → Sending F Z → String
  web_push_status_of t s =
      if t.wp_enabled then push_status s (out.latest_subscription t.user_id) else "skipped"
