-- ===== src/Lazycat/Ends.antt =====
-- How a synchronisation ends.
use catnap.Common.{
  ℕ, String, Bool, true, false, not, ◌&&◌, ◌≡◌, refl, ◌∙◌, ap, List, [], ◌∷◌, Option, none, some,
  ◌==◌, ==_refl, eq_nat, eq_string, eq_int, if◌then◌else◌, is_some,
}
use catnap.Lazycat.Store.{
  LazycatAccountRow, LazycatSiteMachineRecord, LazycatMachineDetailRecord, SampleKey, Store,
  upsert_lazycat_site_machines,
}
use catnap.Lazycat.Sync.{
  PanelSyncSummary, empty_summary, apply_panel_sync_summary, or_else, is_current_account,
}
use catnap.Lazycat.Run.{site_listed, Replies, panels_answered, finish_sync, sync_user_inner}
use catnap.Lazycat.Panels.{some_asked, some_succeeded, all_asked, panels-account, panels-counts}

-- The account and the store when the site has answered.
abbrev pub listed_account :
    LazycatAccountRow → String → Option String → Option String → String → LazycatAccountRow
listed_account account begun_at cookies_json last_login_at site_sync_at = record account {
  state = "syncing";
  last_error = none;
  updated_at = begun_at;
  cookies_json = cookies_json;
  last_authenticated_at = or_else last_login_at account.last_authenticated_at;
  last_site_sync_at = some site_sync_at;
}

upsert-account :
    {X F Y S : Type 0} (machines : List (LazycatSiteMachineRecord X)) (s : Store X F Y S)
    → (upsert_lazycat_site_machines machines s).account ≡ s.account
unfolding upsert_lazycat_site_machines
upsert-account [] s = refl
upsert-account (m ∷ ms) s = refl

finished :
    {X F Y S : Type 0} (show : ℕ → String) (begun : LazycatAccountRow) (at : String)
    (o : Option PanelSyncSummary) (s : Store X F Y S) (failed : Bool)
    → s.account ≡ some begun
    → ((p : PanelSyncSummary) → o ≡ some p → (not (p.attempted == 0) && p.successful == 0) ≡ failed)
    → (b : LazycatAccountRow) × ((finish_sync show begun at o s).account ≡ some b)
      × (b.created_at ≡ begun.created_at)
      × (b.state ≡ (if is_some o then (if failed then "error" else "ready") else begun.state))
      × (b.last_panel_sync_at
          ≡ (if is_some o && not failed then some at else begun.last_panel_sync_at))
unfolding finish_sync apply_panel_sync_summary
finished show begun at none s failed a f = (begun, a, refl, refl, refl)
finished show begun at (some p) s true a f =
    rw (finish_sync, apply_panel_sync_summary, a, ==_refl begun.created_at, f p refl)
      (_, refl, refl, refl, refl)
finished show begun at (some p) s false a f =
    rw (finish_sync, apply_panel_sync_summary, a, ==_refl begun.created_at, f p refl)
      (_, refl, refl, refl, refl)

-- When the site has listed its machines, the account is there at the end. It is still syncing if a
-- statement of some machine's task failed. Else it is in error, with the time of its last panel sync
-- as it was, if panels were asked and none gave a detail, and otherwise ready, with the time of the
-- end.
pub sync_ends :
    {X F Y S : Type 0} (show : ℕ → String)
    (sample_of : LazycatMachineDetailRecord F → Option (SampleKey × S))
    (account : LazycatAccountRow) (machines : List (LazycatSiteMachineRecord X))
    (cookies_json last_login_at : Option String) (site_sync_at : String) (r : Replies X F Y)
    (s : Store X F Y S)
    → s.account ≡ some account
    → r.site ≡ site_listed machines cookies_json last_login_at site_sync_at
    → let begun = listed_account account r.begun_at cookies_json last_login_at site_sync_at in
      let listed = upsert_lazycat_site_machines machines (record s { account = some begun }) in
      let panels =
        panels_answered sample_of account.created_at listed.machines r.answers
          (some empty_summary)
          listed in
      let all_failed =
        some_asked listed.machines r.answers && not (some_succeeded listed.machines r.answers) in
      (b : LazycatAccountRow) × ((sync_user_inner show sample_of r s).account ≡ some b)
      × (b.created_at ≡ account.created_at)
      × (b.state
          ≡ (if is_some panels.1 then (if all_failed then "error" else "ready") else "syncing"))
      × (b.last_panel_sync_at ≡ (
          if is_some panels.1 && not all_failed
          then some r.ended_at
          else account.last_panel_sync_at))
unfolding sync_user_inner
sync_ends show sample_of account machines cookies_json last_login_at site_sync_at r s a l =
    let begun = listed_account account r.begun_at cookies_json last_login_at site_sync_at in
    let listed = upsert_lazycat_site_machines machines (record s { account = some begun }) in
    let panels =
      panels_answered sample_of account.created_at listed.machines r.answers (some empty_summary)
        listed in
    let all_failed =
      some_asked listed.machines r.answers && not (some_succeeded listed.machines r.answers) in
    rw (sync_user_inner, a, l, ==_refl account.created_at)
      (finished show begun r.ended_at panels.1 panels.0 all_failed
        (panels-account sample_of account.created_at listed.machines r.answers (some empty_summary)
            listed
          ∙ upsert-account machines (record s { account = some begun }))
        (λ p done.
          let counts =
            panels-counts sample_of account.created_at listed.machines r.answers empty_summary p
              listed
              (ap (is_current_account account.created_at)
                  (upsert-account machines (record s { account = some begun }))
                ∙ ==_refl account.created_at)
              done in
          all_asked (p.attempted == 0) (p.successful == 0) (some_asked listed.machines r.answers)
            (some_succeeded listed.machines r.answers) counts.0 counts.1))
