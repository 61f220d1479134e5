-- ===== src/Lazycat/Run.antt =====
-- src/lazycat.rs, `sync_user_inner` from its beginning to its end.
use catnap.Common.{
  String, Bool, false, List, [], ◌∷◌, Option, none, some, eq_string, ℤ, eq_int, ℕ, if◌then◌else◌,
  get,
}
use catnap.Lazycat.Store.{
  LazycatAccountRow, LazycatSiteMachineRecord, LazycatMachineDetailRecord, LazycatMachineRow,
  SampleKey, Store, put_lazycat_account, upsert_lazycat_site_machines,
}
use catnap.Lazycat.Sync.{
  PanelSyncSummary, empty_summary, record_panel, apply_panel_sync_summary, or_else, PanelReply,
  sync_account_is_current, panel_written,
}

-- What `sync_site` answers: an error, or the machines, the cookies, a login if there was one, and the
-- time.
pub data SiteReply (X : Type 0) : Type 0 where
  site_failed : String → SiteReply X
  site_listed :
      List (LazycatSiteMachineRecord X) → Option String → Option String → String → SiteReply X

-- A panel's answer for a machine, with its time.
pub record Answer (F Y : Type 0) : Type 0 where
  pub service_id : ℤ
  pub at : String
  pub reply : PanelReply F Y

-- The account as it is read back, where there is one.
unfoldable pub begin_sync :
    {X F Y S : Type 0}
    → String
    → Store X F Y S
    → Option LazycatAccountRow
    → Option (Store X F Y S × LazycatAccountRow)
begin_sync at s none = none
begin_sync at s (some account) = some (
    put_lazycat_account (record account { state = "syncing"; last_error = none; updated_at = at })
      s)

-- The account and the machines to go on with, where the sync does.
unfoldable pub site_answered :
    {X F Y S : Type 0}
    → LazycatAccountRow
    → String
    → SiteReply X
    → Store X F Y S
    → Store X F Y S × Option (LazycatAccountRow × List (LazycatSiteMachineRecord X))
site_answered account at (site_failed err) s =
    if sync_account_is_current account.created_at s
    then (
      (put_lazycat_account
          (record account { state = "error"; last_error = some err; updated_at = at }) s).0,
      none,
    )
    else (s, none)
site_answered account at (site_listed machines cookies_json last_login_at site_sync_at) s =
    let account = record account {
      cookies_json = cookies_json;
      last_authenticated_at = or_else last_login_at account.last_authenticated_at;
      last_site_sync_at = some site_sync_at;
    } in
    if sync_account_is_current account.created_at s
    then (
      upsert_lazycat_site_machines machines (put_lazycat_account account s).0,
      some (account, machines),
    )
    else (s, none)

abbrev pub written_for :
    {X F Y S : Type 0}
    → (LazycatMachineDetailRecord F → Option (SampleKey × S))
    → String
    → Answer F Y
    → Option (LazycatMachineRow X F)
    → Store X F Y S
    → Store X F Y S × Option (Bool × Bool)
written_for sample_of generation answer none s = (s, some (false, false))
written_for sample_of generation answer (some m) s =
    if sync_account_is_current generation s
    then panel_written sample_of m answer.at answer.reply s
    else (s, some (false, false))

-- One machine's task, when its panel has answered. `existing` is the list of machines that was read
-- when the tasks began.
unfoldable pub panel_answered :
    {X F Y S : Type 0}
    → (LazycatMachineDetailRecord F → Option (SampleKey × S))
    → String
    → List (ℤ × LazycatMachineRow X F)
    → Answer F Y
    → Store X F Y S
    → Store X F Y S × Option (Bool × Bool)
panel_answered sample_of generation existing answer s =
    written_for sample_of generation answer (get answer.service_id existing) s

abbrev pub recorded : Option (Bool × Bool) → Option PanelSyncSummary → Option PanelSyncSummary
recorded none p = none
recorded (some answer) none = none
recorded (some answer) (some p) = some (record_panel answer.0 answer.1 p)

-- The tasks in the order in which they end: the summary, where no statement failed. The tasks go on
-- after one that failed.
unfoldable pub panels_answered :
    {X F Y S : Type 0}
    → (LazycatMachineDetailRecord F → Option (SampleKey × S))
    → String
    → List (ℤ × LazycatMachineRow X F)
    → List (Answer F Y)
    → Option PanelSyncSummary
    → Store X F Y S
    → Store X F Y S × Option PanelSyncSummary
unfolding panel_answered
panels_answered sample_of generation existing [] p s = (s, p)
panels_answered sample_of generation existing (answer ∷ answers) p s =
    let done = panel_answered sample_of generation existing answer s in
    panels_answered sample_of generation existing answers (recorded done.1 p) done.0

unfoldable pub finish_sync :
    {X F Y S : Type 0}
    → (ℕ → String)
    → LazycatAccountRow
    → String
    → Option PanelSyncSummary
    → Store X F Y S
    → Store X F Y S
unfolding apply_panel_sync_summary
finish_sync show account at none s = s
finish_sync show account at (some p) s =
    if sync_account_is_current account.created_at s
    then (put_lazycat_account
        (record (apply_panel_sync_summary show p at account) { updated_at = at }) s).0
    else s

-- What the site, then the panels answer, with the times of the beginning, of the site's answer and of
-- the end.
pub record Replies (X F Y : Type 0) : Type 0 where
  pub begun_at : String
  pub site : SiteReply X
  pub site_at : String
  pub answers : List (Answer F Y)
  pub ended_at : String

abbrev after_panels :
    {X F Y S : Type 0}
    → (ℕ → String)
    → LazycatAccountRow
    → String
    → Store X F Y S × Option PanelSyncSummary
    → Store X F Y S
after_panels show account at done = finish_sync show account at done.1 done.0

abbrev after_site :
    {X F Y S : Type 0}
    → (ℕ → String)
    → (LazycatMachineDetailRecord F → Option (SampleKey × S))
    → Replies X F Y
    → Store X F Y S
    → Option (LazycatAccountRow × List (LazycatSiteMachineRecord X))
    → Store X F Y S
after_site show sample_of r s none = s
after_site show sample_of r s (some (account, machines)) =
    after_panels show account r.ended_at
      (panels_answered sample_of account.created_at s.machines r.answers (some empty_summary) s)

abbrev after_begin :
    {X F Y S : Type 0}
    → (ℕ → String)
    → (LazycatMachineDetailRecord F → Option (SampleKey × S))
    → Replies X F Y
    → Store X F Y S
    → Option (Store X F Y S × LazycatAccountRow)
    → Store X F Y S
after_begin show sample_of r s none = s
after_begin show sample_of r s (some (begun, account)) =
    let answered = site_answered account r.site_at r.site begun in
    after_site show sample_of r answered.0 answered.1

unfoldable pub sync_user_inner :
    {X F Y S : Type 0}
    → (ℕ → String)
    → (LazycatMachineDetailRecord F → Option (SampleKey × S))
    → Replies X F Y
    → Store X F Y S
    → Store X F Y S
unfolding begin_sync site_answered panels_answered finish_sync
sync_user_inner show sample_of r s =
    after_begin show sample_of r s (begin_sync r.begun_at s s.account)
