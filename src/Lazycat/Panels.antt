-- ===== src/Lazycat/Panels.antt =====
-- What the answers of the panels leave: the account, and the counts of the summary.
use catnap.Common.{
  String, Bool, true, false, not, ◌&&◌, ◌||◌, ◌≡◌, refl, ◌∙◌, sym, ap, List, [], ◌∷◌, Option, none,
  some, ◌==◌, eq_nat, eq_string, ℤ, eq_int, if◌then◌else◌, get, any, arith, is_some, unwrap_or, ◌⊎◌,
  Bool-cases, Option-cases, inl, inr, some_inj, none-ne-some,
}
use catnap.Lazycat.Store.{
  LazycatMachineDetailRecord, LazycatMachineRow, SampleKey, Store, update_lazycat_machine_detail,
}
use catnap.Lazycat.Sync.{
  PanelSyncSummary, record_panel, PanelReply, detailed, no_panel, panel_failed, is_current_account,
  sync_account_is_current, panel_written, write_sample, build_traffic_sample,
  preserve_machine_traffic_cache, has_fresh_traffic_snapshot, unchanged_detail, replace_families,
  by_family, cleared,
}
use catnap.Lazycat.Run.{Answer, panel_answered, panels_answered, written_for, recorded}

-- Whether a machine's panel was asked, and whether it gave a detail.
abbrev pub asked : {X F Y : Type 0} → Option (LazycatMachineRow X F) → PanelReply F Y → Bool
asked none reply = false
asked (some m) no_panel = false
asked (some m) (detailed d ms) = true
asked (some m) (panel_failed err) = true

abbrev pub succeeded : {X F Y : Type 0} → Option (LazycatMachineRow X F) → PanelReply F Y → Bool
succeeded none reply = false
succeeded (some m) no_panel = false
succeeded (some m) (detailed d ms) = true
succeeded (some m) (panel_failed err) = false

abbrev pub some_asked :
    {X F Y : Type 0} → List (ℤ × LazycatMachineRow X F) → List (Answer F Y) → Bool
some_asked existing = any (λ a. asked (get a.service_id existing) a.reply)

abbrev pub some_succeeded :
    {X F Y : Type 0} → List (ℤ × LazycatMachineRow X F) → List (Answer F Y) → Bool
some_succeeded existing = any (λ a. succeeded (get a.service_id existing) a.reply)

recorded-none : (o : Option (Bool × Bool)) → recorded o none ≡ none
recorded-none none = refl
recorded-none (some a) = refl

and_true : (b : Bool) → b ≡ (b && true)
and_true b = ground arith

and_more : (q p a more : Bool) → q ≡ (p && not a) → (q && not more) ≡ (p && not (a || more))
and_more q p a more h = ground arith

pub all_asked :
    (x y a b : Bool) → x ≡ (true && not a) → y ≡ (true && not b) → (not x && y) ≡ (a && not b)
all_asked x y a b h k = ground arith

record_panel-counts :
    {X F Y : Type 0} (m : Option (LazycatMachineRow X F)) (reply : PanelReply F Y)
    (p : PanelSyncSummary)
    → let q = record_panel (asked m reply) (succeeded m reply) p in
      ((q.attempted == 0) ≡ (p.attempted == 0 && not (asked m reply)))
      × ((q.successful == 0) ≡ (p.successful == 0 && not (succeeded m reply)))
record_panel-counts none reply p = ground arith
record_panel-counts (some m) no_panel p = ground arith
record_panel-counts (some m) (detailed d ms) p = ground arith
record_panel-counts (some m) (panel_failed err) p = ground arith

one_or_none :
    {A : Type 0} (b : Bool) (a : A)
    → ((if b then some a else none) ≡ none) ⊎ ((if b then some a else none) ≡ some a)
one_or_none true a = inr refl
one_or_none false a = inl refl

module _ {X F Y S : Type 0} where
  update-account :
      (d : LazycatMachineDetailRecord F) (s : Store X F Y S)
      → (update_lazycat_machine_detail d s).account ≡ s.account
  unfolding update_lazycat_machine_detail
  update-account d s = refl

  write_sample-account :
      (o : Option (SampleKey × S)) (s : Store X F Y S) → (write_sample o s).account ≡ s.account
  write_sample-account none s = refl
  write_sample-account (some sample) s = refl

module _ {X F Y S : Type 0} (sample_of : LazycatMachineDetailRecord F → Option (SampleKey × S))
    (generation : String) (existing : List (ℤ × LazycatMachineRow X F)) where
  panel_written-account :
      (m : LazycatMachineRow X F) (at : String) (reply : PanelReply F Y) (s : Store X F Y S)
      → (panel_written sample_of m at reply s).0.account ≡ s.account
  panel_written-account m at (detailed d ms) s =
      write_sample-account
        (build_traffic_sample sample_of (preserve_machine_traffic_cache d m)
          (has_fresh_traffic_snapshot d))
        (update_lazycat_machine_detail (preserve_machine_traffic_cache d m) s)
      ∙ update-account (preserve_machine_traffic_cache d m) s
  panel_written-account m at no_panel s = update-account (unchanged_detail m "ready" none at) s
  panel_written-account m at (panel_failed err) s =
      update-account
        (unchanged_detail m (if is_some m.last_panel_sync_at then "stale" else "error") (some err)
          (unwrap_or m.last_panel_sync_at at))
        s

  panel_written-answer :
      (m : LazycatMachineRow X F) (at : String) (reply : PanelReply F Y) (s : Store X F Y S)
      → ((panel_written sample_of m at reply s).1 ≡ none)
        ⊎ ((panel_written sample_of m at reply s).1
            ≡ some (asked (some m) reply, succeeded (some m) reply))
  panel_written-answer m at (detailed d ms) s =
      one_or_none
        (replace_families m.service_id d.last_panel_sync_at (by_family d.panel_kind ms)
          s.mappings).1
        (true, true)
  panel_written-answer m at no_panel s =
      one_or_none
        (replace_families m.service_id at (cleared ("v4" ∷ "v6" ∷ "nat" ∷ [])) s.mappings).1
        (false, false)
  panel_written-answer m at (panel_failed err) s = inr refl

  written_for-account :
      (answer : Answer F Y) (m : LazycatMachineRow X F) (s : Store X F Y S)
      → (written_for sample_of generation answer (some m) s).0.account ≡ s.account
  written_for-account answer m s = elim (Bool-cases (sync_account_is_current generation s)) [
    | inl current ↦ rw current (panel_written-account m answer.at answer.reply s)
    | inr replaced ↦ rw replaced refl
  ]

  panel_answered-account :
      (answer : Answer F Y) (s : Store X F Y S)
      → (panel_answered sample_of generation existing answer s).0.account ≡ s.account
  unfolding panel_answered
  panel_answered-account answer s = elim (Option-cases (get answer.service_id existing)) [
    | inl missing ↦ rw missing refl
    | inr (m, found) ↦ rw found (written_for-account answer m s)
  ]

  panel_answered-answer :
      (answer : Answer F Y) (s : Store X F Y S)
      → sync_account_is_current generation s ≡ true
      → ((panel_answered sample_of generation existing answer s).1 ≡ none)
        ⊎ ((panel_answered sample_of generation existing answer s).1
            ≡ some (
              asked (get answer.service_id existing) answer.reply,
              succeeded (get answer.service_id existing) answer.reply,
            ))
  unfolding panel_answered
  panel_answered-answer answer s c = elim (Option-cases (get answer.service_id existing)) [
    | inl missing ↦ rw missing (inr refl)
    | inr (m, found) ↦ rw (found, c) (panel_written-answer m answer.at answer.reply s)
  ]

  pub panels-account :
      (answers : List (Answer F Y)) (p : Option PanelSyncSummary) (s : Store X F Y S)
      → (panels_answered sample_of generation existing answers p s).0.account ≡ s.account
  unfolding panels_answered
  panels-account [] p s = refl
  panels-account (a ∷ answers) p s =
      let done = panel_answered sample_of generation existing a s in
      panels-account answers (recorded done.1 p) done.0 ∙ panel_answered-account a s

  panels-failed :
      (answers : List (Answer F Y)) (s : Store X F Y S)
      → (panels_answered sample_of generation existing answers none s).1 ≡ none
  unfolding panels_answered
  panels-failed [] s = refl
  panels-failed (a ∷ answers) s =
      let done = panel_answered sample_of generation existing a s in
      rw (panels_answered, recorded-none done.1) (panels-failed answers done.0)

  pub panels-counts :
      (answers : List (Answer F Y)) (p done : PanelSyncSummary) (s : Store X F Y S)
      → sync_account_is_current generation s ≡ true
      → (panels_answered sample_of generation existing answers (some p) s).1 ≡ some done
      → ((done.attempted == 0) ≡ (p.attempted == 0 && not (some_asked existing answers)))
        × ((done.successful == 0) ≡ (p.successful == 0 && not (some_succeeded existing answers)))
  unfolding panels_answered
  panels-counts [] p done s c h =
      rw (← (some_inj h)) (and_true (p.attempted == 0), and_true (p.successful == 0))
  panels-counts (a ∷ answers) p done s c h =
      let step = panel_answered sample_of generation existing a s in
      let m = get a.service_id existing in
      elim (panel_answered-answer a s c) [
        | inl failed ↦ absurd (
            none-ne-some (sym (panels-failed answers step.0) ∙ (rw (panels_answered, failed) at h)))
        | inr ok ↦
            let q = record_panel (asked m a.reply) (succeeded m a.reply) p in
            let rest =
              panels-counts answers q done step.0
                (ap (is_current_account generation) (panel_answered-account a s) ∙ c)
                (rw (panels_answered, ok) at h) in
            let here = record_panel-counts m a.reply p in
            (
              rest.0
                  ∙ and_more (q.attempted == 0) (p.attempted == 0) (asked m a.reply)
                      (some_asked existing answers) here.0,
              rest.1
                  ∙ and_more (q.successful == 0) (p.successful == 0) (succeeded m a.reply)
                      (some_succeeded existing answers) here.1,
            )
      ]
