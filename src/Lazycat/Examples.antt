-- ===== src/Lazycat/Examples.antt =====
-- A container and a NAT machine: a sync in which one panel answers and one fails, and one in which two
-- mappings have one key.
use catnap.Common.{
  ℕ, String, true, not, ◌&&◌, ◌≡◌, refl, List, [], ◌∷◌, Option, none, some, ℤ, pos, eq_int, get,
  insert, if◌then◌else◌, is_some,
}
use catnap.Lazycat.Store.{
  LazycatAccountRow, LazycatSiteMachineRecord, LazycatMachineDetailRecord, LazycatPortMappingRecord,
  LazycatMachineRow, SampleKey, Store, site_row, mapping_row, insert_mappings,
  replace_lazycat_port_mappings, update_lazycat_machine_detail, upsert_machines,
  upsert_lazycat_site_machines,
}
use catnap.Lazycat.Sync.{empty_summary, replace_families, detailed, panel_failed}
use catnap.Lazycat.Run.{
  site_listed, Answer, Replies, panel_answered, panels_answered, sync_user_inner,
}
use catnap.Lazycat.Rows.{rows_of}
use catnap.Lazycat.Mappings.{expected_rows, panel_mappings_exact}
use catnap.Lazycat.Ends.{listed_account, sync_ends}
use catnap.Lazycat.Panels.{some_asked, some_succeeded}

abbrev Text : Type 0
Text = String

abbrev account : LazycatAccountRow
account = record {
  email = "a@b.c";
  password = "p";
  cookies_json = none;
  state = "ready";
  last_error = none;
  last_authenticated_at = none;
  last_site_sync_at = none;
  last_panel_sync_at = some "t0";
  created_at = "t0";
  updated_at = "t0";
}

abbrev listed_machine : ℤ → String → LazycatSiteMachineRecord Text
listed_machine id kind = record {
  service_id = id;
  site = "vps";
  panel_kind = some kind;
  panel_url = none;
  panel_hash = none;
  last_site_sync_at = "t1";
}

abbrev machine : ℤ → String → LazycatMachineRow Text ℕ
machine id kind = site_row (listed_machine id kind) none

abbrev detail : ℤ → String → LazycatMachineDetailRecord ℕ
detail id kind = record {
  service_id = id;
  panel_kind = some kind;
  panel_url = none;
  panel_hash = none;
  traffic_used_gb = none;
  traffic_limit_gb = some 100;
  traffic_reset_day = none;
  traffic_last_reset_at = none;
  traffic_display = none;
  detail_state = "ready";
  detail_error = none;
  last_panel_sync_at = "t2";
}

abbrev port : String → String → LazycatPortMappingRecord Text
port family key = record { family = family; mapping_key = key; mapping = "22" }

abbrev no_sample : LazycatMachineDetailRecord ℕ → Option (SampleKey × Text)
no_sample d = none

abbrev before : Store Text ℕ Text Text
before = record {
  account = some account;
  machines = (pos 7, machine (pos 7) "container") ∷ (pos 8, machine (pos 8) "nat") ∷ [];
  mappings =
      mapping_row (pos 7) "t0" (port "nat" "1") ∷ mapping_row (pos 8) "t0" (port "nat" "1") ∷ [];
  samples = [];
}

abbrev ports : List (LazycatPortMappingRecord Text)
ports = port "v4" "1" ∷ port "v6" "1" ∷ port "v4" "2" ∷ []

abbrev answered : Answer ℕ Text
answered = record {
  service_id = pos 7;
  at = "t2";
  reply = detailed (detail (pos 7) "container") ports;
}

abbrev after : Store Text ℕ Text Text
after = (panel_answered no_sample "t0" before.machines answered before).0

machine_found : get (pos 7) before.machines ≡ some (machine (pos 7) "container")
unfolding get
machine_found = refl

both_written :
    panel_answered no_sample "t0" before.machines answered before ≡ (after, some (true, true))
unfolding panel_answered get replace_families replace_lazycat_port_mappings insert_mappings
    update_lazycat_machine_detail
both_written = refl

panel_mappings_exact_example :
    (rows_of (pos 7) "v4" after.mappings
      ≡ expected_rows (detail (pos 7) "container") ports (pos 7) "v4")
    × (rows_of (pos 7) "v6" after.mappings
        ≡ expected_rows (detail (pos 7) "container") ports (pos 7) "v6")
    × (rows_of (pos 7) "nat" after.mappings
        ≡ expected_rows (detail (pos 7) "container") ports (pos 7) "nat")
    × (rows_of (pos 8) "nat" after.mappings ≡ rows_of (pos 8) "nat" before.mappings)
panel_mappings_exact_example =
    panel_mappings_exact no_sample "t0" "t2" before.machines (pos 7) (machine (pos 7) "container")
      (detail (pos 7) "container") ports before after (pos 8) "nat" machine_found refl both_written
      refl

-- Two mappings of one key: the task of machine 7 fails.
abbrev clashing : Replies Text ℕ Text
clashing = record {
  begun_at = "t1";
  site =
      site_listed (listed_machine (pos 7) "container" ∷ listed_machine (pos 8) "nat" ∷ []) none none
        "t1";
  site_at = "t1";
  answers =
      record {
        service_id = pos 7;
        at = "t2";
        reply = detailed (detail (pos 7) "container") (port "v4" "1" ∷ port "v4" "1" ∷ []);
      }
      ∷ record { service_id = pos 8; at = "t3"; reply = panel_failed "timeout" }
      ∷ [];
  ended_at = "t4";
}

clash_syncing :
    (sync_user_inner (λ n. "n") no_sample clashing before).account
    ≡ some (listed_account account "t1" none none "t1")
unfolding sync_user_inner get insert replace_families replace_lazycat_port_mappings insert_mappings
    update_lazycat_machine_detail upsert_lazycat_site_machines upsert_machines panel_answered
    panels_answered
clash_syncing = refl

abbrev mixed : Replies Text ℕ Text
mixed = record clashing {
  answers =
      answered ∷ record { service_id = pos 8; at = "t3"; reply = panel_failed "timeout" } ∷ [];
}

sync_ends_example :
    let begun = listed_account account "t1" none none "t1" in
    let listed =
      upsert_lazycat_site_machines
        (listed_machine (pos 7) "container" ∷ listed_machine (pos 8) "nat" ∷ [])
        (record before { account = some begun }) in
    let panels =
      panels_answered no_sample "t0" listed.machines mixed.answers (some empty_summary) listed in
    let all_failed =
      some_asked listed.machines mixed.answers
      && not (some_succeeded listed.machines mixed.answers) in
    (b : LazycatAccountRow) × ((sync_user_inner (λ n. "n") no_sample mixed before).account ≡ some b)
    × (b.created_at ≡ "t0")
    × (b.state
        ≡ (if is_some panels.1 then (if all_failed then "error" else "ready") else "syncing"))
    × (b.last_panel_sync_at ≡ (if is_some panels.1 && not all_failed then some "t4" else some "t0"))
sync_ends_example =
    sync_ends (λ n. "n") no_sample account
      (listed_machine (pos 7) "container" ∷ listed_machine (pos 8) "nat" ∷ []) none none "t1" mixed
      before refl refl
