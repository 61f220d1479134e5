-- ===== src/Lazycat/Sync.antt =====
-- src/lazycat.rs, `sync_user_inner`: one synchronisation. What the site and the panels answer, and the
-- times at which they do, are arguments; no other request runs between a look at the account and the
-- writes that follow it.
use catnap.Common.{
  ℕ, ◌+◌, String, Bool, true, false, not, ◌&&◌, List, [], ◌∷◌, ◌++◌, Option, none, some, ◌==◌,
  eq_nat, eq_string, eq_option, ℤ, eq_int, if◌then◌else◌, keep, map, is_some, unwrap_or,
  String-append,
}
use catnap.Lazycat.Store.{
  LazycatAccountRow, LazycatMachineDetailRecord, LazycatPortMappingRecord, LazycatMachineRow,
  MappingRow, SampleKey, Store, upsert_lazycat_traffic_sample, update_lazycat_machine_detail,
  replace_lazycat_port_mappings,
}

pub record PanelSyncSummary : Type 0 where
  pub attempted : ℕ
  pub successful : ℕ
  pub failed : ℕ

abbrev pub empty_summary : PanelSyncSummary
empty_summary = record { attempted = 0; successful = 0; failed = 0 }

-- `PanelSyncSummary::record`; `usize` holds the number of machines.
abbrev pub record_panel : Bool → Bool → PanelSyncSummary → PanelSyncSummary
record_panel false successful p = p
record_panel true true p = record p { attempted = p.attempted + 1; successful = p.successful + 1 }
record_panel true false p = record p { attempted = p.attempted + 1; failed = p.failed + 1 }

-- `show`: how a number is printed.
unfoldable pub apply_panel_sync_summary :
    (ℕ → String) → PanelSyncSummary → String → LazycatAccountRow → LazycatAccountRow
apply_panel_sync_summary show p at account =
    if not (p.attempted == 0) && p.successful == 0
    then record account { state = "error"; last_error = some "面板同步全部失败，已保留最近一次成功缓存" }
    else record account {
      state = "ready";
      last_panel_sync_at = some at;
      last_error =
          if p.failed == 0
          then none
          else some (
              String-append "部分面板同步失败（" (
                String-append (show p.failed)
                  (String-append "/" (String-append (show p.attempted) "），已保留最近一次成功缓存"))));
    }

abbrev pub is_container : Option String → Bool
is_container kind = kind == some "container"

abbrev pub is_nat : Option String → Bool
is_nat kind = kind == some "nat"

abbrev pub stale_port_mapping_families : Option String → List String
stale_port_mapping_families kind =
    if is_container kind
    then "nat" ∷ []
    else (if is_nat kind then "v4" ∷ "v6" ∷ [] else "v4" ∷ "v6" ∷ "nat" ∷ [])

abbrev pub families_of : Option String → List String
families_of kind = if is_container kind then "v4" ∷ "v6" ∷ [] else "nat" ∷ []

abbrev pub or_else : {A : Type 0} → Option A → Option A → Option A
or_else none b = b
or_else (some a) b = some a

abbrev pub preserve_machine_traffic_cache :
    {X F : Type 0}
    → LazycatMachineDetailRecord F
    → LazycatMachineRow X F
    → LazycatMachineDetailRecord F
preserve_machine_traffic_cache d m = record d {
  traffic_used_gb = or_else d.traffic_used_gb m.traffic_used_gb;
  traffic_limit_gb = or_else d.traffic_limit_gb m.traffic_limit_gb;
  traffic_reset_day = or_else d.traffic_reset_day m.traffic_reset_day;
  traffic_last_reset_at = or_else d.traffic_last_reset_at m.traffic_last_reset_at;
  traffic_display = or_else d.traffic_display m.traffic_display;
}

abbrev pub has_fresh_traffic_snapshot : {F : Type 0} → LazycatMachineDetailRecord F → Bool
has_fresh_traffic_snapshot d =
    is_some d.traffic_used_gb && is_some d.traffic_limit_gb && is_some d.traffic_reset_day

-- What `sync_machine_detail` answers: a panel's detail and its mappings, nothing, or an error.
pub data PanelReply (F Y : Type 0) : Type 0 where
  detailed : LazycatMachineDetailRecord F → List (LazycatPortMappingRecord Y) → PanelReply F Y
  no_panel : PanelReply F Y
  panel_failed : String → PanelReply F Y

abbrev pub is_current_account : String → Option LazycatAccountRow → Bool
is_current_account created_at none = false
is_current_account created_at (some account) = account.created_at == created_at

abbrev pub sync_account_is_current : {X F Y S : Type 0} → String → Store X F Y S → Bool
sync_account_is_current created_at s = is_current_account created_at s.account

-- What is written for each family, until a statement fails; the writes before stay.
unfoldable pub replace_families :
    {Y : Type 0}
    → ℤ
    → String
    → List (String × List (LazycatPortMappingRecord Y))
    → List (MappingRow Y)
    → List (MappingRow Y) × Bool
replace_families id at [] rows = (rows, true)
replace_families id at ((family, ms) ∷ more) rows =
    elim (replace_lazycat_port_mappings id family ms at rows) [
      | none ↦ (rows, false)
      | some replaced ↦ replace_families id at more replaced
    ]

abbrev pub cleared : {Y : Type 0} → List String → List (String × List (LazycatPortMappingRecord Y))
cleared = map (λ family. (family, []))

-- The mappings of a detail by family, and the families that it has not.
abbrev pub by_family :
    {Y : Type 0}
    → Option String
    → List (LazycatPortMappingRecord Y)
    → List (String × List (LazycatPortMappingRecord Y))
by_family kind ms =
    map (λ family. (family, keep (λ m. m.family == family) ms)) (families_of kind)
    ++ cleared (stale_port_mapping_families kind)

abbrev pub with_mappings :
    {X F Y S : Type 0}
    → List (MappingRow Y) × Bool
    → Bool × Bool
    → Store X F Y S
    → Store X F Y S × Option (Bool × Bool)
with_mappings replaced answer s =
    (record s { mappings = replaced.0 }, if replaced.1 then some answer else none)

abbrev pub write_sample :
    {X F Y S : Type 0} → Option (SampleKey × S) → Store X F Y S → Store X F Y S
write_sample none s = s
write_sample (some sample) s = upsert_lazycat_traffic_sample sample s

abbrev pub unchanged_detail :
    {X F : Type 0}
    → LazycatMachineRow X F
    → String
    → Option String
    → String
    → LazycatMachineDetailRecord F
unchanged_detail m detail_state detail_error at = record {
  service_id = m.service_id;
  panel_kind = m.panel_kind;
  panel_url = m.panel_url;
  panel_hash = m.panel_hash;
  traffic_used_gb = m.traffic_used_gb;
  traffic_limit_gb = m.traffic_limit_gb;
  traffic_reset_day = m.traffic_reset_day;
  traffic_last_reset_at = m.traffic_last_reset_at;
  traffic_display = m.traffic_display;
  detail_state = detail_state;
  detail_error = detail_error;
  last_panel_sync_at = at;
}

-- `build_traffic_sample`, with `sample_of` for its calculation of dates, when the snapshot is fresh.
abbrev pub build_traffic_sample :
    {F S : Type 0}
    → (LazycatMachineDetailRecord F → Option (SampleKey × S))
    → LazycatMachineDetailRecord F
    → Bool
    → Option (SampleKey × S)
build_traffic_sample sample_of d false = none
build_traffic_sample sample_of d true = sample_of d

-- The writes of one panel's answer for an account that is current: `none` where a statement fails.
abbrev pub panel_written :
    {X F Y S : Type 0}
    → (LazycatMachineDetailRecord F → Option (SampleKey × S))
    → LazycatMachineRow X F
    → String
    → PanelReply F Y
    → Store X F Y S
    → Store X F Y S × Option (Bool × Bool)
panel_written sample_of m now (detailed result ms) s =
    let d = preserve_machine_traffic_cache result m in
    with_mappings
      (replace_families m.service_id d.last_panel_sync_at (by_family d.panel_kind ms) s.mappings)
      (true, true)
      (write_sample (build_traffic_sample sample_of d (has_fresh_traffic_snapshot result))
        (update_lazycat_machine_detail d s))
panel_written sample_of m now no_panel s =
    with_mappings
      (replace_families m.service_id now (cleared ("v4" ∷ "v6" ∷ "nat" ∷ [])) s.mappings)
      (false, false) (update_lazycat_machine_detail (unchanged_detail m "ready" none now) s)
panel_written sample_of m now (panel_failed err) s = (
  update_lazycat_machine_detail
      (unchanged_detail m (if is_some m.last_panel_sync_at then "stale" else "error") (some err)
        (unwrap_or m.last_panel_sync_at now))
      s,
  some (true, false),
)
