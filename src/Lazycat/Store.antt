-- ===== src/Lazycat/Store.antt =====
-- src/db.rs: the tables of one user's account, its machines, their port mappings and traffic samples.
-- Every statement names the user, so the rows of the others stay.
use catnap.Common.{
  String, Bool, not, ◌&&◌, List, [], ◌∷◌, ◌++◌, Option, none, some, ◌==◌, eq_string, eq_pair, ℤ,
  eq_int, if◌then◌else◌, get, insert, contains, keep, map, any,
}

pub record LazycatAccountRow : Type 0 where
  pub email : String
  pub password : String
  pub cookies_json : Option String
  pub state : String
  pub last_error : Option String
  pub last_authenticated_at : Option String
  pub last_site_sync_at : Option String
  pub last_panel_sync_at : Option String
  pub created_at : String
  pub updated_at : String

-- `X`: the name, code, status, system, addresses, prices and expiry, which a site sync overwrites.
pub record LazycatSiteMachineRecord (X : Type 0) : Type 0 where
  pub service_id : ℤ
  pub site : X
  pub panel_kind : Option String
  pub panel_url : Option String
  pub panel_hash : Option String
  pub last_site_sync_at : String

-- `F`: `f64`.
pub record LazycatMachineDetailRecord (F : Type 0) : Type 0 where
  pub service_id : ℤ
  pub panel_kind : Option String
  pub panel_url : Option String
  pub panel_hash : Option String
  pub traffic_used_gb : Option F
  pub traffic_limit_gb : Option F
  pub traffic_reset_day : Option ℤ
  pub traffic_last_reset_at : Option String
  pub traffic_display : Option String
  pub detail_state : String
  pub detail_error : Option String
  pub last_panel_sync_at : String

-- `Y`: the addresses, ports, protocol, status, description and remote times.
pub record LazycatPortMappingRecord (Y : Type 0) : Type 0 where
  pub family : String
  pub mapping_key : String
  pub mapping : Y

pub record LazycatMachineRow (X F : Type 0) : Type 0 where
  pub service_id : ℤ
  pub site : X
  pub panel_kind : Option String
  pub panel_url : Option String
  pub panel_hash : Option String
  pub traffic_used_gb : Option F
  pub traffic_limit_gb : Option F
  pub traffic_reset_day : Option ℤ
  pub traffic_last_reset_at : Option String
  pub traffic_display : Option String
  pub last_site_sync_at : Option String
  pub last_panel_sync_at : Option String
  pub detail_state : String
  pub detail_error : Option String

pub record MappingRow (Y : Type 0) : Type 0 where
  pub service_id : ℤ
  pub mapping : LazycatPortMappingRecord Y
  pub sync_at : String

-- A sample's key: the machine, the start of the cycle and the hour.
abbrev pub SampleKey : Type 0
SampleKey = ℤ × (String × String)

-- `S`: what a traffic sample holds.
pub record Store (X F Y S : Type 0) : Type 0 where
  pub account : Option LazycatAccountRow
  pub machines : List (ℤ × LazycatMachineRow X F)
  pub mappings : List (MappingRow Y)
  pub samples : List (SampleKey × S)

abbrev stored_account : LazycatAccountRow → Option LazycatAccountRow → LazycatAccountRow
stored_account row none = row
stored_account row (some old) = record row { created_at = old.created_at }

-- The store, and the row as it is read back.
abbrev pub put_lazycat_account :
    {X F Y S : Type 0} → LazycatAccountRow → Store X F Y S → Store X F Y S × LazycatAccountRow
put_lazycat_account row s =
    let saved = stored_account row s.account in (record s { account = some saved }, saved)

abbrev pub delete_lazycat_account_data : {X F Y S : Type 0} → Store X F Y S → Store X F Y S
delete_lazycat_account_data s = record {
  account = none;
  machines = [];
  mappings = [];
  samples = [];
}

abbrev coalesce : Option String → Option String → Option String
coalesce none b = b
coalesce (some a) b = some a

abbrev pub site_row :
    {X F : Type 0}
    → LazycatSiteMachineRecord X
    → Option (LazycatMachineRow X F)
    → LazycatMachineRow X F
site_row m none = record {
  service_id = m.service_id;
  site = m.site;
  panel_kind = m.panel_kind;
  panel_url = m.panel_url;
  panel_hash = m.panel_hash;
  traffic_used_gb = none;
  traffic_limit_gb = none;
  traffic_reset_day = none;
  traffic_last_reset_at = none;
  traffic_display = none;
  last_site_sync_at = some m.last_site_sync_at;
  last_panel_sync_at = none;
  detail_state = "pending";
  detail_error = none;
}
site_row m (some old) = record old {
  site = m.site;
  panel_kind = coalesce m.panel_kind old.panel_kind;
  panel_url = coalesce m.panel_url old.panel_url;
  panel_hash = coalesce m.panel_hash old.panel_hash;
  last_site_sync_at = some m.last_site_sync_at;
}

unfoldable pub upsert_machines :
    {X F : Type 0}
    → List (LazycatSiteMachineRecord X)
    → List (ℤ × LazycatMachineRow X F)
    → List (ℤ × LazycatMachineRow X F)
upsert_machines [] rows = rows
upsert_machines (m ∷ ms) rows =
    upsert_machines ms (insert m.service_id (site_row m (get m.service_id rows)) rows)

abbrev pub service_ids : {X : Type 0} → List (LazycatSiteMachineRecord X) → List ℤ
service_ids = map (λ m. m.service_id)

unfoldable pub upsert_lazycat_site_machines :
    {X F Y S : Type 0} → List (LazycatSiteMachineRecord X) → Store X F Y S → Store X F Y S
unfolding upsert_machines
upsert_lazycat_site_machines [] s = record s { machines = []; mappings = []; samples = [] }
upsert_lazycat_site_machines (m ∷ ms) s =
    let ids = service_ids (m ∷ ms) in
    record s {
      machines = keep (λ r. contains r.0 ids) (upsert_machines (m ∷ ms) s.machines);
      mappings = keep (λ r. contains r.service_id ids) s.mappings;
      samples = keep (λ r. contains r.0.0 ids) s.samples;
    }

abbrev pub upsert_lazycat_traffic_sample :
    {X F Y S : Type 0} → SampleKey × S → Store X F Y S → Store X F Y S
upsert_lazycat_traffic_sample sample s = record s { samples = insert sample.0 sample.1 s.samples }

abbrev detailed_row :
    {X F : Type 0} → LazycatMachineDetailRecord F → LazycatMachineRow X F → LazycatMachineRow X F
detailed_row d row = record row {
  panel_kind = d.panel_kind;
  panel_url = d.panel_url;
  panel_hash = d.panel_hash;
  traffic_used_gb = d.traffic_used_gb;
  traffic_limit_gb = d.traffic_limit_gb;
  traffic_reset_day = d.traffic_reset_day;
  traffic_last_reset_at = d.traffic_last_reset_at;
  traffic_display = d.traffic_display;
  last_panel_sync_at = some d.last_panel_sync_at;
  detail_state = d.detail_state;
  detail_error = d.detail_error;
}

abbrev set_detail :
    {X F : Type 0}
    → LazycatMachineDetailRecord F
    → Option (LazycatMachineRow X F)
    → List (ℤ × LazycatMachineRow X F)
    → List (ℤ × LazycatMachineRow X F)
set_detail d none rows = rows
set_detail d (some row) rows = insert d.service_id (detailed_row d row) rows

unfoldable pub update_lazycat_machine_detail :
    {X F Y S : Type 0} → LazycatMachineDetailRecord F → Store X F Y S → Store X F Y S
update_lazycat_machine_detail d s = record s {
  machines = set_detail d (get d.service_id s.machines) s.machines;
}

abbrev pub is_of : {Y : Type 0} → ℤ → String → MappingRow Y → Bool
is_of id family row = row.service_id == id && row.mapping.family == family

abbrev pub same_key : {Y : Type 0} → MappingRow Y → MappingRow Y → Bool
same_key a b =
    is_of a.service_id a.mapping.family b && a.mapping.mapping_key == b.mapping.mapping_key

abbrev pub mapping_row : {Y : Type 0} → ℤ → String → LazycatPortMappingRecord Y → MappingRow Y
mapping_row id at m = record { service_id = id; mapping = m; sync_at = at }

-- A row whose key is there makes the statement fail.
unfoldable pub insert_mappings :
    {Y : Type 0}
    → ℤ
    → String
    → List (LazycatPortMappingRecord Y)
    → List (MappingRow Y)
    → Option (List (MappingRow Y))
insert_mappings id at [] rows = some rows
insert_mappings id at (m ∷ ms) rows =
    let rest = insert_mappings id at ms (rows ++ mapping_row id at m ∷ []) in
    if any (same_key (mapping_row id at m)) rows then none else rest

-- `replace_lazycat_port_mappings`, one transaction.
unfoldable pub replace_lazycat_port_mappings :
    {Y : Type 0}
    → ℤ
    → String
    → List (LazycatPortMappingRecord Y)
    → String
    → List (MappingRow Y)
    → Option (List (MappingRow Y))
unfolding insert_mappings
replace_lazycat_port_mappings id family ms at rows =
    insert_mappings id at ms (keep (λ r. not (is_of id family r)) rows)
