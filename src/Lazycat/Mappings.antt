-- ===== src/Lazycat/Mappings.antt =====
-- The port mappings of a machine after its panel has answered.
use catnap.Common.{
  String, Bool, true, false, ◌&&◌, ◌||◌, ◌≡◌, refl, ◌∙◌, sym, ap, List, [], ◌∷◌, ◌++◌, Option, some,
  ◌==◌, ==_iff, ==_refl, eq_string, ℤ, eq_int, if◌then◌else◌, keep, map, Bool-cases, inl, inr,
  none-ne-some, get, All,
}
use catnap.Lazycat.Store.{
  LazycatMachineDetailRecord, LazycatPortMappingRecord, LazycatMachineRow, MappingRow, SampleKey,
  Store, update_lazycat_machine_detail, mapping_row,
}
use catnap.Lazycat.Sync.{
  is_container, is_nat, replace_families, by_family, preserve_machine_traffic_cache, write_sample,
  build_traffic_sample, has_fresh_traffic_snapshot, cleared, with_mappings, families_of,
  stale_port_mapping_families, detailed, sync_account_is_current,
}
use catnap.Lazycat.Run.{panel_answered}
use catnap.Lazycat.Rows.{rows_of, left_by, rows_of-families}

abbrev pub belongs : Option String → String → Bool
belongs kind family =
    if is_container kind then family == "v4" || family == "v6" else is_nat kind && family == "nat"

abbrev pub expected_rows :
    {F Y : Type 0}
    → LazycatMachineDetailRecord F
    → List (LazycatPortMappingRecord Y)
    → ℤ
    → String
    → List (MappingRow Y)
expected_rows d ms id family =
    if belongs d.panel_kind family
    then map (mapping_row id d.last_panel_sync_at) (keep (λ m. m.family == family) ms)
    else []

keep-All_family :
    {Y : Type 0} (family : String) (ms : List (LazycatPortMappingRecord Y))
    → All (λ m. m.family ≡ family) (keep (λ m. m.family == family) ms)
keep-All_family family [] = tt
keep-All_family family (m ∷ ms) = elim (Bool-cases (m.family == family)) [
  | inl same ↦ rw same ((==_iff m.family family).0 same, keep-All_family family ms)
  | inr other ↦ rw other (keep-All_family family ms)
]

mapped-All :
    {Y : Type 0} (ms : List (LazycatPortMappingRecord Y)) (fs gs : List String)
    → All
        (λ g. All (λ m. m.family ≡ g.0) g.1)
        (map (λ family. (family, keep (λ m. m.family == family) ms)) fs ++ cleared gs)
mapped-All ms [] [] = tt
mapped-All ms [] (g ∷ gs) = (tt, mapped-All ms [] gs)
mapped-All ms (f ∷ fs) gs = (keep-All_family f ms, mapped-All ms fs gs)

left_by-other :
    {Y : Type 0} (id j : ℤ) (at f : String)
    (families : List (String × List (LazycatPortMappingRecord Y))) (rows : List (MappingRow Y))
    → (id == j) ≡ false
    → left_by id at j f families rows ≡ rows
left_by-other id j at f [] rows h = refl
left_by-other id j at f ((family, ms) ∷ more) rows h =
    left_by-other id j at f more
      (if id == j && family == f then map (mapping_row id at) ms else rows) h
    ∙ rw h refl

-- The families of a detail, one after the other.
left_by-by_family :
    {F Y : Type 0} (d : LazycatMachineDetailRecord F) (ms : List (LazycatPortMappingRecord Y))
    (id : ℤ) (r4 r6 rn : List (MappingRow Y))
    → (left_by id d.last_panel_sync_at id "v4" (by_family d.panel_kind ms) r4
        ≡ expected_rows d ms id "v4")
      × (left_by id d.last_panel_sync_at id "v6" (by_family d.panel_kind ms) r6
          ≡ expected_rows d ms id "v6")
      × (left_by id d.last_panel_sync_at id "nat" (by_family d.panel_kind ms) rn
          ≡ expected_rows d ms id "nat")
left_by-by_family d ms id r4 r6 rn = elim (Bool-cases (is_container d.panel_kind)) [
  | inl container ↦ rw (container, ==_refl id) (refl, refl, refl)
  | inr other ↦ elim (Bool-cases (is_nat d.panel_kind)) [
    | inl nat ↦ rw (other, nat, ==_refl id) (refl, refl, refl)
    | inr neither ↦ rw (other, neither, ==_refl id) (refl, refl, refl)
  ]
]

with_mappings-some :
    {X F Y S : Type 0} (r : List (MappingRow Y) × Bool) (a b : Bool × Bool)
    (s after : Store X F Y S)
    → with_mappings r a s ≡ (after, some b)
    → (r.1 ≡ true) × (after.mappings ≡ r.0)
with_mappings-some (rows, true) a b s after h = (refl, sym (ap (λ x. x.0.mappings) h))
with_mappings-some (rows, false) a b s after h = absurd (none-ne-some (ap (λ x. x.1) h))

by_family-All_family :
    {Y : Type 0} (kind : Option String) (ms : List (LazycatPortMappingRecord Y))
    → All (λ g. All (λ m. m.family ≡ g.0) g.1) (by_family kind ms)
by_family-All_family kind ms = mapped-All ms (families_of kind) (stale_port_mapping_families kind)

-- Where the account is current and no statement fails, a panel's detail leaves of the families v4, v6
-- and nat exactly the mappings it gave that are of its kind, a container's v4 and v6 and a NAT
-- machine's nat, and of each family the rows of every other machine as they were.
pub panel_mappings_exact :
    {X F Y S : Type 0} (sample_of : LazycatMachineDetailRecord F → Option (SampleKey × S))
    (generation at : String) (existing : List (ℤ × LazycatMachineRow X F)) (id : ℤ)
    (m : LazycatMachineRow X F) (d : LazycatMachineDetailRecord F)
    (ms : List (LazycatPortMappingRecord Y)) (s after : Store X F Y S) (j : ℤ) (family : String)
    → get id existing ≡ some m
    → sync_account_is_current generation s ≡ true
    → panel_answered sample_of generation existing
        (record { service_id = id; at = at; reply = detailed d ms })
        s
      ≡ (after, some (true, true))
    → (m.service_id == j) ≡ false
    → (rows_of m.service_id "v4" after.mappings ≡ expected_rows d ms m.service_id "v4")
      × (rows_of m.service_id "v6" after.mappings ≡ expected_rows d ms m.service_id "v6")
      × (rows_of m.service_id "nat" after.mappings ≡ expected_rows d ms m.service_id "nat")
      × (rows_of j family after.mappings ≡ rows_of j family s.mappings)
unfolding panel_answered
panel_mappings_exact sample_of generation at existing id m d ms s after j family e c h other =
    let r =
      replace_families m.service_id d.last_panel_sync_at (by_family d.panel_kind ms) s.mappings in
    let kept = preserve_machine_traffic_cache d m in
    let detailed_store =
      write_sample (build_traffic_sample sample_of kept (has_fresh_traffic_snapshot d))
        (update_lazycat_machine_detail kept s) in
    let w =
      with_mappings-some r (true, true) (true, true) detailed_store after
        (rw (panel_answered, e, c) at h) in
    let left = λ (k : ℤ) (f : String).
      ap (rows_of k f) w.1
      ∙ rows_of-families m.service_id k d.last_panel_sync_at f (by_family d.panel_kind ms)
          s.mappings (by_family-All_family d.panel_kind ms) w.0 in
    let same =
      left_by-by_family d ms m.service_id (rows_of m.service_id "v4" s.mappings)
        (rows_of m.service_id "v6" s.mappings) (rows_of m.service_id "nat" s.mappings) in
    (
      left m.service_id "v4" ∙ same.0,
      left m.service_id "v6" ∙ same.1,
      left m.service_id "nat" ∙ same.2,
      left j family
          ∙ left_by-other m.service_id j d.last_panel_sync_at family (by_family d.panel_kind ms)
              (rows_of j family s.mappings) other,
    )
