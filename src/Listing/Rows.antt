-- ===== src/Listing/Rows.antt =====
-- What the statements on the table of packages do to one row.
use catnap.Common.{
  String, Bool, false, ◌≡◌, refl, ◌∙◌, ap, List, [], ◌∷◌, some, arith, ◌==◌, ==_iff, eq_string,
  if◌then◌else◌, get, insert, get-insert, get-insert_self, contains, map_some, find, has_key,
  Unique, Bool-cases, inl, inr, some_inj,
}
use catnap.Listing.Store.{ConfigBase, ConfigRow}
use catnap.Listing.Apply.{config_ids, upserted_row, upsert_configs, delist_where}

pub get-delist_where :
    {X : Type 0} (p : String → ConfigRow X → Bool) (f : ConfigRow X → ConfigRow X) (id : String)
    (rows : List (String × ConfigRow X))
    → get id (delist_where p f rows)
      ≡ map_some (λ row. if p id row then f row else row) (get id rows)
unfolding delist_where get
get-delist_where p f id [] = refl
get-delist_where p f id ((key, row) ∷ rows) = elim (Bool-cases (key == id)) [
  | inl same ↦ rw (same) (ap (λ k. some (if p k row then f row else row)) ((==_iff key id).0 same))
  | inr other ↦ rw (other) (get-delist_where p f id rows)
]

abbrev pub id_of : {X : Type 0} → ConfigBase X → String
id_of c = c.id

pub contains-config_ids :
    {X : Type 0} (id : String) (cs : List (ConfigBase X))
    → contains id (config_ids cs) ≡ has_key id_of id cs
contains-config_ids id [] = refl
contains-config_ids id (c ∷ cs) = ground (arith, contains-config_ids id cs)

pub get-upsert_configs_absent :
    {X : Type 0} (at id : String) (cs : List (ConfigBase X)) (rows : List (String × ConfigRow X))
    → has_key id_of id cs ≡ false
    → get id (upsert_configs at cs rows) ≡ get id rows
unfolding upsert_configs
get-upsert_configs_absent at id [] rows h = refl
get-upsert_configs_absent at id (c ∷ cs) rows h =
    get-upsert_configs_absent at id cs (insert c.id (upserted_row at c (get c.id rows)) rows)
      (ground arith)
    ∙ ground (arith, get-insert c.id id (upserted_row at c (get c.id rows)) rows)

pub get-upsert_configs :
    {X : Type 0} (at id : String) (cs : List (ConfigBase X)) (rows : List (String × ConfigRow X))
    (c : ConfigBase X)
    → Unique id_of cs
    → find id_of id cs ≡ some c
    → get id (upsert_configs at cs rows) ≡ some (upserted_row at c (get id rows))
unfolding upsert_configs
get-upsert_configs at id [] rows c u h = cc
get-upsert_configs at id (d ∷ cs) rows c u h = elim (Bool-cases (d.id == id)) [
  | inl same ↦
      let e : d.id ≡ id = (==_iff d.id id).0 same in
      let f : d ≡ c = some_inj (rw same at h) in
      rw (← e) (
        rw (← f) (
          get-upsert_configs_absent at d.id cs
            (insert d.id (upserted_row at d (get d.id rows)) rows) u.0
          ∙ get-insert_self d.id (upserted_row at d (get d.id rows)) rows))
  | inr other ↦
      get-upsert_configs at id cs (insert d.id (upserted_row at d (get d.id rows)) rows) c u.1
        (rw other at h)
      ∙ ap (λ old. some (upserted_row at c old))
          (get-insert d.id id (upserted_row at d (get d.id rows)) rows ∙ rw other refl)
]
