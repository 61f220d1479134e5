-- ===== src/Lazycat/Rows.antt =====
-- The rows of port mappings that the statements of a machine leave.
use catnap.Common.{
  String, Bool, true, false, not, ◌&&◌, ◌≡◌, refl, ◌∙◌, sym, ap, List, [], ◌∷◌, ◌++◌, some, ◌==◌,
  ==_iff, PartialEq, eq_string, ℤ, eq_int, if◌then◌else◌, keep, map, arith, append_assoc,
  append-nil, any, Bool-cases, Option-cases, inl, inr, some_inj, none-ne-some, All, ◌⊎◌,
}
use catnap.Lazycat.Store.{
  LazycatPortMappingRecord, MappingRow, is_of, same_key, mapping_row, insert_mappings,
  replace_lazycat_port_mappings,
}
use catnap.Lazycat.Sync.{replace_families}

-- A machine's rows of one family.
abbrev pub rows_of : {Y : Type 0} → ℤ → String → List (MappingRow Y) → List (MappingRow Y)
rows_of id family rows = keep (is_of id family) rows

module _ {A : Type 0} (p q : A → Bool) where
  keep-of_dropped : (xs : List A) → ((x : A) → p x ≡ q x) → keep p (keep (λ x. not (q x)) xs) ≡ []
  keep-of_dropped [] h = refl
  keep-of_dropped (x ∷ xs) h = ground (arith, h x, keep-of_dropped xs h)

  keep-of_others :
      (xs : List A)
      → ((x : A) → (p x && q x) ≡ false)
      → keep p (keep (λ x. not (q x)) xs) ≡ keep p xs
  keep-of_others [] h = refl
  keep-of_others (x ∷ xs) h = ground (arith, h x, keep-of_others xs h)

  keep-append : (xs ys : List A) → keep p (xs ++ ys) ≡ keep p xs ++ keep p ys
  keep-append [] ys = refl
  keep-append (x ∷ xs) ys = ground (arith, keep-append xs ys)

-- Two tests of one key.
two_keys :
    {K : Type 0} ⦃e : PartialEq K⦄ (x a b : K) → (a == b) ≡ false → ((x == b) && (x == a)) ≡ false
two_keys ⦃e⦄ x a b h = ground (arith, e.agrees x a, e.agrees x b, e.agrees a b)

both_keys :
    (a b c d : Bool) → ((a && c) ≡ false) ⊎ ((b && d) ≡ false) → ((a && b) && (c && d)) ≡ false
both_keys a b c d h = ground arith

choice :
    {A : Type 0} (b : Bool) (xs ys : List A)
    → (if b then [] else ys) ++ (if b then xs else []) ≡ (if b then xs else ys)
choice true xs ys = refl
choice false xs ys = append-nil ys

not_both : ¬ (false ≡ true)
not_both h = ground arith

and_first : (a b : Bool) → (a && b) ≡ true → a ≡ true
and_first a b h = ground arith

and_second : (a b : Bool) → (a && b) ≡ true → b ≡ true
and_second a b h = ground arith

one_false : (a b : Bool) → (a && b) ≡ false → (a ≡ false) ⊎ (b ≡ false)
one_false a b h = ground arith

module _ {Y : Type 0} where
  is_of-other :
      (id j : ℤ) (family f : String) (r : MappingRow Y)
      → (id == j && family == f) ≡ false
      → (is_of j f r && is_of id family r) ≡ false
  is_of-other id j family f r h =
      both_keys (r.service_id == j) (r.mapping.family == f) (r.service_id == id)
        (r.mapping.family == family)
        (elim (one_false (id == j) (family == f) h) [
          | inl other ↦ inl (two_keys r.service_id id j other)
          | inr other ↦ inr (two_keys r.mapping.family family f other)
        ])

  is_of-same :
      (id j : ℤ) (family f : String)
      → (id == j && family == f) ≡ true
      → (r : MappingRow Y) → is_of j f r ≡ is_of id family r
  is_of-same id j family f h r =
      rw
        (
          (==_iff id j).0 (and_first (id == j) (family == f) h),
          (==_iff family f).0 (and_second (id == j) (family == f) h),
        )
        refl

  inserted :
      (id : ℤ) (at : String) (ms : List (LazycatPortMappingRecord Y))
      (rows written : List (MappingRow Y))
      → insert_mappings id at ms rows ≡ some written
      → written ≡ rows ++ map (mapping_row id at) ms
  unfolding insert_mappings
  inserted id at [] rows written h = sym (some_inj h) ∙ sym (append-nil rows)
  inserted id at (m ∷ ms) rows written h =
      elim (Bool-cases (any (same_key (mapping_row id at m)) rows)) [
        | inl taken ↦ absurd (none-ne-some (rw taken at h))
        | inr free ↦
            inserted id at ms (rows ++ mapping_row id at m ∷ []) written (rw free at h)
            ∙ append_assoc rows (mapping_row id at m ∷ []) (map (mapping_row id at) ms)
      ]

  rows_of-deleted :
      (id j : ℤ) (family f : String) (rows : List (MappingRow Y))
      → rows_of j f (keep (λ r. not (is_of id family r)) rows)
        ≡ (if id == j && family == f then [] else rows_of j f rows)
  rows_of-deleted id j family f rows = elim (Bool-cases (id == j && family == f)) [
    | inl same ↦
        rw same (keep-of_dropped (is_of j f) (is_of id family) rows (is_of-same id j family f same))
    | inr other ↦
        rw other (
          keep-of_others (is_of j f) (is_of id family) rows
            (λ r. is_of-other id j family f r other))
  ]

  is_of-mapping_row :
      (id j : ℤ) (at family f : String) (m : LazycatPortMappingRecord Y)
      → m.family ≡ family
      → is_of j f (mapping_row id at m) ≡ (id == j && family == f)
  is_of-mapping_row id j at family f m h = ap (λ x. id == j && x == f) h

  keep-one_test :
      (p : MappingRow Y → Bool) (b : Bool) (id : ℤ) (at family : String)
      (ms : List (LazycatPortMappingRecord Y))
      → ((m : LazycatPortMappingRecord Y) → m.family ≡ family → p (mapping_row id at m) ≡ b)
      → All (λ m. m.family ≡ family) ms
      → keep p (map (mapping_row id at) ms) ≡ (if b then map (mapping_row id at) ms else [])
  keep-one_test p true id at family [] t h = refl
  keep-one_test p false id at family [] t h = refl
  keep-one_test p true id at family (m ∷ ms) t h =
      rw (t m h.0, keep-one_test p true id at family ms t h.1) refl
  keep-one_test p false id at family (m ∷ ms) t h =
      rw (t m h.0, keep-one_test p false id at family ms t h.1) refl

  rows_of-written :
      (id j : ℤ) (at family f : String) (ms : List (LazycatPortMappingRecord Y))
      → All (λ m. m.family ≡ family) ms
      → rows_of j f (map (mapping_row id at) ms)
        ≡ (if id == j && family == f then map (mapping_row id at) ms else [])
  rows_of-written id j at family f ms h =
      keep-one_test (is_of j f) (id == j && family == f) id at family ms
        (is_of-mapping_row id j at family f) h

  -- One statement, where it does not fail.
  rows_of-replaced :
      (id j : ℤ) (at family f : String) (ms : List (LazycatPortMappingRecord Y))
      (rows written : List (MappingRow Y))
      → All (λ m. m.family ≡ family) ms
      → replace_lazycat_port_mappings id family ms at rows ≡ some written
      → rows_of j f written
        ≡ (if id == j && family == f then map (mapping_row id at) ms else rows_of j f rows)
  unfolding replace_lazycat_port_mappings
  rows_of-replaced id j at family f ms rows written a h =
      let old = keep (λ r. not (is_of id family r)) rows in
      let new = map (mapping_row id at) ms in
      ap (rows_of j f) (inserted id at ms old written h)
      ∙ keep-append (is_of j f) (is_of j f) old new
      ∙ rw (rows_of-deleted id j family f rows, rows_of-written id j at family f ms a)
          (choice (id == j && family == f) (map (mapping_row id at) ms) (rows_of j f rows))

  -- The rows of a family that a row of statements leaves.
  abbrev pub left_by :
      ℤ
      → String
      → ℤ
      → String
      → List (String × List (LazycatPortMappingRecord Y))
      → List (MappingRow Y)
      → List (MappingRow Y)
  left_by id at j f [] rows = rows
  left_by id at j f ((family, ms) ∷ more) rows =
      left_by id at j f more (if id == j && family == f then map (mapping_row id at) ms else rows)

  pub rows_of-families :
      (id j : ℤ) (at f : String) (families : List (String × List (LazycatPortMappingRecord Y)))
      (rows : List (MappingRow Y))
      → All (λ g. All (λ m. m.family ≡ g.0) g.1) families
      → (replace_families id at families rows).1 ≡ true
      → rows_of j f (replace_families id at families rows).0
        ≡ left_by id at j f families (rows_of j f rows)
  unfolding replace_families
  rows_of-families id j at f [] rows a h = refl
  rows_of-families id j at f ((family, ms) ∷ more) rows a h =
      elim (Option-cases (replace_lazycat_port_mappings id family ms at rows)) [
        | inl failed ↦ absurd (not_both (rw (failed, replace_families) at h))
        | inr (written, done) ↦
            rw (done, replace_families)
              (rows_of-families id j at f more written a.1 (rw (done, replace_families) at h)
                ∙ ap (left_by id at j f more)
                    (rows_of-replaced id j at family f ms rows written a.0 done))
      ]
