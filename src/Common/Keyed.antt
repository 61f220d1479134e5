-- ===== src/Common/Keyed.antt =====
-- Lists of records with a key, as the program searches, updates and deduplicates them.
use mathlib.Core.Path.{◌≡◌, refl, ◌∙◌}
use mathlib.Core.Logic.{inl, inr}
use mathlib.Core.Bool.{Bool, false, not, ◌&&◌, ◌||◌}
use mathlib.Core.List.{List, [], ◌∷◌}
use mathlib.Core.Option.{Option, none, some}
use native.Mathlib.Omega.{arith}
use catnap.Common.Tests.{PartialEq, ◌==◌, if◌then◌else◌, Bool-cases}
use catnap.Common.Lists.{any, keep, contains}

module _ {ℓ κ} {A : Type ℓ} {K : Type κ} ⦃e : PartialEq K⦄ (key : A → K) where
  -- `iter().find(|x| x.key == k)`
  abbrev pub find : K → List A → Option A
  find k [] = none
  find k (x ∷ xs) = if key x == k then some x else find k xs

  -- The last one with the key.
  abbrev pub find_last : K → List A → Option A → Option A
  find_last k [] found = found
  find_last k (x ∷ xs) found = find_last k xs (if key x == k then some x else found)

  abbrev pub has_key : K → List A → Bool
  has_key k = any (λ x. key x == k)

  -- `if let Some(existing) = xs.iter_mut().find(…) { *existing = x } else { xs.push(x) }`
  unfoldable pub upsert : List A → A → List A
  upsert [] y = y ∷ []
  upsert (x ∷ xs) y = if key x == key y then y ∷ xs else x ∷ upsert xs y

  unfoldable pub upsert_all : List A → List A → List A
  upsert_all xs [] = xs
  upsert_all xs (y ∷ ys) = upsert_all (upsert xs y) ys

  pub find-upsert :
      (k : K) (xs : List A) (y : A)
      → find k (upsert xs y) ≡ (if key y == k then some y else find k xs)
  unfolding upsert
  find-upsert k [] y = refl
  find-upsert k (x ∷ xs) y =
      ground (
        arith,
        e.agrees (key x) (key y),
        e.agrees (key x) k,
        e.agrees (key y) k,
        find-upsert k xs y,
      )

  pub find-upsert_all :
      (k : K) (xs ys : List A) → find k (upsert_all xs ys) ≡ find_last k ys (find k xs)
  unfolding upsert_all
  find-upsert_all k xs [] = refl
  find-upsert_all k xs (y ∷ ys) = find-upsert_all k (upsert xs y) ys ∙ (rw (find-upsert k xs y))

  -- No two entries have one key.
  abbrev pub Unique : List A → Type 0
  Unique [] = Unit {0}
  Unique (x ∷ xs) = (has_key (key x) xs ≡ false) × Unique xs

  pub has_key-upsert :
      (k : K) (xs : List A) (y : A) → has_key k (upsert xs y) ≡ (has_key k xs || key y == k)
  unfolding upsert
  has_key-upsert k [] y = ground arith
  has_key-upsert k (x ∷ xs) y = ground (
    arith,
    e.agrees (key x) (key y),
    e.agrees (key x) k,
    e.agrees (key y) k,
    has_key-upsert k xs y,
  )

  pub upsert-Unique : (xs : List A) (y : A) → Unique xs → Unique (upsert xs y)
  unfolding upsert
  upsert-Unique [] y h = (refl, tt)
  upsert-Unique (x ∷ xs) y h = elim (Bool-cases (key x == key y)) [
    | inl same ↦ rw (same, upsert) (rw (← (e.agrees (key x) (key y)).0 same) h)
    | inr other ↦
        rw (other, upsert)
          (
            ground (
              arith,
              has_key-upsert (key x) xs y,
              e.agrees (key y) (key x),
              e.agrees (key x) (key y),
            ),
            upsert-Unique xs y h.1,
          )
  ]

  pub upsert_all-Unique : (xs ys : List A) → Unique xs → Unique (upsert_all xs ys)
  unfolding upsert_all
  upsert_all-Unique xs [] h = h
  upsert_all-Unique xs (y ∷ ys) h = upsert_all-Unique (upsert xs y) ys (upsert-Unique xs y h)

  pub has_key-upsert_all :
      (k : K) (xs ys : List A) → has_key k (upsert_all xs ys) ≡ (has_key k xs || has_key k ys)
  unfolding upsert_all
  has_key-upsert_all k xs [] = ground arith
  has_key-upsert_all k xs (y ∷ ys) =
      ground (arith, has_key-upsert_all k (upsert xs y) ys, has_key-upsert k xs y)

-- `if seen.insert(key) { out.push(x) }` over a list, from the keys seen already.
module _ {ℓ κ} {A : Type ℓ} {K : Type κ} ⦃e : PartialEq K⦄ (key : A → K) where
  unfoldable pub dedup : List K → List A → List A
  dedup seen [] = []
  dedup seen (x ∷ xs) =
      let fresh = x ∷ dedup (key x ∷ seen) xs in
      let old = dedup seen xs in if contains (key x) seen then old else fresh

  pub has_key-dedup :
      (k : K) (seen : List K) (xs : List A)
      → has_key key k (dedup seen xs) ≡ (has_key key k xs && not (contains k seen))
  unfolding dedup
  has_key-dedup k seen [] = refl
  has_key-dedup k seen (x ∷ xs) =
      ground (arith, e.agrees (key x) k, has_key-dedup k seen xs, has_key-dedup k (key x ∷ seen) xs)

  pub dedup-Unique : (seen : List K) (xs : List A) → Unique key (dedup seen xs)
  unfolding dedup
  dedup-Unique seen [] = tt
  dedup-Unique seen (x ∷ xs) = elim (Bool-cases (contains (key x) seen)) [
    | inl old ↦ rw (old, dedup) (dedup-Unique seen xs)
    | inr new ↦
        rw (new, dedup)
          (
            ground (arith, has_key-dedup (key x) (key x ∷ seen) xs, e.agrees (key x) (key x)),
            dedup-Unique (key x ∷ seen) xs,
          )
  ]

  pub find-keep :
      (k : K) (active : List K) (xs : List A)
      → find key k (keep (λ x. contains (key x) active) xs)
        ≡ (if contains k active then find key k xs else none)
  find-keep k active [] = ground arith
  find-keep k active (x ∷ xs) = ground (arith, e.agrees (key x) k, find-keep k active xs)
