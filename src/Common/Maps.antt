-- ===== src/Common/Maps.antt =====
-- `HashMap` as an association list with at most one entry for a key, and `HashSet` as a list.
use mathlib.Core.Path.{◌≡◌, refl, subst}
use mathlib.Core.Logic.{inl, inr}
use mathlib.Core.Bool.{Bool, ◌&&◌, ◌||◌}
use mathlib.Core.List.{List, [], ◌∷◌, ◌++◌}
use mathlib.Core.Option.{Option, none, some}
use Prim.Native.Nat.{ℕ, ◌+◌}
use native.Mathlib.Omega.{arith}
use catnap.Common.Tests.{
  PartialEq, ◌==◌, ==_refl, if◌then◌else◌, Bool-cases, is_some, some_inj, none-ne-some,
}
use catnap.Common.Lists.{contains, contains-append, keep}

module _ {ℓ κ} {K : Type ℓ} {V : Type κ} ⦃e : PartialEq K⦄ where
  unfoldable pub get : K → List (K × V) → Option V
  get k [] = none
  get k ((j, v) ∷ m) = if j == k then some v else get k m

  unfoldable pub insert : K → V → List (K × V) → List (K × V)
  insert k v [] = (k, v) ∷ []
  insert k v ((j, w) ∷ m) = if j == k then (k, v) ∷ m else (j, w) ∷ insert k v m

  unfoldable pub remove : K → List (K × V) → List (K × V)
  remove k [] = []
  remove k ((j, w) ∷ m) = let rest = remove k m in if j == k then rest else (j, w) ∷ rest

  abbrev pub contains_key : K → List (K × V) → Bool
  contains_key k m = is_some (get k m)

module _ {ℓ κ} {K : Type ℓ} {V : Type κ} ⦃e : PartialEq K⦄ where
  pub get-insert :
      (k j : K) (v : V) (m : List (K × V))
      → get j (insert k v m) ≡ (if k == j then some v else get j m)
  unfolding get insert
  get-insert k j v [] = refl
  get-insert k j v ((i, w) ∷ m) =
      ground (arith, e.agrees k j, e.agrees i k, e.agrees i j, get-insert k j v m)

  pub get-remove :
      (k j : K) (m : List (K × V)) → get j (remove k m) ≡ (if k == j then none else get j m)
  unfolding get remove
  get-remove k j [] = ground arith
  get-remove k j ((i, w) ∷ m) =
      ground (arith, e.agrees k j, e.agrees i k, e.agrees i j, get-remove k j m)

  pub get-insert_self : (k : K) (v : V) (m : List (K × V)) → get k (insert k v m) ≡ some v
  get-insert_self k v m = rw (get-insert k k v m, ==_refl k)

  pub get-remove_self : (k : K) (m : List (K × V)) → get k (remove k m) ≡ none
  get-remove_self k m = rw (get-remove k k m, ==_refl k)

-- A predicate of every value that a map gives.
abbrev pub Everywhere {ℓ κ μ} :
    {K : Type ℓ} {V : Type κ} ⦃e : PartialEq K⦄ → (V → Type μ) → List (K × V) → Type (ℓ ⊔ κ ⊔ μ)
Everywhere {K} {V} P m = (k : K) (v : V) → get k m ≡ some v → P v

module _ {ℓ κ μ} {K : Type ℓ} {V : Type κ} ⦃e : PartialEq K⦄ (P : V → Type μ) where
  pub Everywhere-insert :
      (m : List (K × V)) (k : K) (v : V) → Everywhere P m → P v → Everywhere P (insert k v m)
  Everywhere-insert m k v h p j w q = elim (Bool-cases (k == j)) [
    | inl same ↦ subst P (some_inj (rw (get-insert k j v m, same) at q)) p
    | inr other ↦ h j w (rw (get-insert k j v m, other) at q)
  ]

  pub Everywhere-remove : (m : List (K × V)) (k : K) → Everywhere P m → Everywhere P (remove k m)
  Everywhere-remove m k h j w q = elim (Bool-cases (k == j)) [
    | inl same ↦ absurd (none-ne-some (rw (get-remove k j m, same) at q))
    | inr other ↦ h j w (rw (get-remove k j m, other) at q)
  ]

-- `HashSet::insert` and `extend`
module _ {ℓ} {A : Type ℓ} ⦃e : PartialEq A⦄ where
  unfoldable pub add : A → List A → List A
  add a xs = if contains a xs then xs else xs ++ a ∷ []

  unfoldable pub extend : List A → List A → List A
  unfolding add
  extend xs [] = xs
  extend xs (a ∷ more) = extend (add a xs) more

-- Each key has one entry, and what a sum over the values then loses with a key.
module _ {ℓ κ} {K : Type ℓ} {V : Type κ} ⦃e : PartialEq K⦄ where
  abbrev pub Distinct : List (K × V) → Type κ
  Distinct [] = Unit
  Distinct ((k, v) ∷ m) = (get k m ≡ none) × Distinct m

  pub remove_absent : (k : K) (m : List (K × V)) → get k m ≡ none → remove k m ≡ m
  unfolding get remove
  remove_absent k [] h = refl
  remove_absent k ((j, v) ∷ m) h = ground (arith, remove_absent k m)

  pub insert-Distinct : (k : K) (v : V) (m : List (K × V)) → Distinct m → Distinct (insert k v m)
  unfolding get insert
  insert-Distinct k v [] h = (refl, tt)
  insert-Distinct k v ((j, w) ∷ m) h = elim (Bool-cases (j == k)) [
    | inl same ↦ rw (same, insert) (rw (← (e.agrees j k).0 same) h)
    | inr other ↦
        rw (other, insert)
          (
            ground (arith, get-insert k j v m, e.agrees j k, e.agrees k j),
            insert-Distinct k v m h.1,
          )
  ]

  pub remove-Distinct : (k : K) (m : List (K × V)) → Distinct m → Distinct (remove k m)
  unfolding get remove
  remove-Distinct k [] h = tt
  remove-Distinct k ((j, w) ∷ m) h = elim (Bool-cases (j == k)) [
    | inl same ↦ rw (same, remove) (remove-Distinct k m h.1)
    | inr other ↦
        rw (other, remove) (ground (arith, get-remove k j m, e.agrees k j), remove-Distinct k m h.1)
  ]

abbrev pub value_or_zero {κ} : {V : Type κ} → (V → ℕ) → Option V → ℕ
value_or_zero f none = 0
value_or_zero f (some v) = f v

module _ {ℓ κ} {K : Type ℓ} {V : Type κ} (f : V → ℕ) where
  abbrev pub total_values : List (K × V) → ℕ
  total_values [] = 0
  total_values ((k, v) ∷ m) = f v + total_values m

module _ {ℓ κ} {K : Type ℓ} {V : Type κ} ⦃e : PartialEq K⦄ (f : V → ℕ) where
  pub total_values-insert :
      (k : K) (v : V) (m : List (K × V))
      → total_values f (insert k v m) + value_or_zero f (get k m) ≡ total_values f m + f v
  unfolding get insert
  total_values-insert k v [] = omega arith
  total_values-insert k v ((j, w) ∷ m) = ground (arith, total_values-insert k v m)

  pub total_values-remove :
      (k : K) (m : List (K × V))
      → Distinct m
      → total_values f (remove k m) + value_or_zero f (get k m) ≡ total_values f m
  unfolding get remove
  total_values-remove k [] h = omega arith
  total_values-remove k ((j, w) ∷ m) h =
      ground (arith, total_values-remove k m h.1, remove_absent k m, e.agrees j k)

module _ {ℓ} {A : Type ℓ} ⦃e : PartialEq A⦄ where
  contains-same : (a k : A) (xs : List A) → a ≡ k → contains a xs ≡ contains k xs
  contains-same a k xs h = rw h

  pub contains-add : (k a : A) (xs : List A) → contains k (add a xs) ≡ (contains k xs || a == k)
  unfolding add
  contains-add k a xs = elim (Bool-cases (contains a xs)) [
    | inl old ↦ rw (old, add) (ground (arith, e.agrees a k, contains-same a k xs))
    | inr new ↦ rw (new, add) (ground (arith, contains-append k xs (a ∷ [])))
  ]

  pub contains-extend :
      (k : A) (xs more : List A) → contains k (extend xs more) ≡ (contains k xs || contains k more)
  unfolding extend
  contains-extend k xs [] = ground arith
  contains-extend k xs (a ∷ more) =
      ground (arith, contains-extend k (add a xs) more, contains-add k a xs)

  -- `HashSet::retain`
  pub contains-keep :
      (k : A) (p : A → Bool) (xs : List A) → contains k (keep p xs) ≡ (contains k xs && p k)
  contains-keep k p [] = refl
  contains-keep k p (x ∷ xs) = ground (arith, contains-keep k p xs, e.agrees x k)
