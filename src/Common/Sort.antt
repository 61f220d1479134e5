-- ===== src/Common/Sort.antt =====
-- `sort_by`: a stable sort, as insertion of each element behind those that are not greater.
use Prim.Native.Nat.{Ordering}
use Prim.Native.String.{String, compare}
use mathlib.Core.Path.{◌≡◌, refl}
use mathlib.Core.Bool.{Bool, true, false, ◌&&◌, ◌||◌}
use mathlib.Core.List.{List, [], ◌∷◌}
use native.Mathlib.Omega.{arith}
use catnap.Common.Tests.{if◌then◌else◌, ◌==◌, eq_string}
use catnap.Common.Lists.{any}

-- `str::cmp(a, b).is_lt()`
abbrev pub str_ltb : String → String → Bool
str_ltb a b = elim (compare a b) [ Ordering.lt ↦ true | _ ↦ false ]

-- The order of pairs of texts.
abbrev pub pair_ltb : String × String → String × String → Bool
pair_ltb p q = str_ltb p.0 q.0 || (p.0 == q.0 && str_ltb p.1 q.1)

module _ {ℓ} {A : Type ℓ} (lt : A → A → Bool) where
  unfoldable pub insert_sorted : A → List A → List A
  insert_sorted x [] = x ∷ []
  insert_sorted x (y ∷ ys) = if lt y x then y ∷ insert_sorted x ys else x ∷ y ∷ ys

  unfoldable pub sort_by : List A → List A
  sort_by [] = []
  sort_by (x ∷ xs) = insert_sorted x (sort_by xs)

  any-insert_sorted :
      (p : A → Bool) (x : A) (xs : List A) → any p (insert_sorted x xs) ≡ (p x || any p xs)
  unfolding insert_sorted
  any-insert_sorted p x [] = refl
  any-insert_sorted p x (y ∷ ys) = ground (arith, any-insert_sorted p x ys)

  -- Sorting keeps what a list holds.
  pub any-sort_by : (p : A → Bool) (xs : List A) → any p (sort_by xs) ≡ any p xs
  unfolding sort_by
  any-sort_by p [] = refl
  any-sort_by p (x ∷ xs) = ground (arith, any-sort_by p xs, any-insert_sorted p x (sort_by xs))
