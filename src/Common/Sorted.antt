-- ===== src/Common/Sorted.antt =====
-- What `sort_by` gives with a strict order, and what lies behind an element of it.
use mathlib.Core.Path.{◌≡◌, refl, ap, ◌∙◌}
use mathlib.Core.Bool.{Bool, true, ◌&&◌, ◌||◌}
use mathlib.Core.List.{List, [], ◌∷◌, ◌++◌}
use native.Mathlib.Omega.{arith}
use catnap.Common.Lists.{all, keep}
use catnap.Common.Sort.{insert_sorted, sort_by}
use catnap.Common.Order.{StrictOrder}

module _ {A : Type 0} where
  pub keep-all : (p : A → Bool) (xs : List A) → all p xs ≡ true → keep p xs ≡ xs
  keep-all p [] h = refl
  keep-all p (x ∷ xs) h = ground (arith, h, keep-all p xs)

  pub all_middle :
      (p : A → Bool) (before : List A) (x : A) (behind : List A)
      → all p (before ++ x ∷ behind) ≡ true
      → p x ≡ true
  all_middle p [] x behind h = ground (arith, h)
  all_middle p (y ∷ ys) x behind h = ground (arith, h, all_middle p ys x behind)

module _ {A : Type 0} (lt : A → A → Bool) where
  -- Each element is before those behind it.
  abbrev pub is_sorted : List A → Bool
  is_sorted [] = true
  is_sorted (x ∷ xs) = all (lt x) xs && is_sorted xs

  -- Of any two elements one is before the other.
  abbrev pub are_apart : List A → Bool
  are_apart [] = true
  are_apart (x ∷ xs) = all (λ y. lt x y || lt y x) xs && are_apart xs

  all-insert_sorted :
      (p : A → Bool) (x : A) (xs : List A) → all p (insert_sorted lt x xs) ≡ (p x && all p xs)
  unfolding insert_sorted
  all-insert_sorted p x [] = refl
  all-insert_sorted p x (y ∷ ys) = ground (arith, all-insert_sorted p x ys)

  pub all-sort_by : (p : A → Bool) (xs : List A) → all p (sort_by lt xs) ≡ all p xs
  unfolding sort_by
  all-sort_by p [] = refl
  all-sort_by p (x ∷ xs) =
      all-insert_sorted p x (sort_by lt xs) ∙ ap (λ b. p x && b) (all-sort_by p xs)

  all_further :
      StrictOrder lt
      → (x y : A) (ys : List A) → lt x y ≡ true
      → all (lt y) ys ≡ true
      → all (lt x) ys ≡ true
  all_further o x y [] h k = refl
  all_further o x y (z ∷ zs) h k = ground (arith, h, k, o.trans x y z, all_further o x y zs h)

  is_sorted-insert_sorted :
      StrictOrder lt
      → (x : A) (xs : List A) → is_sorted xs ≡ true
      → all (λ y. lt x y || lt y x) xs ≡ true
      → is_sorted (insert_sorted lt x xs) ≡ true
  unfolding insert_sorted
  is_sorted-insert_sorted o x [] s a = refl
  is_sorted-insert_sorted o x (y ∷ ys) s a = ground (
    arith,
    s,
    a,
    all-insert_sorted (lt y) x ys,
    is_sorted-insert_sorted o x ys,
    all_further o x y ys,
  )

  pub is_sorted-sort_by :
      StrictOrder lt → (xs : List A) → are_apart xs ≡ true → is_sorted (sort_by lt xs) ≡ true
  unfolding sort_by
  is_sorted-sort_by o [] a = refl
  is_sorted-sort_by o (x ∷ xs) a =
      is_sorted-insert_sorted o x (sort_by lt xs) (is_sorted-sort_by o xs (ground (arith, a)))
        (all-sort_by (λ y. lt x y || lt y x) xs ∙ ground (arith, a))

  -- Behind an element of a sorted list is what comes after it.
  pub keep_behind :
      StrictOrder lt
      → (before : List A) (x : A) (behind : List A) → is_sorted (before ++ x ∷ behind) ≡ true
      → keep (lt x) (before ++ x ∷ behind) ≡ behind
  keep_behind o [] x behind s = ground (arith, s, o.irrefl x, keep-all (lt x) behind)
  keep_behind o (y ∷ ys) x behind s = ground (
    arith,
    s,
    all_middle (lt y) ys x behind,
    o.irrefl x,
    o.trans x y x,
    keep_behind o ys x behind,
  )
