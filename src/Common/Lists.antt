-- ===== src/Common/Lists.antt =====
-- Lists measured, indexed and searched with native numbers.
use Prim.Native.Nat.{ℕ, zero, suc, ◌+◌, ◌≤◌}
use mathlib.Core.Path.{◌≡◌, refl, ap, subst}
use mathlib.Core.Logic.{◌≢◌}
use mathlib.Core.Bool.{Bool, true, false, ◌&&◌, ◌||◌}
use mathlib.Core.List.{List, [], ◌∷◌, ◌++◌, map}
use mathlib.Core.Option.{Option, none, some}
use native.Mathlib.Omega.{arith}
use catnap.Common.Tests.{some_inj, PartialEq, ◌==◌, if◌then◌else◌}

module _ {ℓ} {A : Type ℓ} where
  abbrev pub length : List A → ℕ
  length [] = 0
  length (x ∷ xs) = suc (length xs)

  abbrev pub get_elem? : List A → ℕ → Option A
  get_elem? [] i = none
  get_elem? (x ∷ xs) zero = some x
  get_elem? (x ∷ xs) (suc i) = get_elem? xs i

  -- A write out of bounds changes nothing.
  abbrev pub set : List A → ℕ → A → List A
  set [] i v = []
  set (x ∷ xs) zero v = v ∷ xs
  set (x ∷ xs) (suc i) v = x ∷ set xs i v

  abbrev pub take : ℕ → List A → List A
  take zero xs = []
  take (suc n) [] = []
  take (suc n) (x ∷ xs) = x ∷ take n xs

  abbrev pub replicate : ℕ → A → List A
  replicate zero a = []
  replicate (suc n) a = a ∷ replicate n a

  abbrev pub any : (A → Bool) → List A → Bool
  any p [] = false
  any p (x ∷ xs) = p x || any p xs

  abbrev pub all : (A → Bool) → List A → Bool
  all p [] = true
  all p (x ∷ xs) = p x && all p xs

  -- `Iterator::filter`
  abbrev pub keep : (A → Bool) → List A → List A
  keep p [] = []
  keep p (x ∷ xs) = let rest = keep p xs in if p x then x ∷ rest else rest

  abbrev pub All {κ} : (A → Type κ) → List A → Type κ
  All P [] = Unit
  All P (x ∷ xs) = P x × All P xs

  pub length-append : (xs ys : List A) → length (xs ++ ys) ≡ length xs + length ys
  length-append [] ys = omega arith
  length-append (x ∷ xs) ys = omega (arith, length-append xs ys)

  pub length-set : (xs : List A) (i : ℕ) (v : A) → length (set xs i v) ≡ length xs
  length-set [] i v = refl
  length-set (x ∷ xs) zero v = refl
  length-set (x ∷ xs) (suc i) v = ap suc (length-set xs i v)

module _ {ℓ} {A : Type ℓ} where
  pub get_elem?-set_self :
      (xs : List A) (i : ℕ) (v : A) {w : A}
      → get_elem? xs i ≡ some w
      → get_elem? (set xs i v) i ≡ some v
  get_elem?-set_self [] i v h = ground arith
  get_elem?-set_self (x ∷ xs) zero v h = refl
  get_elem?-set_self (x ∷ xs) (suc i) v h = get_elem?-set_self xs i v h

  pub get_elem?-set_ne :
      (xs : List A) (i j : ℕ) (v : A) → i ≢ j → get_elem? (set xs i v) j ≡ get_elem? xs j
  get_elem?-set_ne [] i j v h = refl
  get_elem?-set_ne (x ∷ xs) zero zero v h = absurd (h refl)
  get_elem?-set_ne (x ∷ xs) zero (suc j) v h = refl
  get_elem?-set_ne (x ∷ xs) (suc i) zero v h = refl
  get_elem?-set_ne (x ∷ xs) (suc i) (suc j) v h = get_elem?-set_ne xs i j v (λ e. h (ap suc e))

-- Membership, as a test.
module _ {ℓ} {A : Type ℓ} ⦃e : PartialEq A⦄ where
  abbrev pub contains : A → List A → Bool
  contains a [] = false
  contains a (x ∷ xs) = x == a || contains a xs

  -- How often a value stands in a list.
  abbrev pub count : A → List A → ℕ
  count a [] = 0
  count a (x ∷ xs) = let rest = count a xs in if x == a then suc rest else rest

module _ {ℓ} {A : Type ℓ} ⦃e : PartialEq A⦄ where
  pub count-append : (a : A) (xs ys : List A) → count a (xs ++ ys) ≡ count a xs + count a ys
  count-append a [] ys = omega arith
  count-append a (x ∷ xs) ys = ground (arith, count-append a xs ys)

  pub contains-append :
      (a : A) (xs ys : List A) → contains a (xs ++ ys) ≡ (contains a xs || contains a ys)
  contains-append a [] ys = refl
  contains-append a (x ∷ xs) ys = ground (arith, contains-append a xs ys)

  pub count-pos_of_contains : (a : A) (xs : List A) → contains a xs ≡ true → 1 ≤ count a xs
  count-pos_of_contains a [] h = ground arith
  count-pos_of_contains a (x ∷ xs) h = ground (arith, count-pos_of_contains a xs)

  pub contains_of_count-pos : (a : A) (xs : List A) → 1 ≤ count a xs → contains a xs ≡ true
  contains_of_count-pos a [] h = ground arith
  contains_of_count-pos a (x ∷ xs) h = ground (arith, contains_of_count-pos a xs)

-- A sum over a list, and what a write changes of it.
module _ {ℓ} {A : Type ℓ} (f : A → ℕ) where
  abbrev pub total : List A → ℕ
  total [] = 0
  total (x ∷ xs) = f x + total xs

  pub total-set :
      (xs : List A) (i : ℕ) (v : A) {w : A}
      → get_elem? xs i ≡ some w
      → total (set xs i v) + f w ≡ total xs + f v
  total-set [] i v h = ground arith
  total-set (x ∷ xs) zero v h = ground arith
  total-set (x ∷ xs) (suc i) v h = omega (arith, total-set xs i v h)

  pub le-total : (xs : List A) (i : ℕ) {w : A} → get_elem? xs i ≡ some w → f w ≤ total xs
  le-total [] i h = ground arith
  le-total (x ∷ xs) zero h = ground arith
  le-total (x ∷ xs) (suc i) h = omega (arith, le-total xs i h)

  pub add-le-total :
      (xs : List A) (i j : ℕ) {v w : A}
      → i ≢ j
      → get_elem? xs i ≡ some v
      → get_elem? xs j ≡ some w
      → f v + f w ≤ total xs
  add-le-total [] i j n p q = ground arith
  add-le-total (x ∷ xs) zero zero n p q = absurd (n refl)
  add-le-total (x ∷ xs) zero (suc j) n p q = ground (arith, le-total xs j q)
  add-le-total (x ∷ xs) (suc i) zero n p q = ground (arith, le-total xs i p)
  add-le-total (x ∷ xs) (suc i) (suc j) n p q =
      omega (arith, add-le-total xs i j (λ e. n (ap suc e)) p q)

  pub total-replicate : (n : ℕ) (v : A) → f v ≡ 0 → total (replicate n v) ≡ 0
  total-replicate zero v h = refl
  total-replicate (suc n) v h = omega (arith, total-replicate n v h)

  pub total-append : (xs ys : List A) → total (xs ++ ys) ≡ total xs + total ys
  total-append [] ys = omega arith
  total-append (x ∷ xs) ys = omega (arith, total-append xs ys)

module _ {ℓ κ} {A : Type ℓ} (P : A → Type κ) where
  pub All-set : (xs : List A) (i : ℕ) (v : A) → All P xs → P v → All P (set xs i v)
  All-set [] i v h p = h
  All-set (x ∷ xs) zero v h p = (p, h.1)
  All-set (x ∷ xs) (suc i) v h p = (h.0, All-set xs i v h.1 p)

  pub All-get_elem? : (xs : List A) (i : ℕ) {v : A} → All P xs → get_elem? xs i ≡ some v → P v
  All-get_elem? [] i h e = cc
  All-get_elem? (x ∷ xs) zero h e = subst P (some_inj e) h.0
  All-get_elem? (x ∷ xs) (suc i) h e = All-get_elem? xs i h.1 e

  pub All-append : (xs ys : List A) → All P xs → All P ys → All P (xs ++ ys)
  All-append [] ys h k = k
  All-append (x ∷ xs) ys h k = (h.0, All-append xs ys h.1 k)

  pub All-replicate : (n : ℕ) (v : A) → P v → All P (replicate n v)
  All-replicate zero v h = tt
  All-replicate (suc n) v h = (h, All-replicate n v h)

-- Two lists of one length are defined at the same places.
pub get_elem?-of_length {ℓ κ} :
    {A : Type ℓ} {B : Type κ} (xs : List A) (ys : List B) (i : ℕ) {x : A}
    → length ys ≡ length xs
    → get_elem? xs i ≡ some x
    → (y : B) × (get_elem? ys i ≡ some y)
get_elem?-of_length [] ys i h e = cc
get_elem?-of_length (x ∷ xs) [] i h e = absurd (omega arith)
get_elem?-of_length (x ∷ xs) (y ∷ ys) zero h e = (y, refl)
get_elem?-of_length (x ∷ xs) (y ∷ ys) (suc i) h e = get_elem?-of_length xs ys i (omega arith) e

pub length-replicate {ℓ} : {A : Type ℓ} (n : ℕ) (v : A) → length (replicate n v) ≡ n
length-replicate zero v = refl
length-replicate (suc n) v = ap suc (length-replicate n v)

pub any-append {ℓ} :
    {A : Type ℓ} (p : A → Bool) (xs ys : List A) → any p (xs ++ ys) ≡ (any p xs || any p ys)
any-append p [] ys = refl
any-append p (x ∷ xs) ys = ground (arith, any-append p xs ys)

pub any-map {ℓ κ} :
    {A : Type ℓ} {B : Type κ} (p : B → Bool) (f : A → B) (xs : List A)
    → any p (map f xs) ≡ any (λ x. p (f x)) xs
any-map p f [] = refl
any-map p f (x ∷ xs) = ground (arith, any-map p f xs)
