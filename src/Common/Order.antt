-- ===== src/Common/Order.antt =====
-- The order of texts and of pairs of texts: strict, and total on those that differ.
use Prim.Native.Nat.{Ordering, compare as compare_nat}
use Prim.Native.Char.{Char, code}
use Prim.Native.String.{String, [], ◌∷◌, then, compare}
use Prim.Native.String.compare
use mathlib.Core.Path.{◌≡◌, refl, ap, ◌∙◌, sym, subst}
use mathlib.Core.Bool.{Bool, true, false, ◌&&◌, ◌||◌}
use native.Mathlib.Omega.{arith}
use text.Mathlib.TextPositions.{compare_refl, compare_self}
use text.Mathlib.TextEquality.{codes_equal}
use catnap.Common.Tests.{ltb, ◌==◌, eq_string, eq_nat, ==_iff}
use catnap.Common.Sort.{str_ltb, pair_ltb}

abbrev is_lt : Ordering → Bool
is_lt o = elim o [ Ordering.lt ↦ true | _ ↦ false ]

abbrev is_eq : Ordering → Bool
is_eq o = elim o [ Ordering.eq ↦ true | _ ↦ false ]

is_lt-then : (o p : Ordering) → is_lt (then o p) ≡ (is_lt o || (is_eq o && is_lt p))
is_lt-then Ordering.lt p = refl
is_lt-then Ordering.eq p = refl
is_lt-then Ordering.gt p = refl

str_ltb-cons :
    (c d : Char) (s t : String)
    → str_ltb (c ∷ s) (d ∷ t) ≡ (ltb (code c) (code d) || (code c == code d && str_ltb s t))
str_ltb-cons c d s t =
    ap is_lt (compare.cons-cons c d s t) ∙ is_lt-then (compare_nat (code c) (code d)) (compare s t)

pub str_ltb_irrefl : (s : String) → str_ltb s s ≡ false
str_ltb_irrefl s = ap is_lt (compare_refl s)

str_ltb-nil : (s : String) → str_ltb s [] ≡ false
str_ltb-nil [] = refl
str_ltb-nil (c ∷ s) = ap is_lt (compare.cons-nil c s)

pub str_ltb_trans : (s t u : String) → str_ltb s t ≡ true → str_ltb t u ≡ true → str_ltb s u ≡ true
str_ltb_trans s [] u h k = ground (arith, str_ltb-nil s, h)
str_ltb_trans s (d ∷ t) [] h k = ground (arith, str_ltb-nil (d ∷ t), k)
str_ltb_trans [] (d ∷ t) (e ∷ u) h k = ap is_lt (compare.nil-cons e u)
str_ltb_trans (c ∷ s) (d ∷ t) (e ∷ u) h k = ground (
  arith,
  str_ltb-cons c d s t,
  str_ltb-cons d e t u,
  str_ltb-cons c e s u,
  str_ltb_trans s t u,
  h,
  k,
)

-- Two texts of which neither is before the other are equal.
pub str_ltb_total : (s t : String) → str_ltb s t ≡ false → str_ltb t s ≡ false → s ≡ t
str_ltb_total [] [] h k = refl
str_ltb_total [] (d ∷ t) h k = ground (arith, sym (ap is_lt (compare.nil-cons d t)) ∙ h)
str_ltb_total (c ∷ s) [] h k = ground (arith, sym (ap is_lt (compare.nil-cons c s)) ∙ k)
str_ltb_total (c ∷ s) (d ∷ t) h k =
    let first : code c ≡ code d =
      ground (arith, str_ltb-cons c d s t, str_ltb-cons d c t s, h, k) in
    let rest : s ≡ t =
      str_ltb_total s t (ground (arith, first, str_ltb-cons c d s t, h))
        (ground (arith, first, str_ltb-cons d c t s, k)) in
    λ i.
      codes_equal c d
        (subst (λ n. compare_nat (code c) n ≡ Ordering.eq) first (compare_self (code c))) i
      ∷ rest i

-- A strict order by which any two keys that differ are apart.
pub record StrictOrder {ℓ} {A : Type ℓ} (lt : A → A → Bool) : Type ℓ where
  pub irrefl : (a : A) → lt a a ≡ false
  pub trans : (a b c : A) → lt a b ≡ true → lt b c ≡ true → lt a c ≡ true

pub pair_ltb-StrictOrder : StrictOrder pair_ltb
pair_ltb-StrictOrder = record {
  irrefl = λ a. ground (arith, str_ltb_irrefl a.0, str_ltb_irrefl a.1);
  trans = λ a b c h k. grind (
    arith,
    h,
    k,
    ==_iff a.0 b.0,
    ==_iff b.0 c.0,
    ==_iff a.0 c.0,
    str_ltb_trans a.0 b.0 c.0,
    str_ltb_trans a.1 b.1 c.1,
  );
}

pub pair_ltb_total : (p q : String × String) → pair_ltb p q ≡ false → pair_ltb q p ≡ false → p ≡ q
pair_ltb_total p q h k =
    let first : p.0 ≡ q.0 = str_ltb_total p.0 q.0 (ground (arith, h)) (ground (arith, k)) in
    let rest : p.1 ≡ q.1 =
      str_ltb_total p.1 q.1 (grind (arith, h, first, ==_iff p.0 q.0))
        (grind (arith, k, first, ==_iff q.0 p.0)) in
    λ i. (first i, rest i)
