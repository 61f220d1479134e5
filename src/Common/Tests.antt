-- ===== src/Common/Tests.antt =====
-- Boolean tests, the conditional, and equality as an interface.
use Prim.Native.Nat.{ℕ, compare, Ordering}
use Prim.Native.String.{String}
use mathlib.Core.Path.{◌≡◌, refl}
use mathlib.Core.Logic.{◌↔◌, ◌≢◌, ◌⊎◌, inl, inr}
use mathlib.Core.Bool.{Bool, true, false, ◌&&◌}
use mathlib.Core.Option.{Option, none, some}
use native.Mathlib.Omega.{arith}
use text.Mathlib.Text.{◌==◌ as str_eq}
use text.Mathlib.TextEquality.{eq_iff as str_eq_iff}

abbrev pub ltb : ℕ → ℕ → Bool
ltb a b = elim (compare a b) [ Ordering.lt ↦ true | _ ↦ false ]

abbrev pub leb : ℕ → ℕ → Bool
leb a b = elim (compare a b) [ Ordering.gt ↦ false | _ ↦ true ]

abbrev nat_beq : ℕ → ℕ → Bool
nat_beq a b = elim (compare a b) [ Ordering.eq ↦ true | _ ↦ false ]

pub nat_beq_iff : (a b : ℕ) → (nat_beq a b ≡ true) ↔ (a ≡ b)
nat_beq_iff a b = ground arith

infix 1 if◌then◌else◌
abbrev pub if◌then◌else◌ {ℓ} : {A : Type ℓ} → Bool → A → A → A
if true then x else y = x
if false then x else y = y

-- `==` of Rust, for the types that derive or have it.
pub record PartialEq {ℓ} (A : Type ℓ) : Type ℓ where
  pub eq : A → A → Bool
  pub agrees : (a b : A) → (eq a b ≡ true) ↔ (a ≡ b)

instance abbrev pub eq_nat : PartialEq ℕ
eq_nat = record { eq = nat_beq; agrees = nat_beq_iff }

instance abbrev pub eq_string : PartialEq String
eq_string = record { eq = str_eq; agrees = str_eq_iff }

abbrev option_beq {ℓ} : {A : Type ℓ} → PartialEq A → Option A → Option A → Bool
option_beq e none none = true
option_beq e none (some b) = false
option_beq e (some a) none = false
option_beq e (some a) (some b) = e.eq a b

pub option_beq_iff {ℓ} :
    {A : Type ℓ} (e : PartialEq A) (a b : Option A) → (option_beq e a b ≡ true) ↔ (a ≡ b)
option_beq_iff e none none = ground arith
option_beq_iff e none (some b) = ground arith
option_beq_iff e (some a) none = ground arith
option_beq_iff e (some a) (some b) = ground (arith, e.agrees a b)

instance abbrev pub eq_option {ℓ} : {A : Type ℓ} ⦃e : PartialEq A⦄ → PartialEq (Option A)
eq_option ⦃e⦄ = record { eq = option_beq e; agrees = option_beq_iff e }

infix 50 ◌==◌
abbrev pub ◌==◌ {ℓ} : {T : Type ℓ} ⦃equality : PartialEq T⦄ (x y : T) → Bool
◌==◌ ⦃equality⦄ x y = equality.eq x y

pub ==_iff {ℓ} : {A : Type ℓ} ⦃e : PartialEq A⦄ (a b : A) → ((a == b) ≡ true) ↔ (a ≡ b)
==_iff ⦃e⦄ a b = e.agrees a b

pub ==_refl {ℓ} : {A : Type ℓ} ⦃e : PartialEq A⦄ (a : A) → (a == a) ≡ true
==_refl ⦃e⦄ a = (e.agrees a a).1 refl

-- To split on a computed value and keep the equation.
pub Bool-cases : (b : Bool) → (b ≡ true) ⊎ (b ≡ false)
Bool-cases true = inl refl
Bool-cases false = inr refl

pub Option-cases {ℓ} : {A : Type ℓ} (o : Option A) → (o ≡ none) ⊎ ((a : A) × (o ≡ some a))
Option-cases none = inl refl
Option-cases (some a) = inr (a, refl)

abbrev pub is_some {ℓ} : {A : Type ℓ} → Option A → Bool
is_some none = false
is_some (some a) = true

abbrev pub unwrap_or {ℓ} : {A : Type ℓ} → Option A → A → A
unwrap_or none d = d
unwrap_or (some a) d = a

-- `Option::filter`
abbrev pub filter_some {ℓ} : {A : Type ℓ} → (A → Bool) → Option A → Option A
filter_some p none = none
filter_some p (some a) = if p a then some a else none

abbrev pub map_some {ℓ κ} : {A : Type ℓ} {B : Type κ} → (A → B) → Option A → Option B
map_some f none = none
map_some f (some a) = some (f a)

abbrev pub and_then {ℓ κ} : {A : Type ℓ} {B : Type κ} → Option A → (A → Option B) → Option B
and_then none f = none
and_then (some a) f = f a

pub some_inj {ℓ} : {A : Type ℓ} {a b : A} → some a ≡ some b → a ≡ b
some_inj h = cc

pub none-ne-some {ℓ} : {A : Type ℓ} {a : A} → none ≢ some a
none-ne-some h = cc

abbrev pair_beq {ℓ κ} : {A : Type ℓ} {B : Type κ} → PartialEq A → PartialEq B → A × B → A × B → Bool
pair_beq d e p q = d.eq p.0 q.0 && e.eq p.1 q.1

pub pair_beq_iff {ℓ κ} :
    {A : Type ℓ} {B : Type κ} (d : PartialEq A) (e : PartialEq B) (p q : A × B)
    → (pair_beq d e p q ≡ true) ↔ (p ≡ q)
pair_beq_iff d e p q = ground (arith, d.agrees p.0 q.0, e.agrees p.1 q.1)

instance abbrev pub eq_pair {ℓ κ} :
    {A : Type ℓ} {B : Type κ} ⦃d : PartialEq A⦄ ⦃e : PartialEq B⦄ → PartialEq (A × B)
eq_pair ⦃d⦄ ⦃e⦄ = record { eq = pair_beq d e; agrees = pair_beq_iff d e }
