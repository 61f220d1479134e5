-- ===== src/Common/Integers.antt =====
-- `i64` and `u64` and how `str::parse` reads them.
use Prim.Native.Nat.{ℕ, ◌+◌, ◌-◌, ◌*◌, ◌^◌}
use Prim.Native.String.{String}
use mathlib.Core.Path.{◌≡◌}
use mathlib.Core.Logic.{◌↔◌}
use native.Mathlib.Omega.{arith}
use mathlib.Core.Bool.{Bool, true, false, ◌&&◌}
use mathlib.Core.List.{List, [], ◌∷◌}
use mathlib.Core.Option.{Option, none, some}
use catnap.Common.Tests.{PartialEq, ◌==◌, ==_iff, eq_nat, leb, if◌then◌else◌, map_some}
use catnap.Common.Texts.{codes}

-- An integer: `negsuc n` is -1-n.
pub data ℤ : Type 0 where
  pos negsuc : ℕ → ℤ

abbrev pub at_least : ℕ → ℤ → Bool
at_least low (pos n) = leb low n
at_least low (negsuc n) = false

-- `(low..=high).contains(v)`
abbrev pub between : ℕ → ℕ → ℤ → Bool
between low high (pos n) = leb low n && leb n high
between low high (negsuc n) = false

abbrev is_digit : ℕ → Bool
is_digit c = leb 48 c && leb c 57

-- Decimal digits after a value so far, up to a limit.
unfoldable pub parse_digits : ℕ → ℕ → List ℕ → Option ℕ
parse_digits limit value [] = some value
parse_digits limit value (c ∷ cs) =
    let next = value * 10 + (c - 48) in
    let rest = parse_digits limit next cs in if is_digit c && leb next limit then rest else none

abbrev some_digits : ℕ → List ℕ → Option ℕ
some_digits limit [] = none
some_digits limit (c ∷ cs) = parse_digits limit 0 (c ∷ cs)

abbrev after_plus : ℕ → List ℕ → Option ℕ
after_plus limit [] = none
after_plus limit (c ∷ cs) = if c == 43 then some_digits limit cs else some_digits limit (c ∷ cs)

unfoldable pub parse_u64 : List ℕ → Option ℕ
unfolding parse_digits
parse_u64 cs = after_plus (2 ^ 64 - 1) cs

-- `-n` of a natural number.
abbrev negated : ℕ → ℤ
negated n = if n == 0 then pos 0 else negsuc (n - 1)

abbrev signed : List ℕ → Option ℤ
signed [] = none
signed (c ∷ cs) =
    if c == 45
    then map_some negated (some_digits (2 ^ 63) cs)
    else map_some (λ n. pos n) (after_plus (2 ^ 63 - 1) (c ∷ cs))

unfoldable pub parse_i64 : String → Option ℤ
unfolding parse_digits
parse_i64 s = signed (codes s)

-- `to_ascii_lowercase` on code points.
abbrev pub ascii_lowercase : ℕ → ℕ
ascii_lowercase c = if leb 65 c && leb c 90 then c + 32 else c

abbrev int_beq : ℤ → ℤ → Bool
int_beq (pos a) (pos b) = a == b
int_beq (negsuc a) (negsuc b) = a == b
int_beq (pos a) (negsuc b) = false
int_beq (negsuc a) (pos b) = false

pub int_beq_iff : (a b : ℤ) → (int_beq a b ≡ true) ↔ (a ≡ b)
int_beq_iff (pos a) (pos b) = ground (arith, ==_iff a b)
int_beq_iff (negsuc a) (negsuc b) = ground (arith, ==_iff a b)
int_beq_iff (pos a) (negsuc b) = ground arith
int_beq_iff (negsuc a) (pos b) = ground arith

instance abbrev pub eq_int : PartialEq ℤ
eq_int = record { eq = int_beq; agrees = int_beq_iff }
