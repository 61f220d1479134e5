-- ===== src/Notifications/Percent/Decoded.antt =====
-- A decoder of percent encoding, and that it undoes the encoding.
use catnap.Common.{
  ℕ, zero, suc, ◌+◌, ◌-◌, ◌*◌, ◌/◌, ◌%◌, ◌<◌, Bool, true, false, ◌&&◌, ◌≡◌, refl, ap, ◌∙◌, List, [],
  ◌∷◌, leb, ◌==◌, eq_nat, if◌then◌else◌, All, arith, Bool-cases, inl, inr, ==_iff, sym, subst,
}
use catnap.Notifications.Percent.{
  is_unreserved, upper_hex, lower_hex, hex_digit, percent_encode_url_component,
}

-- What a hexadecimal digit stands for.
unfoldable pub from_hex : ℕ → ℕ
from_hex c = if leb 97 c then c - 87 else (if leb 65 c then c - 55 else c - 48)

-- Nothing is read yet, `%` is, or it and the first digit.
pub data Pending : Type 0 where
  plain : Pending
  percent : Pending
  high : ℕ → Pending

unfoldable pub decode : Pending → List ℕ → List ℕ
unfolding from_hex
decode p [] = []
decode plain (c ∷ cs) =
    let escaped = decode percent cs in
    let rest = decode plain cs in if c == 37 then escaped else c ∷ rest
decode percent (c ∷ cs) = decode (high (from_hex c)) cs
decode (high h) (c ∷ cs) = let rest = decode plain cs in (h * 16 + from_hex c) ∷ rest

abbrev pub hex_table : Bool → List ℕ
hex_table upper = if upper then upper_hex else lower_hex

-- A test of every number below a bound.
all_below : (ℕ → Bool) → ℕ → Bool
all_below p zero = true
all_below p (suc n) = all_below p n && p n

all_below-holds : (p : ℕ → Bool) (bound n : ℕ) → all_below p bound ≡ true → n < bound → p n ≡ true
unfolding all_below
all_below-holds p zero n h l = absurd (omega (arith, l))
all_below-holds p (suc b) n h l = ground (arith, all_below-holds p b n)

digits_agree :
    (upper : Bool) → all_below (λ d. from_hex (hex_digit (hex_table upper) d) == d) 16 ≡ true
unfolding all_below from_hex hex_digit
digits_agree true = refl
digits_agree false = refl

percent_reserved : is_unreserved 37 ≡ false
unfolding is_unreserved
percent_reserved = refl

from_hex-hex_digit : (upper : Bool) (d : ℕ) → d < 16 → from_hex (hex_digit (hex_table upper) d) ≡ d
from_hex-hex_digit upper d l = (==_iff (from_hex (hex_digit (hex_table upper) d)) d).0 (
    all_below-holds (λ d. from_hex (hex_digit (hex_table upper) d) == d) 16 d (digits_agree upper)
      l)

not_both : ¬ (true ≡ false)
not_both h = ground arith

joined : (b : ℕ) → (b / 16) * 16 + b % 16 ≡ b
joined b = omega arith

unreserved_plain : (b : ℕ) → is_unreserved b ≡ true → (b == 37) ≡ false
unreserved_plain b h = elim (Bool-cases (b == 37)) [
  | inl same ↦ absurd (
      not_both
        (sym (subst (λ c. is_unreserved c ≡ true) ((==_iff b 37).0 same) h) ∙ percent_reserved))
  | inr other ↦ other
]

-- Bytes that are encoded with either table of digits decode to themselves.
pub decode-percent_encode :
    (upper : Bool) (value : List ℕ)
    → All (λ b. b < 256) value
    → decode plain (percent_encode_url_component (hex_table upper) value) ≡ value
unfolding decode percent_encode_url_component
decode-percent_encode upper [] h = refl
decode-percent_encode upper (b ∷ value) h = elim (Bool-cases (is_unreserved b)) [
  | inl free ↦ rw (free, unreserved_plain b free, decode-percent_encode upper value h.1) refl
  | inr reserved ↦
      rw
        (
          reserved,
          from_hex-hex_digit upper (b / 16) (omega (arith, h.0)),
          from_hex-hex_digit upper (b % 16) (omega arith),
          decode-percent_encode upper value h.1,
        )
        (ap (λ c. c ∷ value) (joined b))
]
