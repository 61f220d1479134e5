-- ===== src/UpdateCheck/Order.antt =====
-- src/update_check.rs: which release counts as newer.
use catnap.Common.{String, true, false, ◌≡◌, refl, Option, none, some, arith, eq_nat, is_some}
use catnap.UpdateCheck.{Version, newer, parse_semver_triplet, is_update_available}

newer_irrefl : (a : Option Version) → newer a a ≡ false
newer_irrefl none = refl
newer_irrefl (some a) = ground arith

newer_trans : (a b c : Option Version) → newer a b ≡ true → newer b c ≡ true → newer a c ≡ true
newer_trans none b c h k = cc
newer_trans (some a) none c h k = cc
newer_trans (some a) (some b) none h k = cc
newer_trans (some a) (some b) (some c) h k = ground arith

newer_total :
    (a b : Option Version)
    → is_some a ≡ true
    → is_some b ≡ true
    → newer a b ≡ false
    → newer b a ≡ false
    → a ≡ b
newer_total none b p q h k = cc
newer_total (some a) none p q h k = cc
newer_total (some a) (some b) p q h k = ground arith

-- Being offered as an update is a strict order of the texts: no version updates itself, and an update
-- of an update is an update.
update_order :
    (a b c : String)
    → is_update_available a b ≡ true
    → is_update_available b c ≡ true
    → (is_update_available a a ≡ false) × (is_update_available a c ≡ true)
unfolding is_update_available
update_order a b c h k = (
  newer_irrefl (parse_semver_triplet a),
  newer_trans (parse_semver_triplet a) (parse_semver_triplet b) (parse_semver_triplet c) h k,
)

-- Two versions that both can be read and of which neither is offered as an update of the other are
-- the same version.
update_total :
    (a b : String)
    → is_some (parse_semver_triplet a) ≡ true
    → is_some (parse_semver_triplet b) ≡ true
    → is_update_available a b ≡ false
    → is_update_available b a ≡ false
    → parse_semver_triplet a ≡ parse_semver_triplet b
unfolding is_update_available
update_total a b p q h k = newer_total (parse_semver_triplet a) (parse_semver_triplet b) p q h k
