-- ===== src/Notifications.antt =====
-- src/notifications.rs, `is_public_ip`: the addresses that a push endpoint may have.
pub mod Mapped
pub mod Sanitize
pub mod Percent
pub mod Redact
pub mod Examples
use catnap.Common.{ℕ, Bool, not, ◌&&◌, ◌||◌, leb, ◌==◌, eq_nat}

-- `IpAddr`: four bytes, or eight segments of 16 bits.
pub data IpAddr : Type 0 where
  v4 : ℕ → ℕ → ℕ → ℕ → IpAddr
  v6 : ℕ → ℕ → ℕ → ℕ → ℕ → ℕ → ℕ → ℕ → IpAddr

abbrev is_private : ℕ → ℕ → Bool
is_private a b = a == 10 || (a == 172 && leb 16 b && leb b 31) || (a == 192 && b == 168)

abbrev is_link_local : ℕ → ℕ → Bool
is_link_local a b = a == 169 && b == 254

abbrev is_multicast : ℕ → Bool
is_multicast a = leb 224 a && leb a 239

abbrev all_zero : ℕ → ℕ → ℕ → ℕ → ℕ → ℕ → ℕ → Bool
all_zero s t u w x y z = s == 0 && t == 0 && u == 0 && w == 0 && x == 0 && y == 0 && z == 0

-- The last segment is 1 for the loopback address and 0 for the unspecified one.
unfoldable pub is_public_ip : IpAddr → Bool
is_public_ip (v4 a b c d) = not (
    is_private a b
    || a == 127
    || is_link_local a b
    || is_multicast a
    || (a == 0 && b == 0 && c == 0 && d == 0)
    || a == 0)
is_public_ip (v6 s t u w x y z last) = not (
    (all_zero s t u w x y z && last == 1)
    || (all_zero s t u w x y z && last == 0)
    || (leb 0xff00 s && leb s 0xffff)
    || (leb 0xfc00 s && leb s 0xfdff)
    || (leb 0xfe80 s && leb s 0xfebf))
