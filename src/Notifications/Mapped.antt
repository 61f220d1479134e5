-- ===== src/Notifications/Mapped.antt =====
-- The IPv6 form of IPv4 addresses.
use catnap.Common.{ℕ, ◌+◌, ◌*◌, true, false, ◌≡◌, arith}
use catnap.Notifications.{IpAddr, v4, v6, is_public_ip}

-- `::ffff:a.b.c.d`, by which a dual-stack socket reaches the IPv4 address.
abbrev pub to_ipv6_mapped : ℕ → ℕ → ℕ → ℕ → IpAddr
to_ipv6_mapped a b c d = v6 0 0 0 0 0 0xffff (a * 256 + b) (c * 256 + d)

-- Every IPv4 loopback address and every address of 10.0.0.0/8 is refused, and its IPv4-mapped IPv6
-- form is taken for public.
pub mapped_is_public :
    (b c d : ℕ)
    → (is_public_ip (v4 127 b c d) ≡ false)
      × (is_public_ip (to_ipv6_mapped 127 b c d) ≡ true)
      × (is_public_ip (v4 10 b c d) ≡ false)
      × (is_public_ip (to_ipv6_mapped 10 b c d) ≡ true)
unfolding is_public_ip
mapped_is_public b c d = (ground arith, ground arith, ground arith, ground arith)
