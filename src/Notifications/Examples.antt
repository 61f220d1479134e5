-- ===== src/Notifications/Examples.antt =====
-- The addresses at a concrete one.
use catnap.Common.{true, false, ◌≡◌}
use catnap.Notifications.{v4, is_public_ip}
use catnap.Notifications.Mapped.{to_ipv6_mapped, mapped_is_public}

mapped_is_public_example :
    (is_public_ip (v4 127 0 0 1) ≡ false)
    × (is_public_ip (to_ipv6_mapped 127 0 0 1) ≡ true)
    × (is_public_ip (v4 10 0 0 1) ≡ false)
    × (is_public_ip (to_ipv6_mapped 10 0 0 1) ≡ true)
mapped_is_public_example = mapped_is_public 0 0 1
