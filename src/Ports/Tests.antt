-- ===== src/Ports/Tests.antt =====
-- The ports of two slots, and the groups of two tasks 2 ^ 18 apart.
use imaged.Base.{◌≡◌, ◌≢◌, ◌<◌, ◌≤◌, ◌+◌, ◌%◌, refl}
use imaged.Base.Int.{pos}
use imaged.Ports.{
  get_multicast_port, get_multicast_port-apart, bit_or, multicast_group, multicast_group-same,
}

get_multicast_port-apart_example :
    (get_multicast_port (pos 0) + 1 < 65535)
    × (get_multicast_port (pos 0) ≢ get_multicast_port (pos 32768))
    × (get_multicast_port (pos 0) + 1 ≢ get_multicast_port (pos 32768))
    × (get_multicast_port (pos 0) ≢ get_multicast_port (pos 32768) + 1)
get_multicast_port-apart_example = get_multicast_port-apart (pos 0) (pos 32768) refl (λ e. cc)

multicast_group-same_example :
    (1 % 262144 ≡ 262145 % 262144)
    × (4022337536 ≤ multicast_group (pos 1))
    × (multicast_group (pos 1) < 4022599680)
unfolding multicast_group bit_or
multicast_group-same_example = multicast_group-same 1 262145 refl
