-- ===== src/Network/Udp.antt =====
-- include/network/protocols/UDP.hpp, at a datagram that is the list of the bytes of its buffer from its header
-- on.
pub mod Ports
use depos.Base.{
  ℕ, ◌+◌, ◌-◌, ◌*◌, ◌/◌, ◌%◌, ◌==◌, if◌then◌else◌, Bool, true, false, not, ◌&&◌, List, [], ◌∷◌,
  ◌++◌, Option, none, some, get_or, take, drop, length,
}
use depos.Network.Ipv4.{big_endian, half_at}

pub send : ℕ → ℕ → List ℕ → List ℕ
send own port payload =
    big_endian own
    ++ (big_endian port ++ (big_endian ((8 + length payload) % 65536) ++ (0 ∷ 0 ∷ payload)))

-- The payload, the destination port and the source port, or nothing. The port of the header is compared as
-- it is stored, with its bytes swapped.
pub update : ℕ → List ℕ → ℕ → Option (List ℕ × ℕ × ℕ)
update own packet protocol =
    let stored = get_or packet 2 0 + 256 * get_or packet 3 0 in
    if not (protocol == 17)
    then none
    else (if not (own == 0) && not (stored == own)
        then none
        else some (drop 8 packet, half_at packet 2, half_at packet 0))
