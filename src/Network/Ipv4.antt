-- ===== src/Network/Ipv4.antt =====
-- include/network/protocols/IPv4.hpp, at a packet that is the list of
-- the bytes of its buffer from the network header on. An address is the list of its four bytes, and the
-- processor is little-endian, so `htobe16` swaps the bytes of a half-word that is stored low byte first.
pub mod Datagram
use depos.Base.{
  ℕ, ◌+◌, ◌-◌, ◌*◌, ◌/◌, ◌%◌, ◌==◌, if◌then◌else◌, Bool, true, false, not, ◌&&◌, List, [], ◌∷◌,
  ◌++◌, Option, none, some, get_or, take, drop, length, bit_and,
}
use depos.Network.Checksum.{checksum}

-- the bytes of `htobe16(x)`
abbrev pub big_endian : ℕ → List ℕ
big_endian x = x / 256 % 256 ∷ x % 256 ∷ []

abbrev pub half_at : List ℕ → ℕ → ℕ
half_at packet i = get_or packet i 0 * 256 + get_or packet (i + 1) 0

-- the header with the bytes `c` in the place of its checksum
pub header_with : List ℕ → List ℕ → List ℕ → ℕ → ℕ → List ℕ
header_with c destination source protocol len =
    69
    ∷ 0
    ∷ (big_endian ((20 + len) % 65536)
        ++ (0 ∷ 0 ∷ 0 ∷ 0 ∷ 64 ∷ protocol ∷ (c ++ (source ++ destination))))

-- The constructor of `Header`, and `send`.
pub header : List ℕ → List ℕ → ℕ → ℕ → List ℕ
header destination source protocol len =
    let c = checksum (header_with (0 ∷ 0 ∷ []) destination source protocol len) in
    header_with (c % 256 ∷ c / 256 ∷ []) destination source protocol len

pub send : List ℕ → List ℕ → ℕ → List ℕ → List ℕ
send destination source protocol payload =
    header destination source protocol (length payload) ++ payload

-- What `update` hands to the observers: the payload, the destination, the source and the protocol.
pub update : List ℕ → List ℕ × List ℕ × List ℕ × ℕ
update packet = (
  drop (get_or packet 0 0 % 16 * 4) packet,
  take 4 (drop 16 packet),
  take 4 (drop 12 packet),
  get_or packet 9 0,
)
