-- ===== src/Network/Link.antt =====
-- include/network/Ethernet.hpp, include/drivers/ethernet/EthernetDevice.hpp and
-- include/network/link/LinkIPv4ToEthernet.hpp. An address is a number, as in `Network.Arp`, whose `resolve` is one round; the
-- rest of a frame is the list of its bytes.
pub mod Delivery
use depos.Base.{ℕ, ◌+◌, ◌*◌, ◌/◌, ◌%◌, ◌==◌, if◌then◌else◌, Bool, Option, none, some, List}
use depos.Network.Arp.{Machine, resolve}

-- `htobe16` and `be16toh` on a little-endian processor
pub swap_bytes : ℕ → ℕ
swap_bytes x = x % 256 * 256 + x / 256 % 256

-- `Ethernet::Header` in front of a packet: `_destination`, `_source` and `_protocol`
pub record EthernetFrame : Type 0 where
  pub destination : ℕ
  pub source : ℕ
  pub protocol : ℕ
  pub packet : List ℕ

-- the constructor `Header(d, s, p)`
pub ethernet_frame : ℕ → ℕ → ℕ → List ℕ → EthernetFrame
ethernet_frame d s p packet = record {
  destination = d;
  source = s;
  protocol = swap_bytes p;
  packet = packet;
}

-- `source()`, `destination()` and `protocol()`
pub source_of : EthernetFrame → ℕ
source_of f = f.destination

pub destination_of : EthernetFrame → ℕ
destination_of f = f.source

pub protocol_of : EthernetFrame → ℕ
protocol_of f = swap_bytes f.protocol

-- `IPv4::ProtocolValue`, `EthernetBroadcast` and `IPv4Broadcast`
abbrev pub ipv4 : ℕ
ipv4 = 2048

abbrev pub ethernet_broadcast : ℕ
ethernet_broadcast = 281474976710655

abbrev pub ipv4_broadcast : ℕ
ipv4_broadcast = 4294967295

-- `EthernetDevice::send`, up to the `send` of the device, whose address is `own`
pub send_frame : ℕ → ℕ → ℕ → List ℕ → EthernetFrame
send_frame own destination protocol packet = ethernet_frame destination own protocol packet

pub solved : ℕ → List ℕ → Option ℕ × Machine → Option EthernetFrame × Machine
solved own packet (none, m) = (none, m)
solved own packet (some hardware, m) = (some (send_frame own hardware ipv4 packet), m)

-- `LinkIPv4ToEthernet::send`: the frame that the device sends
pub link_send : ℕ → ℕ → List ℕ → Machine → Option EthernetFrame × Machine
unfolding solved
link_send own address packet m =
    if address == ipv4_broadcast
    then (some (send_frame own ethernet_broadcast ipv4 packet), m)
    else solved own packet (resolve address ethernet_broadcast m)

-- `LinkIPv4ToEthernet::update`: what the observers are shown
pub link_update : EthernetFrame → Option (List ℕ)
link_update f = if protocol_of f == ipv4 then some f.packet else none
