-- ===== src/Network/Link/Delivery.antt =====
-- A packet on its way over the Ethernet.
use depos.Base.{ℕ, ◌<◌, ◌≡◌, ◌≢◌, arith, some, List, ne→==_false, refl}
use depos.Network.Arp.{Machine, look}
use depos.Network.Link.{
  swap_bytes, EthernetFrame, ethernet_frame, source_of, destination_of, protocol_of, send_frame,
  link_send, link_update, ipv4, ipv4_broadcast, ethernet_broadcast, solved,
}
use depos.Network.Arp.Exchange.{resolve-some}

-- A protocol of 16 bits is read as it was written. `source` and `destination` answer each other's address.
pub protocol_of-ethernet_frame :
    (d s p : ℕ) (packet : List ℕ)
    → p < 65536
    → (protocol_of (ethernet_frame d s p packet) ≡ p)
      × (source_of (ethernet_frame d s p packet) ≡ d)
      × (destination_of (ethernet_frame d s p packet) ≡ s)
unfolding protocol_of ethernet_frame swap_bytes source_of destination_of
protocol_of-ethernet_frame d s p packet h = (omega arith, refl, refl)

-- A packet to an address whose hardware address is in the table leaves at once in a frame to that address, from which the link of
-- the receiver shows its observers the same packet.
pub link_update-link_send :
    (own address hardware : ℕ) (packet : List ℕ) (m : Machine)
    → address ≢ ipv4_broadcast
    → look address m ≡ some hardware
    → (f : EthernetFrame) × (link_send own address packet m ≡ (some f, m))
      × (f.destination ≡ hardware)
      × (f.source ≡ own)
      × (link_update f ≡ some packet)
unfolding link_send solved link_update protocol_of send_frame ethernet_frame swap_bytes
link_update-link_send own address hardware packet m n e = (
  send_frame own hardware ipv4 packet,
  rw (ne→==_false address ipv4_broadcast n, resolve-some address ethernet_broadcast hardware m e)
      refl,
  refl,
  refl,
  refl,
)
