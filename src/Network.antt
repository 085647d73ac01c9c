-- ===== src/Network.antt =====
-- include/network: the protocols on top of the network devices.
pub mod Device
pub mod Tftp
pub mod Arp
pub mod Link
pub mod Buffer
pub mod Checksum
pub mod Ipv4
pub mod Udp
