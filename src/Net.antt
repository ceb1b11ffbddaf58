-- ===== src/Net.antt =====
-- The network stack, src/net.
pub mod Bytes
pub mod Checksum
pub mod Env
pub mod Packet
pub mod Arp
pub mod Tcp
pub mod Ethernet
pub mod Ipv4
pub mod Icmp
pub mod Stack
pub mod Sockets
