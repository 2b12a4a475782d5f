-- ===== src/Net.antt =====
-- src/extensions/networking: packets, protocols and the handler.
pub mod Wire
pub mod Buffer
pub mod Ethernet
pub mod Arp
pub mod Ipv4
pub mod Udp
pub mod Icmp
pub mod Dhcp
pub mod IpMap
pub mod Handler
pub mod Api
pub mod Extension
pub mod Flow
