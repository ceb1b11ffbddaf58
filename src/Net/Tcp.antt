-- ===== src/Net/Tcp.antt =====
-- src/net/tcp.rs.
pub mod Ring
pub mod Header
pub mod Tcb
pub mod Send
pub mod Segment
pub mod Table
pub mod Transfer
