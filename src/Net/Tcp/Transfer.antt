-- ===== src/Net/Tcp/Transfer.antt =====
-- Two connections of src/net/tcp.rs: what one puts on the wire, and what the other makes of it.
pub mod Wire
pub mod Sender
pub mod Handlers
pub mod Steps
pub mod Calls
pub mod Talk
pub mod Receiver
pub mod Delivery
mod Examples
