-- ===== src/Gateway.antt =====
-- server/main.c: the netfilter module of the gateway.
pub mod Packet
pub mod Classify
pub mod Handle
pub mod Capture
pub mod Replies
pub mod Traffic
mod Tests
