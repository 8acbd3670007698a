-- ===== src/Sky.antt =====
-- server/server.c: the kernel module of a proxy server. Its table of routes, the TCP option that
-- carries an address, the scrambling of payloads, the hooks of the server host and of the host that
-- routes, the device and the module's start and end.
pub mod Data
pub mod Table
pub mod Toa
pub mod Xor
pub mod Server
pub mod Memory
pub mod RouteHook
pub mod Lifecycle
mod Tests
