-- ===== src/Route.antt =====
-- route/: the kernel module that hands UDP datagrams of a subnet to user space.
pub mod Queue
pub mod Subnet
pub mod Device
pub mod Hooks
pub mod Lifecycle
mod Tests
