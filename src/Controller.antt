-- ===== src/Controller.antt =====
-- controller/: the user-space proxy. Its bitmap of addresses, the APNIC list, the tasks and their
-- pool.
pub mod Mmap
pub mod Apnic
pub mod Create
pub mod Pool
mod Tests
