-- ===== src/Client.antt =====
-- client: the settings of the client, its main window and its dialogs.
pub mod Controller
pub mod QtText
pub mod Rows
pub mod Mac
pub mod Protocols
pub mod Servers
pub mod Window
pub mod Capture
mod DialogTests
mod Tests
