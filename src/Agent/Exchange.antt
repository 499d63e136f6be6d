-- ===== src/Agent/Exchange.antt =====
-- The two sides of an exchange together: what request.rs and approve.rs of apps/agent/src-tauri/src
-- send, the other side takes.
pub mod Asked
pub mod Keys
pub mod Answered
pub mod Approved
pub mod Saved
pub mod Scenario
mod Tests
pub mod Edits
