-- ===== src/Relay.antt =====
-- apps/relay: the relay's state (src/state.rs), its HTTP handlers (src/routes.rs), and what they
-- promise to devices and owners.
pub mod State
pub mod Handler
pub mod Routes
pub mod Operations
pub mod Calls
pub mod Authentication
pub mod Replay
pub mod Windows
pub mod Quota
pub mod Queues
pub mod Routing
pub mod Delivery
pub mod Posting
pub mod Registry
mod Tests
