-- ===== src/Proto.antt =====
-- crates/zbacs-proto: the messages that pass through the relay, the envelope that authenticates
-- them, and the terms of a grant.
pub mod External
pub mod Messages
pub mod Signed
pub mod Grant
pub mod Authenticity
pub mod Terms
pub mod Queued
mod Tests
