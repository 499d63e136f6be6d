-- ===== src/Chain.antt =====
-- crates/zbacs-chain/src: what the agent remembers of the chain, and how it watches it.
pub mod Cache
pub mod Watcher
mod Tests
