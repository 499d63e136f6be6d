-- ===== src/Agent.antt =====
-- apps/agent/src-tauri/src: the agent on the owner's and on the reader's computer.
pub mod Dict
pub mod Forms
pub mod Ledger
pub mod Link
pub mod Approve
pub mod Open
pub mod Request
pub mod Exchange
pub mod Running
