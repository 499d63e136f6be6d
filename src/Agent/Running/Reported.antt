-- ===== src/Agent/Running/Reported.antt =====
-- The updates and the notices of a whole session of apps/agent/src-tauri/src/session.rs.
use z_bacs.Session.{Session}
use z_bacs.Core.Header as Headers
use z_bacs.Agent.Forms.{Forms}
use z_bacs.Agent.Open as Opens
use z_bacs.Agent.Open.Saving.{Saving}
