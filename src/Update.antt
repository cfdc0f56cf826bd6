-- ===== src/Update.antt =====
-- The update of a target's container, apps/api/src/update-orchestrator.ts, with the stores that it
-- writes and the waits on the remote host.
pub mod Effects
pub mod Stores
pub mod Orchestrator
pub mod Execute
pub mod Triples
mod Tests
