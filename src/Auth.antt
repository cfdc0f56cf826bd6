-- ===== src/Auth.antt =====
-- Administrators and sessions: apps/api/src/auth.ts and `SqliteAuthRepository` of
-- packages/db/src/index.ts. Store and Service are the model; the other modules hold the proofs.
pub mod Store
pub mod Service
pub mod Sessions
pub mod Revoked
pub mod Steps
mod Tests
