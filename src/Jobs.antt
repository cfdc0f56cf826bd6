-- ===== src/Jobs.antt =====
-- Persistent jobs: the tables and repository of packages/db/src/index.ts with the constraints of
-- packages/db/migrations/0006_jobs_audit.sql, and the JobService of apps/api/src/jobs.ts.
pub mod Data
pub mod Deployments
pub mod Store
pub mod Rows
pub mod Service
pub mod Outcomes
pub mod Invariant
pub mod Moves
pub mod Evidence
pub mod Safety
pub mod Locks
pub mod Recorded
pub mod Final
pub mod History
pub mod Advance
mod Tests
