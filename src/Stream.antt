-- ===== src/Stream.antt =====
-- The stream of the events of a model-create job, apps/api/src/create-job-events.ts.
pub mod Events
pub mod Publics
pub mod Rounds
pub mod Delivery
mod Tests
