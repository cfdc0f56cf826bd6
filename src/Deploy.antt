-- ===== src/Deploy.antt =====
-- The confirmation of a deployment, apps/api/src/deploy-confirmation-authority.ts.
pub mod Authority
pub mod RoundTrip
mod Tests
