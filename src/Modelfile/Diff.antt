-- ===== src/Modelfile/Diff.antt =====
-- packages/core/src/modelfile-diff.ts: the difference of two Modelfiles, line by line. Source, Lcs and
-- Hunks hold the code; the other modules what is proved of it.
pub mod Source
pub mod Lcs
pub mod Hunks
pub mod Walk
pub mod Edits
pub mod Matrix
pub mod Optimal
pub mod Split
pub mod Changed
pub mod Bounded
pub mod Shown
mod Tests
pub mod Windows
