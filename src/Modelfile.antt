-- ===== src/Modelfile.antt =====
-- The Modelfile library, packages/core/src/modelfile-parser.ts, modelfile-editor.ts and
-- modelfile-diff.ts. A child module holds the code of one stage; the modules below a stage hold what is
-- proved of it.
pub mod Chars
pub mod Source
pub mod Lines
pub mod Directive
pub mod Parse
pub mod Edit
pub mod Diff
mod Runs
mod Tests
mod EditTests
