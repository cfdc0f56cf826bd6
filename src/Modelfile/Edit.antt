-- ===== src/Modelfile/Edit.antt =====
-- Structured editing of a parsed Modelfile: `replaceDirectiveArgument` of
-- packages/core/src/modelfile-parser.ts and packages/core/src/modelfile-editor.ts.
pub mod Args
pub mod Patch
pub mod Local
pub mod Append
pub mod RoundTrip
pub mod ReadBack
