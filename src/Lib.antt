-- ===== src/Lib.antt =====
-- A model of the core of Ollama Remote Control: the Modelfile parser, editor and text difference, the
-- persistent jobs and the stream of their events, the confirmation of deployments, administrators and
-- sessions, and the execution of container updates.
--
-- The program manages Ollama servers over SSH. The web interface edits Modelfiles with the structured
-- editor, whose edits go through the parser; the API service runs every operation on a target as a job,
-- which the job repository keeps in SQLite and whose unique index admits one mutating job per target.
--
-- Parts:
--   Prelude             tests, lists, slices of lists and results that the parts share
--   Modelfile           packages/core/src/modelfile-parser.ts, modelfile-editor.ts and modelfile-diff.ts
--     Chars             characters: white space, trim, toUpperCase, the length in UTF-8
--     Source            the types of nodes, ranges and diagnostics
--     Lines             splitPhysicalLines, detectedLineEnding, positionAt, range
--     Directive         the directive pattern, tripleQuoteCount, diagnostic, validateKnownDirective
--     Parse             parseModelfile and renderModelfile; each push_* is one branch of the loop
--     Edit/Args         parseKeyValueArgument, parseTextArgument
--     Edit/Patch        replaceDirectiveArgument and the other edits
--     Diff              packages/core/src/modelfile-diff.ts: Source, Lcs and Hunks are the model, Walk,
--                       Edits, Matrix, Optimal, Split, Bounded, Changed, Windows and Shown the proofs
--     Lines/Tiling, Lines/Search, Parse/Tiling, Parse/Sound, Edit/Local, Edit/Append, Edit/ReadBack and
--     the other files below these hold the proofs; Runs, Tests and EditTests hold runs on a sample file
--   Jobs                apps/api/src/jobs.ts and its repository
--     Data              the records of packages/core/src/index.ts
--     Store             SqliteJobRepository of packages/db/src/index.ts with the constraints of
--                       packages/db/migrations/0006_jobs_audit.sql
--     Deployments       the trigger of packages/db/migrations/0010_modelfile_deployments.sql, by which a
--                       model-create job that succeeds leaves a row of modelfile_deployments or is refused
--     Service           JobService: create, get, transition, appendEvent, events
--     Outcomes, Rows, Invariant, Moves, Evidence, Safety, Locks, Recorded, Final, History and Advance
--     hold the proofs; Tests holds runs on a small database
--   Deploy              apps/api/src/deploy-confirmation-authority.ts: Authority is the model, RoundTrip holds
--                       the proofs; JSON and base64url are parameters
--   Auth                apps/api/src/auth.ts and SqliteAuthRepository of packages/db/src/index.ts: Store and
--                       Service are the model, Sessions, Revoked and Steps the proofs; hashes, bytes and
--                       toISOString are parameters, and an awaited hash lets other requests write
--   Stream              apps/api/src/create-job-events.ts with get and events of apps/api/src/model-create.ts:
--                       Events is the model, Publics, Rounds and Delivery hold the proofs, Tests a run;
--                       JSON is a parameter, and the tables that the rounds see are an argument
--   Update              apps/api/src/update-orchestrator.ts from the prepared update on
--     Effects           the world that an execution acts on (jobs, target, audit, the remote host), actions
--                       that read and change it or throw, and the supply of identifiers and times
--     Stores            the calls of the job service, rebindContainer and the audit recorder
--     Orchestrator      the types, classifyFailure, rebindKnown and failWithoutRollback
--     Execute           UpdateOrchestratorService.execute behind prepare: the way
--                       forward, the recovery, the reports of both
--     Triples           the rules by which the proofs follow an action
--     Execute/Alive, Steps, Start, Ending show how the job ends; Trust, Binding, Serving and Served what
--     the target is bound to; Tests holds runs
--
-- A text is the list of its UTF-16 code units, so offsets are those of JavaScript strings. An error that
-- the code throws is a value of Result. The loop of parseModelfile over the lines runs on fuel, as many
-- rounds as there are lines, of which each round uses one at least; it never runs out. The binary search
-- of positionAt runs on as many rounds as there are lines. The walk over the matrix of a difference
-- runs on as many rounds as both texts have lines. The other loops are structural.
--
-- A transaction of the job repository is a function on the tables, and its rollback gives back the tables
-- that it was called with; statements run one behind the other, as BEGIN IMMEDIATE makes them. An operation
-- takes the identifiers that randomUUID gives and the time as arguments.
--
-- Not modelled: the texts of messages; node ids as texts (an id is its kind and its two offsets); the
-- JSON of payloads and results, which stay texts; tests by typeof, which the types make; SQL itself,
-- of which the functions on texts are parameters. The remote host of an update (Docker, health checks,
-- the apply and the rollback) is a record of parameters, and so are JSON.stringify and the source of
-- identifiers and times. An awaited call may change all of the world: what a theorem needs of it is a
-- hypothesis of its own. The preparation of an update, the rest of deployment (also the repository of
-- deployment records, which writes the same table), reconciliation, cookies, SSH, Docker and the web
-- interface are no part of this library.
pub mod Prelude
pub mod Modelfile
pub mod Jobs
pub mod Deploy
pub mod Update
pub mod Auth
pub mod Stream
