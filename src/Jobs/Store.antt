-- ===== src/Jobs/Store.antt =====
-- `SqliteJobRepository` of packages/db/src/index.ts. A statement is a function on the tables that
-- may throw; a transaction keeps the tables of its body only where the body commits. Rows stand in
-- the order of their insertion.
use ollama_remote_control.Prelude.{
  ℕ, ◌+◌, Bool, true, false, not, ◌&&◌, ◌||◌, Option, List, [], ◌∷◌, ◌++◌, map, leb, ltb, ◌==◌,
  text_eq, if◌then◌else◌, select, find, any, Result, ok, err, ◌>>=◌,
}
use ollama_remote_control.Modelfile.Chars.{Text}
use ollama_remote_control.Jobs.Data.{
  JobState, queued, running, cancelling, same_state, StoredJob, NewEvent, StoredJobEvent,
  JobTransitionUpdate, StoreError, foreign_event, foreign_key, unique_event, unique_job,
}
use ollama_remote_control.Jobs.Deployments.{
  SqlFunctions, Revision, Deployment, needs_deployment, record_deployment,
}

-- The tables `jobs`, `job_events` and `modelfile_deployments`, the keys of the tables that `jobs` refers to,
-- the revisions of Modelfiles, and the functions that SQLite brings.
pub record Tables : Type 0 where
  pub jobs : List StoredJob
  pub events : List StoredJobEvent
  pub target_ids : List Text
  pub user_ids : List Text
  pub deployments : List Deployment
  pub revisions : List Revision
  pub sql : SqlFunctions

-- `state IN ('queued', 'running', 'cancelling')`
abbrev pub is_active : JobState → Bool
is_active queued = true
is_active running = true
is_active cancelling = true
is_active _ = false

-- The rows of the index `uq_jobs_active_mutation_target` for a target.
abbrev pub locks : Text → StoredJob → Bool
locks target j = j.mutating && is_active j.state && text_eq j.target_id target

abbrev pub has_id : Text → StoredJob → Bool
has_id id j = text_eq j.id id

abbrev pub has_text : Text → List Text → Bool
has_text t ts = any (text_eq t) ts

-- A row meets the primary key or the partial unique index.
unfoldable pub conflicts : StoredJob → List StoredJob → Bool
conflicts job rows =
    any (has_id job.id) rows
    || (job.mutating && is_active job.state && any (locks job.target_id) rows)

-- `INSERT OR IGNORE INTO jobs`: the number of changed rows. A row that meets a unique constraint is
-- skipped; a foreign key that is missing is an error all the same.
unfoldable pub insert_job : StoredJob → Tables → Result StoreError (ℕ × Tables)
insert_job job t =
    if conflicts job t.jobs
    then ok (0, t)
    else if has_text job.target_id t.target_ids && has_text job.actor_user_id t.user_ids
    then ok (1, record t { jobs = t.jobs ++ (job ∷ []) })
    else err foreign_key

-- `SELECT COALESCE(MAX(sequence), 0)` over the rows of a job.
unfoldable pub max_sequence : Text → List StoredJobEvent → ℕ
max_sequence job [] = 0
max_sequence job (e ∷ es) =
    let rest = max_sequence job es in
    if text_eq e.job_id job && ltb rest e.sequence then e.sequence else rest

unfoldable pub next_job_event_sequence : Text → Tables → ℕ
next_job_event_sequence job t = max_sequence job t.events + 1

-- A row meets the primary key or `UNIQUE(job_id, sequence)`.
abbrev pub event_conflicts : NewEvent → ℕ → StoredJobEvent → Bool
event_conflicts e sequence row =
    text_eq row.id e.id || (text_eq row.job_id e.job_id && row.sequence == sequence)

unfoldable pub insert_job_event :
    NewEvent → ℕ → Tables → Result StoreError (StoredJobEvent × Tables)
insert_job_event e sequence t =
    let row : StoredJobEvent = record { event = e; sequence = sequence } in
    if any (event_conflicts e sequence) t.events
    then err unique_event
    else if any (has_id e.job_id) t.jobs
    then ok (row, record t { events = t.events ++ (row ∷ []) })
    else err foreign_key

pub data Ending (A : Type 0) : Type 0 where
  commit : A → Tables → Ending A
  rollback : A → Ending A

abbrev finish_transaction :
    {A : Type 0} → Tables → Result StoreError (Ending A) → Result StoreError A × Tables
finish_transaction t (ok (commit a t')) = (ok a, t')
finish_transaction t (ok (rollback a)) = (ok a, t)
finish_transaction t (err e) = (err e, t)

-- `BEGIN IMMEDIATE`, the body, and `COMMIT`, `ROLLBACK`, or `ROLLBACK` and the error again.
unfoldable pub transaction :
    {A : Type 0} → (Tables → Result StoreError (Ending A)) → Tables → Result StoreError A × Tables
transaction body t = finish_transaction t (body t)

-- The rest of `createWithInitialEvent` behind `inserted.changes`.
abbrev created : NewEvent → ℕ × Tables → Result StoreError (Ending Bool)
created e (changes, t) =
    if not (changes == 1)
    then ok (rollback false)
    else (insert_job_event e 1 t >>= λ r. ok (commit true r.1))

unfoldable pub create_with_initial_event :
    StoredJob → NewEvent → Tables → Result StoreError Bool × Tables
create_with_initial_event job e t =
    if not (text_eq e.job_id job.id)
    then (err foreign_event, t)
    else transaction (λ t. insert_job job t >>= created e) t

unfoldable pub find_by_id : Text → Tables → Option StoredJob
find_by_id id t = find (has_id id) t.jobs

abbrev pub apply_update : JobTransitionUpdate → StoredJob → StoredJob
apply_update u j = record j {
  state = u.state;
  started_at = u.started_at;
  finished_at = u.finished_at;
  result_json = u.result_json;
  error_class = u.error_class;
  exit_code = u.exit_code;
}

-- `WHERE id = ? AND state = ?`
abbrev pub in_state : Text → JobState → StoredJob → Bool
in_state id expected j = text_eq j.id id && same_state j.state expected

unfoldable pub update_rows : Text → JobState → JobTransitionUpdate → List StoredJob → List StoredJob
update_rows id expected u = map (λ j. if in_state id expected j then apply_update u j else j)

unfoldable pub count_rows : (StoredJob → Bool) → List StoredJob → ℕ
count_rows p [] = 0
count_rows p (j ∷ js) = (if p j then 1 else 0) + count_rows p js

-- No two rows share a target in the index `uq_jobs_active_mutation_target`.
unfoldable pub distinct_locks : List StoredJob → Bool
distinct_locks [] = true
distinct_locks (j ∷ js) =
    not (j.mutating && is_active j.state && any (locks j.target_id) js) && distinct_locks js

-- The triggers of an update: each row that it changes is taken from `before`, and `after` are all rows.
unfoldable pub record_deployments :
    Text
    → JobState
    → JobTransitionUpdate
    → Tables
    → List StoredJob
    → List StoredJob
    → List Deployment
    → Result StoreError (List Deployment)
record_deployments id expected u t after [] deployments = ok deployments
record_deployments id expected u t after (j ∷ before) deployments =
    (if in_state id expected j && needs_deployment j (apply_update u j)
      then record_deployment t.sql t.revisions after deployments (apply_update u j)
      else ok deployments)
    >>= λ ds. record_deployments id expected u t after before ds

-- `UPDATE jobs SET … WHERE id = ? AND state = ?`: the number of changed rows.
unfoldable pub update_job :
    Text → JobState → JobTransitionUpdate → Tables → Result StoreError (ℕ × Tables)
update_job id expected u t =
    let rows = update_rows id expected u t.jobs in
    if distinct_locks rows
    then (record_deployments id expected u t rows t.jobs t.deployments >>= λ ds.
        ok (count_rows (in_state id expected) t.jobs, record t { jobs = rows; deployments = ds }))
    else err unique_job

-- The rest of `transitionWithEvent` behind `changed.changes`.
abbrev transitioned : NewEvent → ℕ × Tables → Result StoreError (Ending Bool)
transitioned e (changes, t) =
    if not (changes == 1)
    then ok (rollback false)
    else (insert_job_event e (next_job_event_sequence e.job_id t) t >>= λ r. ok (commit true r.1))

unfoldable pub transition_with_event :
    Text → JobState → JobTransitionUpdate → NewEvent → Tables → Result StoreError Bool × Tables
transition_with_event id expected u e t =
    if not (text_eq e.job_id id)
    then (err foreign_event, t)
    else transaction (λ t. update_job id expected u t >>= transitioned e) t

unfoldable pub append_event : NewEvent → Tables → Result StoreError StoredJobEvent × Tables
append_event e t =
    transaction
      (λ t. insert_job_event e (next_job_event_sequence e.job_id t) t >>= λ r. ok (commit r.0 r.1))
      t

-- `ORDER BY sequence`, by insertion.
unfoldable pub insert_by_sequence : StoredJobEvent → List StoredJobEvent → List StoredJobEvent
insert_by_sequence e [] = e ∷ []
insert_by_sequence e (f ∷ fs) =
    let later = f ∷ insert_by_sequence e fs in
    if leb e.sequence f.sequence then e ∷ f ∷ fs else later

unfoldable pub sort_by_sequence : List StoredJobEvent → List StoredJobEvent
sort_by_sequence [] = []
sort_by_sequence (e ∷ es) = insert_by_sequence e (sort_by_sequence es)

abbrev pub of_job : Text → StoredJobEvent → Bool
of_job id e = text_eq e.job_id id

unfoldable pub list_events : Text → Tables → List StoredJobEvent
list_events id t = sort_by_sequence (select (of_job id) t.events)

-- `a < b` on texts, by code units.
unfoldable pub text_ltb : Text → Text → Bool
text_ltb s [] = false
text_ltb [] (d ∷ ds) = true
text_ltb (c ∷ cs) (d ∷ ds) = ltb c d || (c == d && text_ltb cs ds)

-- `ORDER BY created_at, id`
abbrev pub precedes : StoredJob → StoredJob → Bool
precedes a b =
    text_ltb a.created_at b.created_at || (text_eq a.created_at b.created_at && text_ltb a.id b.id)

unfoldable pub insert_by_creation : StoredJob → List StoredJob → List StoredJob
insert_by_creation j [] = j ∷ []
insert_by_creation j (k ∷ ks) =
    let later = k ∷ insert_by_creation j ks in if precedes j k then j ∷ k ∷ ks else later

unfoldable pub sort_by_creation : List StoredJob → List StoredJob
sort_by_creation [] = []
sort_by_creation (j ∷ js) = insert_by_creation j (sort_by_creation js)

unfoldable pub find_non_terminal : Tables → List StoredJob
find_non_terminal t = sort_by_creation (select (λ j. is_active j.state) t.jobs)
