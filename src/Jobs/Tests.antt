-- ===== src/Jobs/Tests.antt =====
-- Runs of the service on small tables: a database with one target and one user.
use ollama_remote_control.Prelude.{
  ◌≡◌, refl, Bool, true, false, ◌&&◌, ◌||◌, Option, none, some, List, [], ◌∷◌, any, select, Result,
  ok, err, if◌then◌else◌, ◌≢◌, ◌⊎◌, length, text_eq, arith,
}
use ollama_remote_control.Modelfile.Chars.{Text, codes, trim, trim_start, trim_end, is_space}
use ollama_remote_control.Jobs.Data.{
  running, succeeded, put, StoredJob, queued, StoredJobEvent, TransitionInput, StoreError,
  missing_column, same_state,
}
use ollama_remote_control.Jobs.Deployments.{
  SqlFunctions, natural, Revision, Deployment, model_create, result_incomplete, deployment_of,
  meets_checks, insert_deployment, record_deployment,
}
use ollama_remote_control.Jobs.Store.{
  record_deployments, Tables, locks, conflicts, distinct_locks, insert_job, max_sequence,
  next_job_event_sequence, insert_job_event, transaction, create_with_initial_event, find_by_id,
  update_rows, count_rows, update_job, transition_with_event, append_event, apply_update, of_job,
  has_id,
}
use ollama_remote_control.Jobs.Service.{
  JobError, store_error, job_conflict, invalid_job_result, CreateJobInput, no_input,
  new_state_event, create, get, transition_update, transition_from, transition, append_to,
  append_job_event, events, queued_job, may_become, new_payload_event,
}
use ollama_remote_control.Jobs.Invariant.{WellFormed, empty-WellFormed}
use ollama_remote_control.Jobs.Safety.{
  Call, create_call, transition_call, append_call, call, calls, calls-WellFormed, create-cases,
  transition-cases, append-cases,
}
use ollama_remote_control.Jobs.Locks.{is_unfinished, create-decides}
use ollama_remote_control.Jobs.Final.{calls-keep_terminal}
use ollama_remote_control.Jobs.Advance.{transition-advances}
use ollama_remote_control.Jobs.Recorded.{Evidenced, calls-Evidenced}
use ollama_remote_control.Jobs.History.{events-history, sequences, numbers_from}
use ollama_remote_control.Jobs.Outcomes.{row, with_job, with_event, moved_tables, Records}

abbrev target : Text
target = codes "t"

abbrev user : Text
user = codes "u"

abbrev hash : Text
hash = codes "0123456789abcdef0123456789abcdef0123456789abcdef0123456789abcdef"

abbrev size_path : Text
size_path = codes "$.sizeBytes"

-- Functions of SQLite on results of one letter: `v` stands for a complete result that says `verified`, `m` for
-- one without that member, and other texts for results without members.
abbrev has_members : Text → Bool
has_members r = text_eq r (codes "v") || text_eq r (codes "m")

abbrev member_type : Text → Option Text
member_type path = if text_eq path size_path then some (codes "integer") else some (codes "text")

abbrev member_text : Text → Text
member_text path =
    if text_eq path (codes "$.revisionSha256") || text_eq path (codes "$.digest")
    then hash
    else if text_eq path (codes "$.modelfileId")
    then codes "mf"
    else if text_eq path (codes "$.revisionId")
    then codes "rev"
    else codes "llama"

abbrev sql : SqlFunctions
sql = record {
  json_valid = λ r. true;
  json_type = λ r path. if has_members r then member_type path else none;
  extract_is_one = λ r path. if text_eq r (codes "v") then some true else none;
  extract_text = λ r path. if has_members r then some (member_text path) else none;
  extract_integer = λ r path. if has_members r then some (natural 7) else none;
  lower = λ t. t;
  sql_length = length;
}

abbrev revisions : List Revision
revisions = record { id = codes "rev"; modelfile_id = codes "mf"; content_sha256 = hash } ∷ []

abbrev empty_tables : Tables
empty_tables = record {
  jobs = [];
  events = [];
  target_ids = target ∷ [];
  user_ids = user ∷ [];
  deployments = [];
  revisions = revisions;
  sql = sql;
}

empty_tables-WellFormed : WellFormed empty_tables
empty_tables-WellFormed = empty-WellFormed (target ∷ []) (user ∷ []) revisions sql

abbrev pull : CreateJobInput
pull = record { target_id = target; actor_user_id = user; kind = codes " pull "; mutating = true }

abbrev start : Call
start = transition_call (codes "e2") (codes "10:01") (codes "j1") running no_input

abbrev progress : Call
progress = append_call (codes "e3") (codes "10:02") (codes "j1") (codes "progress") (codes "{}")

abbrev finish : Call
finish = transition_call (codes "e4") (codes "10:03") (codes "j1") succeeded no_input

abbrev create_first : Call
create_first = create_call (codes "j1") (codes "e1") (codes "10:00") pull

abbrev create_second : Call
create_second = create_call (codes "j2") (codes "e5") (codes "10:04") pull

-- The names that a call of the service computes through.
unfoldable run : List Call → Tables
unfolding calls call create transition get append_job_event append_to transition_from
    transition_update new_state_event create_with_initial_event transition_with_event append_event
    transaction insert_job insert_job_event update_job record_deployments record_deployment
    result_incomplete deployment_of meets_checks insert_deployment update_rows count_rows
    distinct_locks conflicts max_sequence next_job_event_sequence find_by_id any
run cs = calls cs empty_tables

abbrev first_job : StoredJob
first_job = queued_job (codes "j1") (codes "10:00") (codes "pull") pull

abbrev finished_job : StoredJob
finished_job = record first_job {
  state = succeeded;
  started_at = some (codes "10:01");
  finished_at = some (codes "10:03");
}

test_full_run :
    find_by_id (codes "j1") (run (create_first ∷ start ∷ progress ∷ finish ∷ []))
    ≡ some finished_job
unfolding run trim_start trim_end trim is_space
test_full_run = refl

-- A second mutating job of the target is refused while the first is active, and accepted afterwards.
test_refused_while_active :
    (create (codes "j2") (codes "e5") (codes "10:04") pull (run (create_first ∷ start ∷ []))).0
    ≡ err job_conflict
unfolding run trim_start trim_end trim is_space create create_with_initial_event transaction
    insert_job conflicts new_state_event any
test_refused_while_active = refl

test_accepted_afterwards :
    count_rows (locks target) (run (create_first ∷ start ∷ finish ∷ create_second ∷ [])).jobs ≡ 1
unfolding run trim_start trim_end trim is_space
test_accepted_afterwards = refl

test_error_class_on_success :
    (transition
      (codes "e9")
      (codes "10:03")
      (codes "j1")
      succeeded
      (record no_input { error_class = put (codes "E") })
      (run (create_first ∷ start ∷ []))).0
    ≡ err invalid_job_result
unfolding run trim_start trim_end trim is_space transition transition_from get find_by_id
test_error_class_on_success = refl

calls-WellFormed_example :
    WellFormed (calls (create_first ∷ start ∷ progress ∷ finish ∷ []) empty_tables)
calls-WellFormed_example =
    calls-WellFormed (create_first ∷ start ∷ progress ∷ finish ∷ []) empty_tables
      empty_tables-WellFormed

abbrev started : Tables
started = calls (create_first ∷ start ∷ []) empty_tables

started-WellFormed : WellFormed started
started-WellFormed =
    calls-WellFormed (create_first ∷ start ∷ []) empty_tables empty_tables-WellFormed

create-decides_example : (create (codes "j2") (codes "e5") (codes "10:04") pull started).0 ≡ (
    if pull.mutating && any (is_unfinished pull.target_id) started.jobs
    then err job_conflict
    else ok (queued_job (codes "j2") (codes "10:04") (trim pull.kind) pull))
unfolding run trim_start trim_end trim is_space
create-decides_example =
    create-decides (codes "j2") (codes "e5") (codes "10:04") pull started started-WellFormed refl
      refl refl refl refl refl

abbrev running_job : StoredJob
running_job = record first_job { state = running; started_at = some (codes "10:01") }

abbrev make_model : CreateJobInput
make_model = record {
  target_id = target;
  actor_user_id = user;
  kind = model_create;
  mutating = true;
}

abbrev started_model : Tables
started_model =
    calls (create_call (codes "j1") (codes "e1") (codes "10:00") make_model ∷ start ∷ [])
      empty_tables

started_model-WellFormed : WellFormed started_model
started_model-WellFormed =
    calls-WellFormed (create_call (codes "j1") (codes "e1") (codes "10:00") make_model ∷ start ∷ [])
      empty_tables empty_tables-WellFormed

abbrev running_model : StoredJob
running_model = record (queued_job (codes "j1") (codes "10:00") model_create make_model) {
  state = running;
  started_at = some (codes "10:01");
}

abbrev result_of : Text → TransitionInput
result_of r = record no_input { result = put r }

-- A model that is created with a complete result leaves a deployment.
transition-advances_example :
    let t = started_model in
    let input = result_of (codes "v") in
    let r = transition (codes "e4") (codes "10:03") (codes "j1") succeeded input t in
    let u = transition_update running_model succeeded input (codes "10:03") in
    let moved = apply_update u running_model in
    let trigger =
      if text_eq running_model.kind model_create && same_state succeeded succeeded
      then record_deployment t.sql t.revisions
          (update_rows (codes "j1") running u t.jobs)
          t.deployments
          moved
      else ok t.deployments in
    ((error : StoreError) × (trigger ≡ err error) × (r ≡ (err (store_error error), t)))
    ⊎ ((ds : List Deployment) × (trigger ≡ ok ds)
        × (r.0 ≡ ok moved)
        × (find_by_id (codes "j1") r.1 ≡ some moved)
        × (r.1.deployments ≡ ds))
unfolding run trim_start trim_end trim is_space
transition-advances_example =
    transition-advances (codes "e4") (codes "10:03") (codes "j1") succeeded (result_of (codes "v"))
      started_model running_model started_model-WellFormed refl refl refl refl

abbrev result_answer : Text → Result JobError StoredJob × Tables
result_answer r =
    transition (codes "e4") (codes "10:03") (codes "j1") succeeded (result_of r) started_model

test_verified_result : length (result_answer (codes "v")).1.deployments ≡ 1
unfolding run trim_start trim_end trim is_space transition
test_verified_result = refl

-- A result without `verified` passes the trigger too: the comparison is NULL.
test_unverified_result : length (result_answer (codes "m")).1.deployments ≡ 1
unfolding run trim_start trim_end trim is_space transition
test_unverified_result = refl

test_incomplete_result : (result_answer (codes "{}")).0 ≡ err (store_error missing_column)
unfolding run trim_start trim_end trim is_space transition
test_incomplete_result = refl

abbrev finished : Tables
finished = calls (create_first ∷ start ∷ finish ∷ []) empty_tables

calls-keep_terminal_example :
    find_by_id (codes "j1") (calls (create_second ∷ start ∷ []) finished) ≡ some finished_job
unfolding run trim_start trim_end trim is_space
calls-keep_terminal_example =
    calls-keep_terminal (create_second ∷ start ∷ []) (codes "j1") finished_job finished refl refl

events-history_example :
    let own =
      select
        (of_job (codes "j1"))
        (calls (create_first ∷ start ∷ finish ∷ []) empty_tables).events in
    (events (codes "j1") (calls (create_first ∷ start ∷ finish ∷ []) empty_tables) ≡ ok own)
    × (sequences own ≡ numbers_from 1 own)
unfolding run trim_start trim_end trim is_space
events-history_example =
    events-history (create_first ∷ start ∷ finish ∷ []) empty_tables (codes "j1") finished_job
      empty_tables-WellFormed refl

create-cases_example :
    let r = create (codes "j1") (codes "e1") (codes "10:00") pull empty_tables in
    let job = queued_job (codes "j1") (codes "10:00") (trim pull.kind) pull in
    ((r.1 ≡ empty_tables) × ((j : StoredJob) → r.0 ≢ ok j))
    ⊎ ((r.0 ≡ ok job)
        × (r.1
            ≡ with_job job
                (new_state_event (codes "e1") (codes "j1") queued (codes "10:00") no_input)
                empty_tables)
        × (conflicts job empty_tables.jobs ≡ false))
create-cases_example = create-cases (codes "j1") (codes "e1") (codes "10:00") pull empty_tables

transition-cases_example :
    let r = transition (codes "e4") (codes "10:03") (codes "j1") succeeded no_input started in
    ((r.1 ≡ started) × ((j : StoredJob) → r.0 ≢ ok j))
    ⊎ ((current : StoredJob) × (ds : List Deployment) × (find_by_id (codes "j1") started
          ≡ some current)
        × Records
            (codes "j1")
            current.state
            (transition_update current succeeded no_input (codes "10:03"))
            started
            ds
        × (r.0 ≡ get (codes "j1") r.1)
        × (r.1
            ≡ with_event
                (new_state_event (codes "e4") (codes "j1") succeeded (codes "10:03") no_input)
                (moved_tables
                  (codes "j1")
                  current.state
                  (transition_update current succeeded no_input (codes "10:03"))
                  ds
                  started))
        × (may_become current.state succeeded ≡ true)
        × (any (has_id (codes "j1")) (
              update_rows
                (codes "j1")
                current.state
                (transition_update current succeeded no_input (codes "10:03"))
                started.jobs)
            ≡ true))
transition-cases_example =
    transition-cases (codes "e4") (codes "10:03") (codes "j1") succeeded no_input started

append-cases_example :
    let r =
      append_job_event
        (codes "e3")
        (codes "10:02")
        (codes "j1")
        (codes "progress")
        (codes "{}")
        started in
    let e =
      new_payload_event
        (codes "e3")
        (codes "10:02")
        (codes "j1")
        (trim (codes "progress"))
        (codes "{}") in
    ((r.1 ≡ started) × ((s : StoredJobEvent) → r.0 ≢ ok s))
    ⊎ ((r.0 ≡ ok (row e (next_job_event_sequence (codes "j1") started)))
        × (r.1 ≡ with_event e started)
        × (any (has_id (codes "j1")) started.jobs ≡ true))
append-cases_example =
    append-cases (codes "e3") (codes "10:02") (codes "j1") (codes "progress") (codes "{}") started

started_model-Evidenced : Evidenced started_model
unfolding run trim_start trim_end trim is_space
started_model-Evidenced id j found kind ended = ground arith

-- The job that created a model has its deployment.
calls-Evidenced_example : Evidenced (
    calls
      (transition_call (codes "e4") (codes "10:03") (codes "j1") succeeded (result_of (codes "v"))
        ∷ create_second
        ∷ [])
      started_model)
calls-Evidenced_example =
    calls-Evidenced
      (transition_call (codes "e4") (codes "10:03") (codes "j1") succeeded (result_of (codes "v"))
        ∷ create_second
        ∷ [])
      started_model started_model-WellFormed started_model-Evidenced
