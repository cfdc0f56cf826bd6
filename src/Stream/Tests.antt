-- ===== src/Stream/Tests.antt =====
-- A stream over the tables of a database with one target, in which a model is being created and fails.
use ollama_remote_control.Prelude.{
  ◌≡◌, refl, ◌||◌, true, none, some, List, [], ◌∷◌, length, text_eq, if◌then◌else◌, any,
}
use ollama_remote_control.Modelfile.Chars.{
  Text, codes, trim, trim_start, trim_end, is_space, utf8_bytes,
}
use ollama_remote_control.Jobs.Data.{
  JobState, running, failed, StoredJob, Payload, state_payload, json_payload,
}
use ollama_remote_control.Jobs.Deployments.{SqlFunctions, model_create}
use ollama_remote_control.Jobs.Store.{
  Tables, conflicts, distinct_locks, insert_job, max_sequence, next_job_event_sequence,
  insert_job_event, transaction, create_with_initial_event, find_by_id, update_rows, count_rows,
  update_job, record_deployments, transition_with_event, append_event, list_events,
  sort_by_sequence, insert_by_sequence,
}
use ollama_remote_control.Jobs.Service.{
  CreateJobInput, no_input, new_state_event, create, get, transition_update, transition_from,
  transition, append_to, append_job_event, events, queued_job,
}
use ollama_remote_control.Jobs.Invariant.{WellFormed, empty-WellFormed}
use ollama_remote_control.Jobs.Safety.{
  Call, create_call, transition_call, append_call, call, calls, calls-WellFormed,
}
use ollama_remote_control.Stream.Events.{
  nothing, string_field, PayloadJson, PublicCreateEvent, finished, object_payload, string_or_null,
  public_data_of, public_create_event, deliver, get_create, create_events, round, stream,
}
use ollama_remote_control.Stream.Delivery.{Delivered, stream-delivers}

abbrev sql : SqlFunctions
sql = record {
  json_valid = λ r. true;
  json_type = λ r path. none;
  extract_is_one = λ r path. none;
  extract_text = λ r path. none;
  extract_integer = λ r path. none;
  lower = λ t. t;
  sql_length = length;
}

abbrev empty_tables : Tables
empty_tables = record {
  jobs = [];
  events = [];
  target_ids = codes "t" ∷ [];
  user_ids = codes "u" ∷ [];
  deployments = [];
  revisions = [];
  sql = sql;
}

abbrev input : CreateJobInput
input = record {
  target_id = codes "t";
  actor_user_id = codes "u";
  kind = model_create;
  mutating = true;
}

abbrev first_calls : List Call
first_calls =
    create_call (codes "j") (codes "e1") (codes "1") input
    ∷ transition_call (codes "e2") (codes "2") (codes "j") running no_input
    ∷ []

abbrev later_calls : List Call
later_calls =
    append_call (codes "e3") (codes "3") (codes "j") (codes "progress") (codes "writing")
    ∷ transition_call (codes "e4") (codes "4") (codes "j") failed no_input
    ∷ []

abbrev early : Tables
early = calls first_calls empty_tables

abbrev late : Tables
late = calls later_calls early

abbrev state_text : JobState → Text
state_text failed = codes "failed"
state_text running = codes "running"
state_text _ = codes "queued"

abbrev payload_text : Payload → Text
payload_text (state_payload s i) = state_text s
payload_text (json_payload p) = p

-- A text stands for an object whose members `state` and `status` it is.
abbrev json : PayloadJson
json = record {
  payload_json = payload_text;
  parse_object = λ t. some (λ name.
      if text_eq name (codes "state") || text_eq name (codes "status")
      then string_field t
      else nothing);
}

abbrev failed_job : StoredJob
failed_job = record (queued_job (codes "j") (codes "1") model_create input) {
  state = failed;
  started_at = some (codes "2");
  finished_at = some (codes "4");
}

abbrev written : List PublicCreateEvent
written = (stream json (codes "j") (codes "u") 1 (early ∷ late ∷ [])).0

run_ends : (stream json (codes "j") (codes "u") 1 (early ∷ late ∷ [])).1 ≡ finished failed_job
unfolding calls call create transition get append_job_event append_to transition_from
    transition_update new_state_event create_with_initial_event transition_with_event append_event
    transaction insert_job insert_job_event update_job record_deployments update_rows count_rows
    distinct_locks conflicts max_sequence next_job_event_sequence find_by_id any trim trim_start
    trim_end is_space stream round get_create create_events events list_events sort_by_sequence
    insert_by_sequence deliver public_create_event object_payload public_data_of string_or_null
    utf8_bytes
run_ends = refl

test_written : length written ≡ 3
unfolding run_ends calls call create transition get append_job_event append_to transition_from
    transition_update new_state_event create_with_initial_event transition_with_event append_event
    transaction insert_job insert_job_event update_job record_deployments update_rows count_rows
    distinct_locks conflicts max_sequence next_job_event_sequence find_by_id any trim trim_start
    trim_end is_space stream round get_create create_events events list_events sort_by_sequence
    insert_by_sequence deliver public_create_event object_payload public_data_of string_or_null
    utf8_bytes
test_written = refl

run_is : stream json (codes "j") (codes "u") 1 (early ∷ late ∷ []) ≡ (written, finished failed_job)
run_is = λ i. (written, run_ends i)

early-WellFormed : WellFormed early
early-WellFormed =
    calls-WellFormed first_calls empty_tables
      (empty-WellFormed (codes "t" ∷ []) (codes "u" ∷ []) [] sql)

stream-delivers_example : Delivered json (codes "j") 1 early (late ∷ []) written failed_job
stream-delivers_example =
    stream-delivers json (codes "j") (codes "u") 1 early (late ∷ []) early-WellFormed
      ((later_calls, refl), tt) run_is
