-- ===== src/Jobs/Service.antt =====
-- `JobService` of apps/api/src/jobs.ts. `randomUUID()` and `now().toISOString()` are arguments; an
-- operation returns its result, or the error that it throws, with the tables that it leaves.
use ollama_remote_control.Prelude.{
  Bool, true, false, not, ◌&&◌, ◌||◌, Option, none, some, List, [], ◌∷◌, ltb, if◌then◌else◌, length,
  Result, ok, err,
}
use ollama_remote_control.Modelfile.Chars.{Text, codes, trim, is_empty}
use ollama_remote_control.Jobs.Data.{
  JobState, queued, running, cancelling, succeeded, failed, cancelled, same_state, Update, unset,
  clear, put, StoredJob, TransitionInput, state_payload, json_payload, NewEvent, StoredJobEvent,
  JobTransitionUpdate, StoreError,
}
use ollama_remote_control.Jobs.Store.{
  Tables, create_with_initial_event, find_by_id, transition_with_event, append_event, list_events,
  find_non_terminal,
}

-- The codes of `JobServiceError`; an error of the repository passes through.
pub data JobError : Type 0 where
  invalid_job job_conflict job_create_failed job_not_found job_state_conflict : JobError
  invalid_job_result invalid_job_event : JobError
  store_error : StoreError → JobError

pub record CreateJobInput : Type 0 where
  pub target_id : Text
  pub actor_user_id : Text
  pub kind : Text
  pub mutating : Bool

-- `TERMINAL_STATES.has(state)`
abbrev pub is_terminal : JobState → Bool
is_terminal succeeded = true
is_terminal failed = true
is_terminal cancelled = true
is_terminal _ = false

-- `TRANSITIONS[state]`
abbrev pub transitions : JobState → List JobState
transitions queued = running ∷ failed ∷ cancelled ∷ []
transitions running = succeeded ∷ failed ∷ cancelling ∷ []
transitions cancelling = cancelled ∷ failed ∷ []
transitions _ = []

-- `TRANSITIONS[state].includes(next)`
abbrev pub includes_state : List JobState → JobState → Bool
includes_state [] next = false
includes_state (s ∷ ss) next = same_state s next || includes_state ss next

abbrev pub may_become : JobState → JobState → Bool
may_become state next = includes_state (transitions state) next

unfoldable pub new_state_event : Text → Text → JobState → Text → TransitionInput → NewEvent
new_state_event uuid job_id state timestamp input = record {
  id = uuid;
  job_id = job_id;
  event_type = codes "state";
  payload = state_payload state input;
  created_at = timestamp;
}

abbrev pub no_input : TransitionInput
no_input = record { result = unset; error_class = unset; exit_code = unset }

abbrev pub queued_job : Text → Text → Text → CreateJobInput → StoredJob
queued_job uuid timestamp kind input = record {
  id = uuid;
  target_id = input.target_id;
  actor_user_id = input.actor_user_id;
  kind = kind;
  mutating = input.mutating;
  state = queued;
  created_at = timestamp;
  started_at = none;
  finished_at = none;
  result_json = none;
  error_class = none;
  exit_code = none;
}

abbrev create_result :
    Bool → StoredJob → Result StoreError Bool × Tables → Result JobError StoredJob × Tables
create_result mutating job (ok true, t) = (ok job, t)
create_result mutating job (ok false, t) =
    (err (if mutating then job_conflict else job_create_failed), t)
create_result mutating job (err e, t) = (err (store_error e), t)

unfoldable pub create :
    Text → Text → Text → CreateJobInput → Tables → Result JobError StoredJob × Tables
create job_uuid event_uuid timestamp input t =
    let kind = trim input.kind in
    let job = queued_job job_uuid timestamp kind input in
    if is_empty kind || ltb 120 (length kind)
    then (err invalid_job, t)
    else create_result input.mutating job (
        create_with_initial_event job
          (new_state_event event_uuid job_uuid queued timestamp no_input) t)

abbrev found_or_error : Option StoredJob → Result JobError StoredJob
found_or_error none = err job_not_found
found_or_error (some job) = ok job

unfoldable pub get : Text → Tables → Result JobError StoredJob
get id t = found_or_error (find_by_id id t)

-- `value === undefined ? current : value`
abbrev pub updated : {A : Type 0} → Update A → Option A → Option A
updated unset current = current
updated clear current = none
updated (put a) current = some a

-- `input.errorClass` as a condition: the empty text does not count.
abbrev pub is_truthy : Update Text → Bool
is_truthy (put t) = not (is_empty t)
is_truthy _ = false

abbrev pub or_now : Option Text → Text → Text
or_now (some t) now = t
or_now none now = now

unfoldable pub transition_update :
    StoredJob → JobState → TransitionInput → Text → JobTransitionUpdate
transition_update current next input timestamp = record {
  state = next;
  started_at =
      if same_state next running
      then some (or_now current.started_at timestamp)
      else current.started_at;
  finished_at = if is_terminal next then some timestamp else none;
  result_json = updated input.result current.result_json;
  error_class = updated input.error_class current.error_class;
  exit_code = updated input.exit_code current.exit_code;
}

abbrev changed_result : Text → Result StoreError Bool × Tables → Result JobError StoredJob × Tables
changed_result id (ok true, t) = (get id t, t)
changed_result id (ok false, t) = (err job_state_conflict, t)
changed_result id (err e, t) = (err (store_error e), t)

-- `transition` behind `get`.
unfoldable pub transition_from :
    Text
    → Text
    → Text
    → StoredJob
    → JobState
    → TransitionInput
    → Tables
    → Result JobError StoredJob × Tables
transition_from event_uuid timestamp id current next input t =
    if not (may_become current.state next)
    then (err job_state_conflict, t)
    else if same_state next succeeded && is_truthy input.error_class
    then (err invalid_job_result, t)
    else changed_result id (
        transition_with_event id current.state (transition_update current next input timestamp)
          (new_state_event event_uuid id next timestamp input) t)

unfoldable pub transition :
    Text → Text → Text → JobState → TransitionInput → Tables → Result JobError StoredJob × Tables
transition event_uuid timestamp id next input t = elim (get id t) [
  | ok current ↦ transition_from event_uuid timestamp id current next input t
  | err e ↦ (err e, t)
]

abbrev appended_result :
    Result StoreError StoredJobEvent × Tables → Result JobError StoredJobEvent × Tables
appended_result (ok e, t) = (ok e, t)
appended_result (err e, t) = (err (store_error e), t)

abbrev pub new_payload_event : Text → Text → Text → Text → Text → NewEvent
new_payload_event event_uuid timestamp id event_type payload_json = record {
  id = event_uuid;
  job_id = id;
  event_type = event_type;
  payload = json_payload payload_json;
  created_at = timestamp;
}

-- `appendEvent` behind `get`.
unfoldable pub append_to :
    Text → Text → Text → Text → Text → Tables → Result JobError StoredJobEvent × Tables
append_to event_uuid timestamp id event_type payload_json t =
    let normalized = trim event_type in
    if is_empty normalized || ltb 80 (length normalized)
    then (err invalid_job_event, t)
    else appended_result
        (append_event (new_payload_event event_uuid timestamp id normalized payload_json) t)

unfoldable pub append_job_event :
    Text → Text → Text → Text → Text → Tables → Result JobError StoredJobEvent × Tables
append_job_event event_uuid timestamp id event_type payload_json t = elim (get id t) [
  | ok current ↦ append_to event_uuid timestamp id event_type payload_json t
  | err e ↦ (err e, t)
]

unfoldable pub events : Text → Tables → Result JobError (List StoredJobEvent)
events id t = elim (get id t) [ ok job ↦ ok (list_events id t) | err e ↦ err e ]

unfoldable pub jobs_needing_reconciliation : Tables → List StoredJob
jobs_needing_reconciliation = find_non_terminal
