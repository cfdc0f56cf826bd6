-- ===== src/Jobs/Data.antt =====
-- The records of packages/core/src/index.ts that jobs are made of. Identifiers and timestamps are
-- texts; a result is kept as its JSON text.
use ollama_remote_control.Prelude.{ℕ, Bool, true, false, Option}
use ollama_remote_control.Modelfile.Chars.{Text}

pub data JobState : Type 0 where
  queued running cancelling succeeded failed cancelled : JobState

pub JobState-discrete : Discrete JobState
JobState-discrete = hlevel

abbrev pub same_state : JobState → JobState → Bool
same_state queued queued = true
same_state running running = true
same_state cancelling cancelling = true
same_state succeeded succeeded = true
same_state failed failed = true
same_state cancelled cancelled = true
same_state _ _ = false

-- `input.field === undefined`, `null`, or a value.
pub data Update (A : Type 0) : Type 0 where
  unset : Update A
  clear : Update A
  put : A → Update A

pub record StoredJob : Type 0 where
  pub id : Text
  pub target_id : Text
  pub actor_user_id : Text
  pub kind : Text
  pub mutating : Bool
  pub state : JobState
  pub created_at : Text
  pub started_at : Option Text
  pub finished_at : Option Text
  pub result_json : Option Text
  pub error_class : Option Text
  pub exit_code : Option ℕ

-- The optional parts of a transition, `TransitionJobInput` of apps/api/src/jobs.ts.
pub record TransitionInput : Type 0 where
  pub result : Update Text
  pub error_class : Update Text
  pub exit_code : Update ℕ

-- The payload of an event: what `eventPayload` of apps/api/src/jobs.ts serialises, or a JSON text.
pub data Payload : Type 0 where
  state_payload : JobState → TransitionInput → Payload
  json_payload : Text → Payload

-- `Omit<StoredJobEvent, 'sequence'>`
pub record NewEvent : Type 0 where
  pub id : Text
  pub job_id : Text
  pub event_type : Text
  pub payload : Payload
  pub created_at : Text

pub record StoredJobEvent : Type 0 where
  pub event : NewEvent
  pub open event use {id, job_id, event_type, payload, created_at}
  pub sequence : ℕ

pub record JobTransitionUpdate : Type 0 where
  pub state : JobState
  pub started_at : Option Text
  pub finished_at : Option Text
  pub result_json : Option Text
  pub error_class : Option Text
  pub exit_code : Option ℕ

-- What a statement, its trigger, or the check in front of a transaction throws.
pub data StoreError : Type 0 where
  foreign_event foreign_key unique_event unique_job : StoreError
  incomplete_evidence missing_column unknown_revision unverified_source : StoreError
  failed_check unique_deployment : StoreError
