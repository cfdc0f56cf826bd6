-- ===== src/Update/Orchestrator.antt =====
-- `execute` of apps/api/src/update-orchestrator.ts and what it calls, behind `prepare`.
use ollama_remote_control.Prelude.{
  ℕ, Bool, true, false, not, Option, none, some, List, [], ◌∷◌, if◌then◌else◌, text_eq, any,
}
use ollama_remote_control.Modelfile.Chars.{Text, codes}
use ollama_remote_control.Jobs.Data.{failed, unset, put, TransitionInput, StoredJobEvent}
use ollama_remote_control.Jobs.Service.{
  JobError, invalid_job, job_conflict, job_create_failed, job_not_found, job_state_conflict,
  invalid_job_result, invalid_job_event, store_error,
}
use ollama_remote_control.Update.Effects.{
  StoredTarget, Action, pure, throw, gets, ◌>>=◌, ◌>>◌, quietly,
}
use ollama_remote_control.Update.Stores.{
  FailureDescriptor, Thrown, orchestrator_error, health_error, job_error, reconstruct_error,
  replacement_error, ssh_error, other_error, Supply, transition_job, append_to_job, find_target,
  rebind_container, AuditRecordInput, record_audit,
}

-- `ComposeSnapshotContext` of packages/docker/src/reconstruct.ts.
pub record ComposeSnapshotContext : Type 0 where
  pub project_name : Text
  pub service : Text
  pub working_directory : Text
  pub config_files : List Text
  pub environment_files : List Text

pub data ComposeImageSource : Type 0 where
  pull_exact local_only : ComposeImageSource

-- `ComposeReplacementResult`: the fields that are read.
pub record ReplacementResult : Type 0 where
  pub image_id : Text
  pub container_id : Text

-- `OllamaHealthResult`: the fields that are read.
pub record HealthResult : Type 0 where
  pub healthy : Bool
  pub api_version : Text

-- `UpdateRemoteOperations`. While one of them waits, other requests may write to the stores.
pub record RemoteOperations (R : Type 0) : Type 0 where
  pub validate_compose : ComposeSnapshotContext → Text → Action R Thrown (Unit {0})
  pub replace :
      ComposeSnapshotContext → Text → Text → ComposeImageSource → Action R Thrown ReplacementResult
  pub resolve_compose_container : ComposeSnapshotContext → Action R Thrown Text
  pub health : Text → Text → Action R Thrown HealthResult

-- `PreparedUpdate` with the fields of the intent that `execute` reads.
pub record PreparedUpdate : Type 0 where
  pub target_id : Text
  pub host_id : Text
  pub intent_id : Text
  pub snapshot_id : Text
  pub current_digest : Text
  pub candidate_digest : Text
  pub exact_candidate_reference : Text
  pub old_container_id : Text
  pub rollback_image_reference : Text
  pub compose : ComposeSnapshotContext

pub record UpdateSuccess : Type 0 where
  pub job_id : Text
  pub intent_id : Text
  pub snapshot_id : Text
  pub previous_container_id : Text
  pub container_id : Text
  pub candidate_digest : Text

abbrev pub descriptor : Text → ℕ → FailureDescriptor
descriptor code status = record { code = code; status_code = status }

abbrev pub update_failed : FailureDescriptor
update_failed = descriptor (codes "UPDATE_FAILED") 500

-- The code and the status that `JobService` throws with.
abbrev job_failure : JobError → FailureDescriptor
job_failure invalid_job = descriptor (codes "INVALID_JOB") 400
job_failure job_conflict = descriptor (codes "JOB_CONFLICT") 409
job_failure job_create_failed = descriptor (codes "JOB_CREATE_FAILED") 500
job_failure job_not_found = descriptor (codes "JOB_NOT_FOUND") 404
job_failure job_state_conflict = descriptor (codes "JOB_STATE_CONFLICT") 409
job_failure invalid_job_result = descriptor (codes "INVALID_JOB_RESULT") 400
job_failure invalid_job_event = descriptor (codes "INVALID_JOB_EVENT") 400
job_failure (store_error e) = update_failed

abbrev has_code : Text → List Text → Bool
has_code code known = any (text_eq code) known

unfoldable pub classify_failure : Thrown → FailureDescriptor
classify_failure (orchestrator_error f) = f
classify_failure (health_error f) = f
classify_failure (job_error e) = job_failure e
classify_failure (reconstruct_error code) =
    descriptor code (if text_eq code (codes "COMPOSE_UNAVAILABLE") then 422 else 409)
classify_failure (replacement_error code) = descriptor code (
    if has_code code (
      codes "INVALID_CONTAINER_ID"
      ∷ codes "INVALID_IMAGE_REFERENCE"
      ∷ codes "COMPOSE_CONTEXT_CHANGED"
      ∷ [])
    then 409
    else 502)
classify_failure (ssh_error code) = descriptor code (
    if text_eq code (codes "SSH_HOST_KEY_MISMATCH")
    then 409
    else if text_eq code (codes "AUTH_FAILED")
    then 422
    else 502)
classify_failure other_error = update_failed

abbrev pub rollback_failed_code : Text
rollback_failed_code = codes "UPDATE_FAILED_ROLLBACK_FAILED"

abbrev pub rollback_succeeded_code : Text
rollback_succeeded_code = codes "UPDATE_FAILED_ROLLBACK_SUCCEEDED"

-- `forwardAttempted` and `candidateContainerId` when an error is thrown.
pub record Progress : Type 0 where
  pub forward_attempted : Bool
  pub candidate_container_id : Option Text

abbrev pub untouched : Progress
untouched = record { forward_attempted = false; candidate_container_id = none }

abbrev pub attempted : Option Text → Progress
attempted candidate = record { forward_attempted = true; candidate_container_id = candidate }

module _ {R : Type 0} (s : Supply) (remote : RemoteOperations R) (p : PreparedUpdate)
    (actor : Text) where
  -- `this.event(jobId, stage, payload)`
  abbrev pub event : Text → Text → List (Text × Text) → Action R Thrown StoredJobEvent
  event id stage payload =
      append_to_job s id (codes "stage") (s.stringify ((codes "stage", stage) ∷ payload))

  abbrev pub ending : List (Text × Text) → Text → TransitionInput
  ending result code = record {
    result = put (s.stringify result);
    error_class = put code;
    exit_code = unset;
  }

  abbrev pub audit_input : Text → List (Text × Text) → Text → Option Text → Text → AuditRecordInput
  audit_input action parameters result error_class id = record {
    actor_user_id = actor;
    host_id = some p.host_id;
    target_id = some p.target_id;
    action = action;
    parameters_redacted_json = s.stringify parameters;
    result = result;
    error_class = error_class;
    job_id = some id;
  }

  abbrev pub plan_fields : List (Text × Text)
  plan_fields = (codes "intentId", p.intent_id) ∷ (codes "snapshotId", p.snapshot_id) ∷ []

  abbrev pub rebind_current : List Text → Text → Option StoredTarget → Action R Thrown Bool
  rebind_current allowed next none = pure false
  rebind_current allowed next (some current) =
      if not current.enabled
      then pure false
      else if text_eq current.selected_container_id next
      then pure true
      else if not (has_code current.selected_container_id allowed)
      then pure false
      else (gets (λ w. s.clock w.draws) >>= λ now.
          rebind_container p.target_id current.selected_container_id next now)

  -- `rebindKnown`
  unfoldable pub rebind_known : List Text → Text → Action R Thrown Bool
  rebind_known allowed next = gets (λ w. find_target p.target_id w.targets) >>= λ current.
      rebind_current allowed next current

  -- `failWithoutRollback`
  unfoldable pub fail_without_rollback : {A : Type 0} → Text → FailureDescriptor → Action R Thrown A
  fail_without_rollback id failure =
      quietly (
        transition_job s id failed (
          ending
            ((codes "outcome", codes "failed_before_replacement")
              ∷ (codes "intentId", p.intent_id)
              ∷ (codes "snapshotId", p.snapshot_id)
              ∷ (codes "causeClass", failure.code)
              ∷ (codes "containerId", p.old_container_id)
              ∷ [])
            failure.code))
      >> quietly (
          record_audit s (
            audit_input (codes "container.update.failed") plan_fields (codes "failed")
              (some failure.code) id))
      >> throw (orchestrator_error failure)
