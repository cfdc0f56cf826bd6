-- ===== src/Update/Execute.antt =====
-- `execute` of apps/api/src/update-orchestrator.ts, behind `prepare`: the way forward, and the way back.
pub mod Alive
pub mod Steps
pub mod Start
pub mod Ending
pub mod Trust
pub mod Binding
pub mod Serving
pub mod Served
use ollama_remote_control.Prelude.{
  ℕ, Bool, true, false, not, Option, none, some, List, [], ◌∷◌, if◌then◌else◌, text_eq,
}
use ollama_remote_control.Modelfile.Chars.{Text, codes}
use ollama_remote_control.Jobs.Data.{
  running, succeeded, failed, put, unset, TransitionInput, StoredJob,
}
use ollama_remote_control.Jobs.Service.{CreateJobInput, no_input}
use ollama_remote_control.Update.Effects.{
  Action, pure, throw, ◌>>=◌, ◌>>◌, catch, quietly, with_progress, assert,
}
use ollama_remote_control.Update.Stores.{
  FailureDescriptor, Thrown, orchestrator_error, health_error, job_error, reconstruct_error,
  replacement_error, ssh_error, other_error, Supply, create_job, transition_job, record_audit,
}
use ollama_remote_control.Update.Orchestrator.{
  RemoteOperations, pull_exact, local_only, ReplacementResult, HealthResult, PreparedUpdate,
  UpdateSuccess, descriptor, classify_failure, rollback_failed_code, rollback_succeeded_code,
  Progress, untouched, attempted, event, ending, audit_input, plan_fields, rebind_known,
  fail_without_rollback,
}

-- `rollbackError instanceof UpdateOrchestratorError && rollbackError.code === …`
abbrev pub is_restored : Thrown → Bool
is_restored (orchestrator_error f) = text_eq f.code rollback_succeeded_code
is_restored (health_error f) = false
is_restored (job_error e) = false
is_restored (reconstruct_error c) = false
is_restored (replacement_error c) = false
is_restored (ssh_error c) = false
is_restored other_error = false

module _ {R : Type 0} (s : Supply) (remote : RemoteOperations R) (p : PreparedUpdate)
    (actor : Text) where
  abbrev stage : Text → Text → List (Text × Text) → Action R Thrown (Unit {0})
  stage id name payload = event s remote p actor id name payload >> pure tt

  abbrev conflict : Text → Thrown
  conflict code = orchestrator_error (descriptor code 409)

  abbrev degraded : Text → Thrown
  degraded code = orchestrator_error (descriptor code 502)

  -- The part of the `try` in front of `forwardAttempted = true`.
  unfoldable pub revalidate : Text → Action R Thrown (Unit {0})
  revalidate id = do
    record_audit s (
        audit_input s remote p actor (codes "container.update.requested")
          ((codes "intentId", p.intent_id)
            ∷ (codes "snapshotId", p.snapshot_id)
            ∷ (codes "currentDigest", p.current_digest)
            ∷ (codes "candidateDigest", p.candidate_digest)
            ∷ [])
          (codes "requested") none id)
    stage id (codes "lock_acquired") ((codes "intentId", p.intent_id) ∷ [])
    remote.validate_compose p.compose p.old_container_id
    stage id (codes "compose_revalidated") ((codes "containerId", p.old_container_id) ∷ [])

  -- The part up to `candidateContainerId = replacement.containerId`.
  unfoldable pub replace_forward : Text → Action R Thrown ReplacementResult
  replace_forward id = do
    stage id (codes "forward_started") ((codes "candidateDigest", p.candidate_digest) ∷ [])
    remote.replace p.compose p.exact_candidate_reference p.old_container_id pull_exact

  abbrev pub success : Text → Text → UpdateSuccess
  success id container_id = record {
    job_id = id;
    intent_id = p.intent_id;
    snapshot_id = p.snapshot_id;
    previous_container_id = p.old_container_id;
    container_id = container_id;
    candidate_digest = p.candidate_digest;
  }

  abbrev success_fields : Text → Text → List (Text × Text)
  success_fields id container_id =
      (codes "jobId", id)
      ∷ (codes "outcome", codes "updated")
      ∷ (codes "intentId", p.intent_id)
      ∷ (codes "snapshotId", p.snapshot_id)
      ∷ (codes "previousContainerId", p.old_container_id)
      ∷ (codes "containerId", container_id)
      ∷ (codes "candidateDigest", p.candidate_digest)
      ∷ []

  abbrev success_input : Text → Text → TransitionInput
  success_input id container_id = record {
    result = put (s.stringify (success_fields id container_id));
    error_class = unset;
    exit_code = unset;
  }

  -- The part up to the last event: the binding is moved and the candidate is verified.
  unfoldable pub adopt : Text → ReplacementResult → Action R Thrown (Unit {0})
  adopt id r = do
    stage id (codes "replacement_created")
        ((codes "containerId", r.container_id) ∷ (codes "imageId", r.image_id) ∷ [])
    rebound ← rebind_known s remote p actor (p.old_container_id ∷ []) r.container_id
    assert rebound (conflict (codes "TARGET_REBIND_FAILED"))
    stage id (codes "binding_rebound")
        ((codes "fromContainerId", p.old_container_id) ∷ (codes "containerId", r.container_id) ∷ [])
    health ← remote.health p.target_id r.container_id
    assert health.healthy (degraded (codes "CANDIDATE_HEALTH_DEGRADED"))
    stage id (codes "health_verified")
        ((codes "containerId", r.container_id) ∷ (codes "version", health.api_version) ∷ [])

  -- The rest of the `try`.
  unfoldable pub conclude : Text → ReplacementResult → Action R Thrown UpdateSuccess
  conclude id r = do
    transition_job s id succeeded (success_input id r.container_id)
    quietly (
        record_audit s (
          audit_input s remote p actor (codes "container.update.succeeded")
            ((codes "intentId", p.intent_id)
              ∷ (codes "snapshotId", p.snapshot_id)
              ∷ (codes "previousContainerId", p.old_container_id)
              ∷ (codes "containerId", r.container_id)
              ∷ (codes "candidateDigest", p.candidate_digest)
              ∷ [])
            (codes "succeeded") none id))
    pure (success id r.container_id)

  -- The `try` of `execute`; an error comes with the values of the two variables.
  unfoldable pub forward : Text → Action R (Thrown × Progress) UpdateSuccess
  forward id = do
    with_progress untouched (revalidate id)
    r ← with_progress (attempted none) (replace_forward id)
    with_progress (attempted (some r.container_id)) (adopt id r)
    with_progress (attempted (some r.container_id)) (conclude id r)

  abbrev candidates : Progress → List Text
  candidates progress = elim progress.candidate_container_id [ some c ↦ c ∷ [] | none ↦ [] ]

  -- The containers from which a rollback may move the binding.
  abbrev known_containers : Text → Progress → List Text
  known_containers current progress = p.old_container_id ∷ current ∷ candidates progress

  -- The `try` of the rollback, up to `rollback_health_verified`.
  unfoldable pub restore : Text → Text → Progress → Action R Thrown Text
  restore id current progress = do
    back ← remote.replace p.compose p.rollback_image_reference current local_only
    stage id (codes "rollback_replacement_created")
        ((codes "containerId", back.container_id) ∷ (codes "imageId", back.image_id) ∷ [])
    rebound ← rebind_known s remote p actor (known_containers current progress) back.container_id
    assert rebound (conflict (codes "ROLLBACK_REBIND_FAILED"))
    stage id (codes "rollback_binding_rebound") ((codes "containerId", back.container_id) ∷ [])
    health ← remote.health p.target_id back.container_id
    assert health.healthy (degraded (codes "ROLLBACK_HEALTH_DEGRADED"))
    stage id (codes "rollback_health_verified")
        ((codes "containerId", back.container_id) ∷ (codes "version", health.api_version) ∷ [])
    pure back.container_id

  -- The rest of that `try`, which ends in an error of its own.
  unfoldable pub report_restored :
      Text → FailureDescriptor → Text → Text → Action R Thrown UpdateSuccess
  report_restored id primary current restored = do
    transition_job s id failed (
        ending s remote p actor
          ((codes "outcome", codes "rolled_back")
            ∷ (codes "intentId", p.intent_id)
            ∷ (codes "snapshotId", p.snapshot_id)
            ∷ (codes "causeClass", primary.code)
            ∷ (codes "failedContainerId", current)
            ∷ (codes "rollbackContainerId", restored)
            ∷ [])
          rollback_succeeded_code)
    quietly (
        record_audit s (
          audit_input s remote p actor (codes "container.update.rolled_back")
            ((codes "intentId", p.intent_id)
              ∷ (codes "causeClass", primary.code)
              ∷ (codes "failedContainerId", current)
              ∷ (codes "rollbackContainerId", restored)
              ∷ [])
            (codes "failed") (some rollback_succeeded_code) id))
    throw (degraded rollback_succeeded_code)

  -- What is known of the container, where the rollback has failed: best effort.
  unfoldable pub find_last_known : Text → Progress → Action R Thrown Text
  find_last_known current progress =
      catch
        (remote.resolve_compose_container p.compose >>= λ resolved.
          catch
            (rebind_known s remote p actor (known_containers current progress) resolved
              >> pure resolved)
            (λ _. pure resolved))
        (λ _. pure current)

  -- The `catch` of the rollback.
  unfoldable pub report_rollback_failure :
      Text → FailureDescriptor → Text → Progress → Thrown → Action R Thrown UpdateSuccess
  report_rollback_failure id primary current progress error =
      if is_restored error
      then throw error
      else (find_last_known current progress >>= λ last_known.
          quietly (
            transition_job s id failed (
              ending s remote p actor
                ((codes "outcome", codes "rollback_failed")
                  ∷ (codes "intentId", p.intent_id)
                  ∷ (codes "snapshotId", p.snapshot_id)
                  ∷ (codes "causeClass", primary.code)
                  ∷ (codes "rollbackCauseClass", (classify_failure error).code)
                  ∷ (codes "lastKnownContainerId", last_known)
                  ∷ [])
                rollback_failed_code))
          >> quietly (
              record_audit s (
                audit_input s remote p actor (codes "container.update.rollback_failed")
                  ((codes "intentId", p.intent_id)
                    ∷ (codes "causeClass", primary.code)
                    ∷ (codes "rollbackCauseClass", (classify_failure error).code)
                    ∷ (codes "lastKnownContainerId", last_known)
                    ∷ [])
                  (codes "failed") (some rollback_failed_code) id))
          >> throw (degraded rollback_failed_code))

  abbrev known_or_old : Progress → Text
  known_or_old progress = elim progress.candidate_container_id [
    | some c ↦ c
    | none ↦ p.old_container_id
  ]

  abbrev pub candidate_or_resolved : Option Text → Action R Thrown Text
  candidate_or_resolved (some c) = pure c
  candidate_or_resolved none = remote.resolve_compose_container p.compose

  -- `candidateContainerId ?? await remote.resolveComposeContainer(...)`, or the end of the job.
  unfoldable pub locate : Text → FailureDescriptor → Progress → Action R Thrown Text
  locate id primary progress = catch (candidate_or_resolved progress.candidate_container_id) (λ _.
      quietly (
        transition_job s id failed (
          ending s remote p actor
            ((codes "outcome", codes "rollback_failed")
              ∷ (codes "causeClass", primary.code)
              ∷ (codes "lastKnownContainerId", known_or_old progress)
              ∷ [])
            rollback_failed_code))
      >> throw (degraded rollback_failed_code))

  unfoldable pub roll_back :
      Text → FailureDescriptor → Text → Progress → Action R Thrown UpdateSuccess
  roll_back id primary current progress =
      stage id (codes "rollback_started")
        ((codes "causeClass", primary.code) ∷ (codes "fromContainerId", current) ∷ [])
      >> catch (restore id current progress >>= report_restored id primary current)
          (report_rollback_failure id primary current progress)

  -- The `catch` of `execute`.
  unfoldable pub recover : Text → Thrown × Progress → Action R Thrown UpdateSuccess
  recover id (error, progress) =
      let primary = classify_failure error in
      if not progress.forward_attempted
      then fail_without_rollback s remote p actor id primary
      else (locate id primary progress >>= λ current.
          if text_eq current p.old_container_id
          then fail_without_rollback s remote p actor id primary
          else roll_back id primary current progress)

  abbrev update_job_input : CreateJobInput
  update_job_input = record {
    target_id = p.target_id;
    actor_user_id = actor;
    kind = codes "container.update";
    mutating = true;
  }

  unfoldable pub execute_prepared : Action R Thrown UpdateSuccess
  execute_prepared = do
    job ← create_job s update_job_input
    transition_job s job.id running no_input
    catch (forward job.id) (recover job.id)
