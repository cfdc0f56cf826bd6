-- ===== src/Update/Execute/Trust.antt =====
-- No step of `execute` (apps/api/src/update-orchestrator.ts) but the report of a rollback that has succeeded
-- throws an error with the code of that report.
use ollama_remote_control.Prelude.{
  ◌≡◌, refl, false, Option, none, some, List, Result, ok, err, text_eq,
}
use ollama_remote_control.Modelfile.Chars.{Text}
use ollama_remote_control.Jobs.Data.{JobState, TransitionInput}
use ollama_remote_control.Jobs.Service.{
  JobError, invalid_job, job_conflict, job_create_failed, job_not_found, job_state_conflict,
  invalid_job_result, invalid_job_event, store_error, CreateJobInput,
}
use ollama_remote_control.Update.Effects.{World, StoredTarget, throw}
use ollama_remote_control.Update.Stores.{
  Supply, Thrown, orchestrator_error, health_error, job_error, reconstruct_error, replacement_error,
  ssh_error, other_error, thrown_job, append_to_job, transition_job, create_job, rebind_container,
  swap_binding, record_audit, append_audit,
}
use ollama_remote_control.Update.Triples.{
  Meets, weaken, Triple-if, Throws, Throws-bind, Throws-gets, Throws-pure, Throws-throw,
  Throws-assert, Throws-modify, Triple-quietly,
}
use ollama_remote_control.Update.Orchestrator.{
  RemoteOperations, PreparedUpdate, rebind_known, rebind_current, ReplacementResult, Progress,
  classify_failure, rollback_succeeded_code,
}
use ollama_remote_control.Update.Execute.{
  revalidate, replace_forward, adopt, conclude, restore, is_restored,
}

-- An error whose code is not that by which `execute` marks a rollback that has succeeded.
abbrev pub Trusted : Thrown → Type 0
Trusted e = text_eq (classify_failure e).code rollback_succeeded_code ≡ false

pub Trusted-restored : (e : Thrown) → Trusted e → is_restored e ≡ false
unfolding classify_failure
Trusted-restored (orchestrator_error f) h = h
Trusted-restored (health_error f) h = refl
Trusted-restored (job_error f) h = refl
Trusted-restored (reconstruct_error c) h = refl
Trusted-restored (replacement_error c) h = refl
Trusted-restored (ssh_error c) h = refl
Trusted-restored other_error h = refl

-- The remote operations throw no other error.
pub record IsTrusted {R : Type 0} (remote : RemoteOperations R) : Type 0 where
  pub on_validate : (c : _) (id : Text) → Throws Trusted (remote.validate_compose c id)
  pub on_replace :
      (c : _) (image id : Text) (source : _) → Throws Trusted (remote.replace c image id source)
  pub on_health : (target id : Text) → Throws Trusted (remote.health target id)

job_error-Trusted : (e : JobError) → Trusted (job_error e)
unfolding classify_failure
job_error-Trusted invalid_job = refl
job_error-Trusted job_conflict = refl
job_error-Trusted job_create_failed = refl
job_error-Trusted job_not_found = refl
job_error-Trusted job_state_conflict = refl
job_error-Trusted invalid_job_result = refl
job_error-Trusted invalid_job_event = refl
job_error-Trusted (store_error e) = refl

other_error-Trusted : Trusted other_error
unfolding classify_failure
other_error-Trusted = refl

thrown_job-Trusted :
    {R A : Type 0} (r : Result JobError A) (v : World R)
    → Meets {R = R} (λ _ _. Unit {0}) (λ e _. Trusted e) (thrown_job r, v)
thrown_job-Trusted (ok a) v = tt
thrown_job-Trusted (err e) v = job_error-Trusted e

module _ {R : Type 0} (s : Supply) where
  pub append_to_job-Trusted :
      (id event_type payload : Text)
      → Throws {R = R} Trusted (append_to_job s id event_type payload)
  unfolding append_to_job
  append_to_job-Trusted id event_type payload = record { at = λ w h. thrown_job-Trusted _ _ }

  pub transition_job-Trusted :
      (id : Text) (next : JobState) (input : TransitionInput)
      → Throws {R = R} Trusted (transition_job s id next input)
  unfolding transition_job
  transition_job-Trusted id next input = record { at = λ w h. thrown_job-Trusted _ _ }

  pub create_job-Trusted : (input : CreateJobInput) → Throws {R = R} Trusted (create_job s input)
  unfolding create_job
  create_job-Trusted input = record { at = λ w h. thrown_job-Trusted _ _ }

  throw_other : {A : Type 0} → Throws {R = R} {A = A} Trusted (throw other_error)
  throw_other = Throws-throw other_error other_error-Trusted

  append_audit-Trusted : (e : _) → Throws {R = R} Trusted (append_audit e)
  unfolding append_audit
  append_audit-Trusted e =
      search (Triple-if, throw_other, Throws-gets, Throws-bind, Throws-modify) depth 20

  pub record_audit-Trusted : (input : _) → Throws {R = R} Trusted (record_audit s input)
  unfolding record_audit
  record_audit-Trusted input =
      search (Triple-if, throw_other, Throws-gets, Throws-bind, Throws-modify, append_audit-Trusted)
        depth 20

  rebind_container-Trusted :
      (id expected next now : Text) → Throws {R = R} Trusted (rebind_container id expected next now)
  unfolding rebind_container swap_binding
  rebind_container-Trusted id expected next now =
      search (Triple-if, throw_other, Throws-pure, Throws-gets, Throws-bind, Throws-modify) depth 20

module _ {R : Type 0} (s : Supply) (remote : RemoteOperations R) (p : PreparedUpdate)
    (actor : Text) where
  rebind_known-Trusted :
      (allowed : List Text) (next : Text)
      → Throws Trusted (rebind_known s remote p actor allowed next)
  unfolding rebind_known
  rebind_known-Trusted allowed next = Throws-bind (Throws-gets _) go
    where
      go :
          (o : Option StoredTarget)
          → Throws Trusted (rebind_current s remote p actor allowed next o)
      go none = Throws-pure false
      go (some current) =
          search (Triple-if, Throws-pure, Throws-gets, Throws-bind, rebind_container-Trusted s)

  module _ (trusted : IsTrusted remote) where
    pub revalidate-Trusted : (id : Text) → Throws Trusted (revalidate s remote p actor id)
    unfolding revalidate
    revalidate-Trusted id =
        search
          (
            Throws-pure,
            Throws-bind,
            append_to_job-Trusted s,
            record_audit-Trusted s,
            trusted.on_validate,
          )
          depth 20

    pub replace_forward-Trusted : (id : Text) → Throws Trusted (replace_forward s remote p actor id)
    unfolding replace_forward
    replace_forward-Trusted id =
        search (Throws-pure, Throws-bind, append_to_job-Trusted s, trusted.on_replace) depth 20

    pub adopt-Trusted :
        (id : Text) (r : ReplacementResult) → Throws Trusted (adopt s remote p actor id r)
    unfolding adopt classify_failure
    adopt-Trusted id r =
        search
          (
            Throws-pure,
            Throws-bind,
            append_to_job-Trusted s,
            rebind_known-Trusted,
            trusted.on_health,
            Throws-assert,
          )
          depth 20

    pub restore-Trusted :
        (id current : Text) (progress : Progress)
        → Throws Trusted (restore s remote p actor id current progress)
    unfolding restore classify_failure
    restore-Trusted id current progress =
        search
          (
            Throws-pure,
            Throws-bind,
            append_to_job-Trusted s,
            rebind_known-Trusted,
            trusted.on_replace,
            trusted.on_health,
            Throws-assert,
          )
          depth 20

    pub conclude-Trusted :
        (id : Text) (r : ReplacementResult) → Throws Trusted (conclude s remote p actor id r)
    unfolding conclude
    conclude-Trusted id r = Throws-bind (transition_job-Trusted s _ _ _) λ _.
        Throws-bind
          (Triple-quietly (weaken (record_audit-Trusted s _) (λ w h. h) (λ a w h. h) (λ e w h. tt)))
          λ _. Throws-pure _
