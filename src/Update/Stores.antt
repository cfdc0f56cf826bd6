-- ===== src/Update/Stores.antt =====
-- The stores as a handler uses them: `JobService` with the errors it throws, `rebindContainer` of
-- packages/db/src/target-binding.ts, and `AuditService.record` of apps/api/src/audit.ts.
use ollama_remote_control.Prelude.{
  ℕ, ◌+◌, ◌==◌, Bool, true, false, not, ◌&&◌, ◌||◌, Option, List, [], ◌∷◌, ◌++◌, map, if◌then◌else◌,
  text_eq, any, find, ltb, length, Result, ok, err,
}
use ollama_remote_control.Modelfile.Chars.{Text, is_empty, trim}
use ollama_remote_control.Jobs.Data.{JobState, TransitionInput, StoredJob, StoredJobEvent}
use ollama_remote_control.Jobs.Store.{Tables}
use ollama_remote_control.Jobs.Service.{
  JobError, CreateJobInput, create, transition, append_job_event,
}
use ollama_remote_control.Update.Effects.{
  StoredTarget, StoredAuditEvent, Outcome, returned, thrown, Action, pure, throw, gets, modify,
  ◌>>=◌, ◌>>◌,
}

-- The code and the status of an error that a handler answers.
pub record FailureDescriptor : Type 0 where
  pub code : Text
  pub status_code : ℕ

-- What a handler catches, by the class of the error.
pub data Thrown : Type 0 where
  orchestrator_error health_error : FailureDescriptor → Thrown
  job_error : JobError → Thrown
  reconstruct_error replacement_error ssh_error : Text → Thrown
  other_error : Thrown

-- The identifiers and times that are still to be drawn, and `JSON.stringify` on an object of texts.
pub record Supply : Type 0 where
  pub uuid : ℕ → Text
  pub clock : ℕ → Text
  pub stringify : List (Text × Text) → Text

abbrev pub thrown_job : {A : Type 0} → Result JobError A → Outcome Thrown A
thrown_job (ok a) = returned a
thrown_job (err e) = thrown (job_error e)

-- A call of the job service, which draws `n` identifiers.
abbrev pub job_call :
    {R A : Type 0} → ℕ → (ℕ → Tables → Result JobError A × Tables) → Action R Thrown A
job_call n f w =
    let r = f w.draws w.tables in (thrown_job r.0, record w { tables = r.1; draws = w.draws + n })

module _ {R : Type 0} (s : Supply) where
  unfoldable pub create_job : CreateJobInput → Action R Thrown StoredJob
  create_job input = job_call 2 λ k. create (s.uuid k) (s.uuid (k + 1)) (s.clock k) input

  unfoldable pub transition_job : Text → JobState → TransitionInput → Action R Thrown StoredJob
  transition_job id next input = job_call 1 λ k. transition (s.uuid k) (s.clock k) id next input

  unfoldable pub append_to_job : Text → Text → Text → Action R Thrown StoredJobEvent
  append_to_job id event_type payload =
      job_call 1 λ k. append_job_event (s.uuid k) (s.clock k) id event_type payload

abbrev pub has_target_id : Text → StoredTarget → Bool
has_target_id id t = text_eq t.id id

-- `this.targets.findById(targetId)`
abbrev pub find_target : Text → List StoredTarget → Option StoredTarget
find_target id ts = find (has_target_id id) ts

-- `WHERE id = ? AND selected_container_id = ?`
abbrev pub is_bound : Text → Text → StoredTarget → Bool
is_bound id expected t = text_eq t.id id && text_eq t.selected_container_id expected

abbrev pub bind_to : Text → Text → StoredTarget → StoredTarget
bind_to next now t = record t { selected_container_id = next; updated_at = now }

unfoldable pub update_bindings : Text → Text → Text → Text → List StoredTarget → List StoredTarget
update_bindings id expected next now =
    map (λ t. if is_bound id expected t then bind_to next now t else t)

unfoldable pub count_bound : Text → Text → List StoredTarget → ℕ
count_bound id expected [] = 0
count_bound id expected (t ∷ ts) =
    (if is_bound id expected t then 1 else 0) + count_bound id expected ts

-- Two rows of one host and one container, which `idx_ollama_targets_host_container` refuses.
abbrev same_container : StoredTarget → StoredTarget → Bool
same_container t u =
    text_eq u.host_id t.host_id && text_eq u.selected_container_id t.selected_container_id

unfoldable pub distinct_containers : List StoredTarget → Bool
distinct_containers [] = true
distinct_containers (t ∷ ts) = not (any (same_container t) ts) && distinct_containers ts

-- `rebindContainer` behind its first test: a compare-and-swap on one row.
unfoldable pub swap_binding : {R : Type 0} → Text → Text → Text → Text → Action R Thrown Bool
swap_binding id expected next now = gets (λ w. w.targets) >>= λ targets.
    let rows = update_bindings id expected next now targets in
    if not (distinct_containers rows)
    then pure false
    else if not (count_bound id expected targets == 1)
    then pure false
    else (modify (λ w. record w { targets = rows }) >> pure true)

unfoldable pub rebind_container : {R : Type 0} → Text → Text → Text → Text → Action R Thrown Bool
rebind_container id expected next now =
    if is_empty id || is_empty expected || is_empty next || is_empty now
    then throw other_error
    else if text_eq expected next
    then pure false
    else swap_binding id expected next now

-- `AuditRecordInput` of apps/api/src/audit.ts; the parameters are the JSON text of what is left of them.
pub record AuditRecordInput : Type 0 where
  pub actor_user_id : Text
  pub host_id : Option Text
  pub target_id : Option Text
  pub action : Text
  pub parameters_redacted_json : Text
  pub result : Text
  pub error_class : Option Text
  pub job_id : Option Text

abbrev audit_row : Text → Text → AuditRecordInput → StoredAuditEvent
audit_row uuid now input = record {
  id = uuid;
  timestamp = now;
  actor_user_id = input.actor_user_id;
  host_id = input.host_id;
  target_id = input.target_id;
  action = trim input.action;
  parameters_redacted_json = input.parameters_redacted_json;
  result = input.result;
  error_class = input.error_class;
  job_id = input.job_id;
}

-- `INSERT INTO audit_events`, whose only constraint is its primary key.
unfoldable pub append_audit : {R : Type 0} → StoredAuditEvent → Action R Thrown (Unit {0})
append_audit e = gets (λ w. w.audits) >>= λ audits.
    if any (λ f. text_eq f.id e.id) audits
    then throw other_error
    else modify (λ w. record w { audits = audits ++ (e ∷ []) })

unfoldable pub record_audit : {R : Type 0} → Supply → AuditRecordInput → Action R Thrown (Unit {0})
record_audit s input =
    if is_empty (trim input.action) || ltb 160 (length (trim input.action))
    then throw other_error
    else (gets (λ w. audit_row (s.uuid w.draws) (s.clock w.draws) input) >>= λ e.
        modify (λ w. record w { draws = w.draws + 1 }) >> append_audit e)
