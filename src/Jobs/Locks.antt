-- ===== src/Jobs/Locks.antt =====
-- What `uq_jobs_active_mutation_target` (packages/db/migrations/0006_jobs_audit.sql) makes of creations in
-- apps/api/src/jobs.ts.
use ollama_remote_control.Prelude.{
  ◌≡◌, refl, Bool, true, false, not, ◌&&◌, List, [], ◌∷◌, ◌++◌, arith, text_eq, text_eq→eq,
  text_eq_self, if◌then◌else◌, any, ok, err, ltb, length,
}
use ollama_remote_control.Modelfile.Chars.{Text, trim, is_empty}
use ollama_remote_control.Jobs.Data.{queued, StoredJob, NewEvent, StoredJobEvent}
use ollama_remote_control.Jobs.Store.{
  Tables, locks, has_id, conflicts, create_with_initial_event, transaction, insert_job,
  insert_job_event, has_text, event_conflicts,
}
use ollama_remote_control.Jobs.Rows.{any-append, count_events}
use ollama_remote_control.Jobs.Service.{
  new_state_event, create, queued_job, no_input, CreateJobInput, job_conflict, is_terminal,
}
use ollama_remote_control.Jobs.Invariant.{WellFormed}

-- No event of a job that has none.
first_event-free :
    (e : NewEvent) (es : List StoredJobEvent)
    → any (λ f. text_eq f.id e.id) es ≡ false
    → count_events e.job_id es ≡ 0
    → any (event_conflicts e 1) es ≡ false
unfolding any count_events
first_event-free e [] fresh none_of = refl
first_event-free e (f ∷ fs) fresh none_of = ground (arith, first_event-free e fs)

inserted_id :
    (id : Text) (js : List StoredJob) (j : StoredJob)
    → text_eq id j.id ≡ true
    → any (has_id id) (js ++ j ∷ []) ≡ true
unfolding any
inserted_id id js j e =
    ground (arith, any-append (has_id id) js (j ∷ []), text_eq→eq id j.id, text_eq_self j.id)

-- A row that meets no constraint is inserted with its event.
create_with_initial_event-inserts :
    (job : StoredJob) (e : NewEvent) (t : Tables)
    → text_eq e.job_id job.id ≡ true
    → conflicts job t.jobs ≡ false
    → any (event_conflicts e 1) t.events ≡ false
    → has_text job.target_id t.target_ids ≡ true
    → has_text job.actor_user_id t.user_ids ≡ true
    → (create_with_initial_event job e t).0 ≡ ok true
unfolding create_with_initial_event transaction insert_job insert_job_event
create_with_initial_event-inserts job e t own free free_event target user =
    let there = inserted_id e.job_id t.jobs job own in
    rw (own, free, target, user, free_event, there) refl

create_with_initial_event-skips :
    (job : StoredJob) (e : NewEvent) (t : Tables)
    → text_eq e.job_id job.id ≡ true
    → conflicts job t.jobs ≡ true
    → (create_with_initial_event job e t).0 ≡ ok false
unfolding create_with_initial_event transaction insert_job insert_job_event
create_with_initial_event-skips job e t own met = rw (own, met) refl

-- A mutating job of the target that has not ended.
abbrev pub is_unfinished : Text → StoredJob → Bool
is_unfinished target j = j.mutating && not (is_terminal j.state) && text_eq j.target_id target

-- The index holds the mutating jobs that have not ended, and no others.
any-locks :
    (target : Text) (js : List StoredJob) → any (locks target) js ≡ any (is_unfinished target) js
unfolding any
any-locks target [] = refl
any-locks target (j ∷ js) = ground (arith, any-locks target js)

-- On tables on which the invariant holds, a creation with a kind of 1 to 120 code units, fresh identifiers,
-- and a target and a user that exist throws JOB_CONFLICT if the job is mutating and the target has a mutating
-- job that has not ended, by the terminal states of the service; otherwise it answers the queued job.
pub create-decides :
    (job_uuid event_uuid timestamp : Text) (input : CreateJobInput) (t : Tables)
    → WellFormed t
    → is_empty (trim input.kind) ≡ false
    → ltb 120 (length (trim input.kind)) ≡ false
    → any (has_id job_uuid) t.jobs ≡ false
    → any (λ f. text_eq f.id event_uuid) t.events ≡ false
    → has_text input.target_id t.target_ids ≡ true
    → has_text input.actor_user_id t.user_ids ≡ true
    → (create job_uuid event_uuid timestamp input t).0 ≡ (
        if input.mutating && any (is_unfinished input.target_id) t.jobs
        then err job_conflict
        else ok (queued_job job_uuid timestamp (trim input.kind) input))
unfolding create conflicts new_state_event
create-decides job_uuid event_uuid timestamp input t h kind short fresh fresh_event target user =
    let e = new_state_event event_uuid job_uuid queued timestamp no_input in
    let job = queued_job job_uuid timestamp (trim input.kind) input in
    let free = first_event-free e t.events fresh_event (h.owned job_uuid fresh) in
    ground (
      arith,
      free,
      create_with_initial_event-inserts job e t,
      create_with_initial_event-skips job e t,
      text_eq_self job_uuid,
      any-locks input.target_id t.jobs,
    )
