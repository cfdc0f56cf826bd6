-- ===== src/Jobs/Safety.antt =====
-- What the operations of `JobService` (apps/api/src/jobs.ts) do to the tables.
use mathlib.Core.Path.{subst}
use ollama_remote_control.Prelude.{
  ◌≡◌, ◌≢◌, refl, sym, ap, ◌∙◌, inl, inr, ◌⊎◌, true, false, none, some, List, [], ◌∷◌, arith,
  Option-cases, Bool-cases, ◌&&◌, text_eq_self, any, ok, err,
}
use ollama_remote_control.Modelfile.Chars.{Text, trim}
use ollama_remote_control.Jobs.Data.{
  JobState, queued, succeeded, same_state, StoredJob, StoredJobEvent, TransitionInput,
}
use ollama_remote_control.Jobs.Deployments.{Deployment}
use ollama_remote_control.Jobs.Store.{
  Tables, has_id, conflicts, update_rows, find_by_id, next_job_event_sequence,
}
use ollama_remote_control.Jobs.Outcomes.{
  row, with_job, with_event, moved_tables, Records, create_outcome, transition_outcome,
  append_outcome,
}
use ollama_remote_control.Jobs.Service.{
  is_terminal, is_truthy, may_become, get, transition_update, new_state_event, transition_from,
  transition, append_to, append_job_event, create, queued_job, no_input, job_not_found,
  new_payload_event, CreateJobInput,
}
use ollama_remote_control.Jobs.Invariant.{is_some, WellFormed, with_job-WellFormed}
use ollama_remote_control.Jobs.Moves.{moved-WellFormed, appended-WellFormed}

-- A call of create either leaves the tables as they were and answers no job, or answers the queued job and
-- has added its row, which met no unique constraint, and its first event, numbered 1, and nothing else.
pub create-cases :
    (job_uuid event_uuid timestamp : Text) (input : CreateJobInput) (t : Tables)
    → let r = create job_uuid event_uuid timestamp input t in
      let job = queued_job job_uuid timestamp (trim input.kind) input in
      ((r.1 ≡ t) × ((j : StoredJob) → r.0 ≢ ok j))
      ⊎ ((r.0 ≡ ok job)
          × (r.1 ≡ with_job job (new_state_event event_uuid job_uuid queued timestamp no_input) t)
          × (conflicts job t.jobs ≡ false))
unfolding create
create-cases job_uuid event_uuid timestamp input t = ground (
  arith,
  create_outcome (queued_job job_uuid timestamp (trim input.kind) input)
      (new_state_event event_uuid job_uuid queued timestamp no_input) t,
)

pub transition_from-cases :
    (uuid timestamp id : Text) (current : StoredJob) (next : JobState) (input : TransitionInput)
    (t : Tables)
    → let r = transition_from uuid timestamp id current next input t in
      let u = transition_update current next input timestamp in
      ((r.1 ≡ t) × ((j : StoredJob) → r.0 ≢ ok j))
      ⊎ ((ds : List Deployment) × Records id current.state u t ds
          × (r.0 ≡ get id r.1)
          × (r.1
              ≡ with_event
                  (new_state_event uuid id next timestamp input)
                  (moved_tables id current.state u ds t))
          × (may_become current.state next ≡ true)
          × (any (has_id id) (update_rows id current.state u t.jobs) ≡ true))
unfolding transition_from new_state_event
transition_from-cases uuid timestamp id current next input t =
    elim (transition_outcome id current.state (transition_update current next input timestamp)
      (new_state_event uuid id next timestamp input) t) [
        | inl unchanged ↦ inl (ground (arith, unchanged))
        | inr (ds, recorded, done, rows, one, own, there) ↦
            elim (Bool-cases (may_become current.state next)) [
              | inr refused ↦ inl (ground (arith))
              | inl allowed ↦
                  elim (Bool-cases (same_state next succeeded && is_truthy input.error_class)) [
                    | inl unclean ↦ inl (ground arith)
                    | inr clean ↦ inr (ds, recorded, ground arith, ground arith, allowed, there)
                  ]
            ]
      ]

transition-absent :
    (uuid timestamp id : Text) (next : JobState) (input : TransitionInput) (t : Tables)
    → find_by_id id t ≡ none
    → transition uuid timestamp id next input t ≡ (err job_not_found, t)
unfolding transition get
transition-absent uuid timestamp id next input t e = rw (e, transition, get) refl

pub transition-found :
    (uuid timestamp id : Text) (current : StoredJob) (next : JobState) (input : TransitionInput)
    (t : Tables)
    → find_by_id id t ≡ some current
    → transition uuid timestamp id next input t
      ≡ transition_from uuid timestamp id current next input t
unfolding transition get
transition-found uuid timestamp id current next input t e = rw (e, transition, get) refl

-- A call of transition either leaves the tables as they were and answers no job, or has found a job whose
-- state may become the next one by TRANSITIONS, has updated the rows of that id in that state, keeps the
-- deployments that the triggers record for them, has added one event behind those of the job, and answers what
-- get then finds; the id is still that of a row.
pub transition-cases :
    (uuid timestamp id : Text) (next : JobState) (input : TransitionInput) (t : Tables)
    → let r = transition uuid timestamp id next input t in
      ((r.1 ≡ t) × ((j : StoredJob) → r.0 ≢ ok j))
      ⊎ ((current : StoredJob) × (ds : List Deployment) × (find_by_id id t ≡ some current)
          × Records id current.state (transition_update current next input timestamp) t ds
          × (r.0 ≡ get id r.1)
          × (r.1
              ≡ with_event (new_state_event uuid id next timestamp input) (
                  moved_tables id current.state
                    (transition_update current next input timestamp)
                    ds
                    t))
          × (may_become current.state next ≡ true)
          × (any (has_id id) (
                update_rows id current.state
                  (transition_update current next input timestamp)
                  t.jobs)
              ≡ true))
transition-cases uuid timestamp id next input t = elim (Option-cases (find_by_id id t)) [
  | inl no_row ↦
      let nothing = transition-absent uuid timestamp id next input t no_row in
      inl (ap (λ r. r.1) nothing, λ j got. cc (nothing, got))
  | inr (current, found) ↦ elim (transition_from-cases uuid timestamp id current next input t) [
    | inl (same, fails) ↦
        let step = transition-found uuid timestamp id current next input t found in
        inl (ap (λ r. r.1) step ∙ same, λ j got. fails j (sym (ap (λ r. r.0) step) ∙ got))
    | inr (ds, recorded, got, rows, allowed, there) ↦
        let step = transition-found uuid timestamp id current next input t found in
        inr (current, ds, found, recorded, rw step got, ap (λ r. r.1) step ∙ rows, allowed, there)
  ]
]

pub append_to-cases :
    (uuid timestamp id event_type payload : Text) (t : Tables)
    → let r = append_to uuid timestamp id event_type payload t in
      let e = new_payload_event uuid timestamp id (trim event_type) payload in
      ((r.1 ≡ t) × ((s : StoredJobEvent) → r.0 ≢ ok s))
      ⊎ ((r.0 ≡ ok (row e (next_job_event_sequence id t)))
          × (r.1 ≡ with_event e t)
          × (any (has_id id) t.jobs ≡ true))
unfolding append_to
append_to-cases uuid timestamp id event_type payload t =
    ground (arith, append_outcome (new_payload_event uuid timestamp id (trim event_type) payload) t)

-- A call of appendEvent either leaves the tables as they were and answers no event, or the job exists, the
-- event is added with the number behind the largest of the job and nothing else changes, and it is answered.
pub append-cases :
    (uuid timestamp id event_type payload : Text) (t : Tables)
    → let r = append_job_event uuid timestamp id event_type payload t in
      let e = new_payload_event uuid timestamp id (trim event_type) payload in
      ((r.1 ≡ t) × ((s : StoredJobEvent) → r.0 ≢ ok s))
      ⊎ ((r.0 ≡ ok (row e (next_job_event_sequence id t)))
          × (r.1 ≡ with_event e t)
          × (any (has_id id) t.jobs ≡ true))
unfolding append_job_event get
append-cases uuid timestamp id event_type payload t =
    ground (arith, append_to-cases uuid timestamp id event_type payload t)

-- The calls of the service that write.
pub data Call : Type 0 where
  create_call : (job_uuid event_uuid timestamp : Text) → CreateJobInput → Call
  transition_call : (uuid timestamp id : Text) → JobState → TransitionInput → Call
  append_call : (uuid timestamp id event_type payload : Text) → Call

unfoldable pub call : Call → Tables → Tables
call (create_call job_uuid event_uuid timestamp input) t =
    (create job_uuid event_uuid timestamp input t).1
call (transition_call uuid timestamp id next input) t =
    (transition uuid timestamp id next input t).1
call (append_call uuid timestamp id event_type payload) t =
    (append_job_event uuid timestamp id event_type payload t).1

unfoldable pub calls : List Call → Tables → Tables
calls [] t = t
calls (c ∷ cs) t = calls cs (call c t)

create-WellFormed :
    (job_uuid event_uuid timestamp : Text) (input : CreateJobInput) (t : Tables)
    → WellFormed t
    → WellFormed (create job_uuid event_uuid timestamp input t).1
unfolding new_state_event
create-WellFormed job_uuid event_uuid timestamp input t h =
    elim (create-cases job_uuid event_uuid timestamp input t) [
      | inl (same, fails) ↦ subst WellFormed (sym same) h
      | inr (done, rows, free) ↦ subst WellFormed (sym rows) (
          with_job-WellFormed (queued_job job_uuid timestamp (trim input.kind) input)
            (new_state_event event_uuid job_uuid queued timestamp no_input) no_input t free refl
            refl refl h)
    ]

finished_at-transition_update :
    (current : StoredJob) (next : JobState) (input : TransitionInput) (timestamp : Text)
    → is_some (transition_update current next input timestamp).finished_at ≡ is_terminal next
unfolding transition_update
finished_at-transition_update current next input timestamp = ground arith

transition-WellFormed :
    (uuid timestamp id : Text) (next : JobState) (input : TransitionInput) (t : Tables)
    → WellFormed t
    → WellFormed (transition uuid timestamp id next input t).1
unfolding new_state_event transition_update
transition-WellFormed uuid timestamp id next input t h =
    elim (transition-cases uuid timestamp id next input t) [
      | inl (same, fails) ↦ subst WellFormed (sym same) h
      | inr (current, ds, found, recorded, got, rows, allowed, there) ↦
          subst WellFormed (sym rows) (
            moved-WellFormed id current (transition_update current next input timestamp)
              (new_state_event uuid id next timestamp input) input t h found allowed
              (text_eq_self id) (finished_at-transition_update current next input timestamp) refl
              there ds)
    ]

append-WellFormed :
    (uuid timestamp id event_type payload : Text) (t : Tables)
    → WellFormed t
    → WellFormed (append_job_event uuid timestamp id event_type payload t).1
append-WellFormed uuid timestamp id event_type payload t h =
    elim (append-cases uuid timestamp id event_type payload t) [
      | inl (same, fails) ↦ subst WellFormed (sym same) h
      | inr (done, rows, there) ↦ subst WellFormed (sym rows) (
          appended-WellFormed (new_payload_event uuid timestamp id (trim event_type) payload)
            payload t refl there h)
    ]

pub call-WellFormed : (c : Call) (t : Tables) → WellFormed t → WellFormed (call c t)
unfolding call
call-WellFormed (create_call job_uuid event_uuid timestamp input) t h =
    create-WellFormed job_uuid event_uuid timestamp input t h
call-WellFormed (transition_call uuid timestamp id next input) t h =
    transition-WellFormed uuid timestamp id next input t h
call-WellFormed (append_call uuid timestamp id event_type payload) t h =
    append-WellFormed uuid timestamp id event_type payload t h

-- Tables on which the invariant of the jobs holds keep it through every sequence of calls of create,
-- transition and appendEvent, those that fail included: ids are distinct, at most one active mutating job
-- stands for a target, the events of each job are numbered 1, 2, 3, …, and belong to a job that exists, a
-- job has a finishing time exactly if its state is terminal, and its state is what its events announced last.
pub calls-WellFormed : (cs : List Call) (t : Tables) → WellFormed t → WellFormed (calls cs t)
unfolding calls
calls-WellFormed [] t h = h
calls-WellFormed (c ∷ cs) t h = calls-WellFormed cs (call c t) (call-WellFormed c t h)
