-- ===== src/Jobs/Outcomes.antt =====
-- What each transaction of `SqliteJobRepository` (packages/db/src/index.ts) ends in: it commits all of
-- its rows, or leaves the tables as they were.
use ollama_remote_control.Prelude.{
  ℕ, ◌≡◌, ◌≢◌, refl, ◌⊎◌, inl, inr, true, false, List, [], ◌∷◌, ◌++◌, arith, text_eq, any, Result,
  ok, err,
}
use ollama_remote_control.Modelfile.Chars.{Text}
use ollama_remote_control.Jobs.Data.{
  JobState, StoredJob, NewEvent, StoredJobEvent, JobTransitionUpdate,
}
use ollama_remote_control.Jobs.Deployments.{Deployment}
use ollama_remote_control.Jobs.Store.{
  record_deployments, Tables, has_id, conflicts, insert_job, next_job_event_sequence,
  insert_job_event, transaction, create_with_initial_event, in_state, update_rows, count_rows,
  update_job, transition_with_event, append_event,
}

abbrev pub row : NewEvent → ℕ → StoredJobEvent
row e n = record { event = e; sequence = n }

abbrev pub with_job : StoredJob → NewEvent → Tables → Tables
with_job job e t = record t { jobs = t.jobs ++ (job ∷ []); events = t.events ++ (row e 1 ∷ []) }

abbrev pub with_event : NewEvent → Tables → Tables
with_event e t = record t { events = t.events ++ (row e (next_job_event_sequence e.job_id t) ∷ []) }

-- A creation that reports `true` has added the job and its first event, and the job met no unique
-- constraint; any other leaves the tables as they were.
pub create_outcome :
    (job : StoredJob) (e : NewEvent) (t : Tables)
    → let r = create_with_initial_event job e t in
      ((r.1 ≡ t) × (r.0 ≢ ok true))
      ⊎ ((r.0 ≡ ok true)
          × (r.1 ≡ with_job job e t)
          × (conflicts job t.jobs ≡ false)
          × (text_eq e.job_id job.id ≡ true))
unfolding create_with_initial_event transaction insert_job insert_job_event
create_outcome job e t = ground arith

-- The tables behind an update, with the deployments that its triggers recorded.
abbrev pub moved_tables : Text → JobState → JobTransitionUpdate → List Deployment → Tables → Tables
moved_tables id expected u ds t = record t {
  jobs = update_rows id expected u t.jobs;
  deployments = ds;
}

-- The deployments that the triggers of an update record.
abbrev pub Records : Text → JobState → JobTransitionUpdate → Tables → List Deployment → Type 0
Records id expected u t ds =
    record_deployments id expected u t (update_rows id expected u t.jobs) t.jobs t.deployments
    ≡ ok ds

pub Result-cases :
    {E A : Type 0} (r : Result E A) → ((e : E) × (r ≡ err e)) ⊎ ((a : A) × (r ≡ ok a))
Result-cases (ok a) = inr (a, refl)
Result-cases (err e) = inl (e, refl)

recorded_cases :
    (id : Text) (expected : JobState) (u : JobTransitionUpdate) (e : NewEvent) (t : Tables)
    (ds : List Deployment)
    → Records id expected u t ds
    → let r = transition_with_event id expected u e t in
      ((r.1 ≡ t) × (r.0 ≢ ok true))
      ⊎ ((r.0 ≡ ok true)
          × (r.1 ≡ with_event e (moved_tables id expected u ds t))
          × (count_rows (in_state id expected) t.jobs ≡ 1)
          × (text_eq e.job_id id ≡ true)
          × (any (has_id e.job_id) (update_rows id expected u t.jobs) ≡ true))
unfolding transition_with_event transaction update_job insert_job_event
recorded_cases id expected u e t ds recorded = ground (arith, recorded)

-- A transition that reports `true` has changed one row, for which the triggers recorded what they had to,
-- and added one event, numbered behind those that the job had; any other leaves the tables as they were.
pub transition_outcome :
    (id : Text) (expected : JobState) (u : JobTransitionUpdate) (e : NewEvent) (t : Tables)
    → let r = transition_with_event id expected u e t in
      ((r.1 ≡ t) × (r.0 ≢ ok true))
      ⊎ ((ds : List Deployment) × Records id expected u t ds
          × (r.0 ≡ ok true)
          × (r.1 ≡ with_event e (moved_tables id expected u ds t))
          × (count_rows (in_state id expected) t.jobs ≡ 1)
          × (text_eq e.job_id id ≡ true)
          × (any (has_id e.job_id) (update_rows id expected u t.jobs) ≡ true))
unfolding transition_with_event transaction update_job insert_job_event
transition_outcome id expected u e t =
    elim (Result-cases (
      record_deployments id expected u t (update_rows id expected u t.jobs) t.jobs t.deployments)) [
        | inl (error, fails) ↦ inl (ground (arith, fails))
        | inr (ds, recorded) ↦ elim (recorded_cases id expected u e t ds recorded) [
          | inl fails ↦ inl fails
          | inr (done, rows, one, own, there) ↦ inr (ds, recorded, done, rows, one, own, there)
        ]
      ]

pub append_outcome :
    (e : NewEvent) (t : Tables)
    → let r = append_event e t in
      ((r.1 ≡ t) × ((s : StoredJobEvent) → r.0 ≢ ok s))
      ⊎ ((r.0 ≡ ok (row e (next_job_event_sequence e.job_id t)))
          × (r.1 ≡ with_event e t)
          × (any (has_id e.job_id) t.jobs ≡ true))
unfolding append_event transaction insert_job_event
append_outcome e t = ground arith
