-- ===== src/Jobs/Advance.antt =====
-- A transition in apps/api/src/jobs.ts that its guards allow takes place: neither the state that the
-- update expects nor a constraint of the tables stands against it, save the trigger of deployments.
use mathlib.Core.Option.{some_inj}
use ollama_remote_control.Prelude.{
  ◌||◌, ltb, length, ℕ, ◌+◌, ◌≡◌, ◌⊎◌, refl, ap, ◌∙◌, inl, inr, true, false, ◌&&◌, some, List, [],
  ◌∷◌, arith, Bool-cases, text_eq, text_eq→eq, text_eq_self, any, find, ok, err, ◌<◌, if◌then◌else◌,
}
use ollama_remote_control.Modelfile.Chars.{is_empty, trim, Text}
use ollama_remote_control.Jobs.Data.{
  JobState, succeeded, same_state, StoredJob, NewEvent, StoredJobEvent, JobTransitionUpdate,
  TransitionInput, StoreError,
}
use ollama_remote_control.Jobs.Deployments.{Deployment, model_create, record_deployment}
use ollama_remote_control.Jobs.Evidence.{evidence, record_deployments-single}
use ollama_remote_control.Jobs.Store.{
  record_deployments, append_event, Tables, is_active, has_id, distinct_locks, in_state,
  apply_update, update_rows, count_rows, find_by_id, max_sequence, next_job_event_sequence,
  transition_with_event, transaction, update_job, insert_job_event, event_conflicts,
}
use ollama_remote_control.Jobs.Rows.{
  same_state_self, distinct_locks-update_rows, distinct_ids, any-has_id-update_rows,
}
use ollama_remote_control.Jobs.Outcomes.{row, with_event, moved_tables, Records, Result-cases}
use ollama_remote_control.Jobs.Service.{
  append_job_event, append_to, new_payload_event, may_become, get, transition_update,
  new_state_event, transition_from, transition, is_truthy, store_error,
}
use ollama_remote_control.Jobs.Invariant.{WellFormed}
use ollama_remote_control.Jobs.Moves.{find-update_rows, find-has_id}
use ollama_remote_control.Jobs.Safety.{transition-found}

count_rows-absent :
    (id : Text) (s : JobState) (js : List StoredJob)
    → any (has_id id) js ≡ false
    → count_rows (in_state id s) js ≡ 0
unfolding any count_rows
count_rows-absent id s [] h = refl
count_rows-absent id s (j ∷ js) h = ground (arith, count_rows-absent id s js)

count_rows-found :
    (id : Text) (js : List StoredJob) (c : StoredJob)
    → distinct_ids js ≡ true
    → find (has_id id) js ≡ some c
    → count_rows (in_state id c.state) js ≡ 1
unfolding distinct_ids count_rows
count_rows-found id [] c d e = cc
count_rows-found id (j ∷ js) c d e = elim (Bool-cases (has_id id j)) [
  | inl own ↦
      let same : some j ≡ some c = rw (own, find) at e in
      let state : j.state ≡ c.state = ap (λ k. k.state) (some_inj.0 same) in
      let rest : any (has_id id) js ≡ false = ground (arith, text_eq→eq j.id id own) in
      ground (arith, count_rows-absent id c.state js rest, same_state_self c.state, state)
  | inr other ↦
      let below : find (has_id id) js ≡ some c = rw (other, find) at e in
      ground (arith, count_rows-found id js c (ground arith) below)
]

-- No event of the job has a number behind the largest.
pub sequence-free :
    (e : NewEvent) (n : ℕ) (es : List StoredJobEvent)
    → any (λ f. text_eq f.id e.id) es ≡ false
    → max_sequence e.job_id es < n
    → any (event_conflicts e n) es ≡ false
unfolding any max_sequence
sequence-free e n [] fresh above = refl
sequence-free e n (f ∷ fs) fresh above = ground (arith, sequence-free e n fs)

pub find-any :
    (id : Text) (js : List StoredJob) (c : StoredJob)
    → find (has_id id) js ≡ some c
    → any (has_id id) js ≡ true
unfolding any
find-any id [] c e = cc
find-any id (j ∷ js) c e = ground (arith, find-any id js c)

keeps_active :
    (current next : JobState)
    → may_become current next ≡ true
    → is_active next ≡ true
    → is_active current ≡ true
keeps_active current next allowed = ground arith

-- A guarded update that meets one row and an event that meets no constraint.
transition_with_event-commits :
    (id : Text) (expected : JobState) (u : JobTransitionUpdate) (e : NewEvent) (t : Tables)
    (ds : List Deployment)
    → text_eq e.job_id id ≡ true
    → distinct_locks (update_rows id expected u t.jobs) ≡ true
    → Records id expected u t ds
    → count_rows (in_state id expected) t.jobs ≡ 1
    → any (event_conflicts e (max_sequence e.job_id t.events + 1)) t.events ≡ false
    → any (has_id e.job_id) (update_rows id expected u t.jobs) ≡ true
    → transition_with_event id expected u e t
      ≡ (ok true, with_event e (moved_tables id expected u ds t))
unfolding transition_with_event transaction update_job insert_job_event next_job_event_sequence
transition_with_event-commits id expected u e t ds own locks_ok recorded one free there =
    rw (own, locks_ok, recorded, one, free, there) refl

-- An update that its triggers abort.
transition_with_event-aborts :
    (id : Text) (expected : JobState) (u : JobTransitionUpdate) (e : NewEvent) (t : Tables)
    (error : StoreError)
    → text_eq e.job_id id ≡ true
    → distinct_locks (update_rows id expected u t.jobs) ≡ true
    → record_deployments id expected u t (update_rows id expected u t.jobs) t.jobs t.deployments
      ≡ err error
    → transition_with_event id expected u e t ≡ (err error, t)
unfolding transition_with_event transaction update_job
transition_with_event-aborts id expected u e t error own locks_ok aborted =
    rw (own, locks_ok, aborted) refl

-- A job that may become another one has not succeeded.
trigger-evidence :
    (id : Text) (current : StoredJob) (next : JobState) (input : TransitionInput) (timestamp : Text)
    (t : Tables)
    → may_become current.state next ≡ true
    → let u = transition_update current next input timestamp in
      (if text_eq current.kind model_create && same_state next succeeded
        then record_deployment t.sql t.revisions
            (update_rows id current.state u t.jobs)
            t.deployments
            (apply_update u current)
        else ok t.deployments)
      ≡ evidence id current u t
unfolding transition_update
trigger-evidence id current next input timestamp t allowed = ground arith

module _ (uuid timestamp id : Text) (next : JobState) (input : TransitionInput) (t : Tables)
    (current : StoredJob) (h : WellFormed t) (found : find_by_id id t ≡ some current)
    (allowed : may_become current.state next ≡ true)
    (clean : (same_state next succeeded && is_truthy input.error_class) ≡ false)
    (fresh : any (λ f. text_eq f.id uuid) t.events ≡ false) where
  abbrev update : JobTransitionUpdate
  update = transition_update current next input timestamp

  abbrev event : NewEvent
  event = new_state_event uuid id next timestamp input

  locks_stay_distinct : distinct_locks (update_rows id current.state update t.jobs) ≡ true
  unfolding transition_update
  locks_stay_distinct =
      distinct_locks-update_rows id current.state update (keeps_active current.state next allowed)
        t.jobs h.locked_once

  store_commits :
      (ds : List Deployment)
      → evidence id current update t ≡ ok ds
      → transition_with_event id current.state update event t
        ≡ (ok true, with_event event (moved_tables id current.state update ds t))
  unfolding find_by_id new_state_event
  store_commits ds recorded =
      transition_with_event-commits id current.state update event t ds (text_eq_self id)
        locks_stay_distinct
        (record_deployments-single id update t _ t.jobs current t.deployments h.ids found
          ∙ recorded)
        (count_rows-found id t.jobs current h.ids found)
        (sequence-free event _ t.events fresh (omega arith))
        (any-has_id-update_rows id current.state update id t.jobs
          ∙ find-any id t.jobs current found)

  found_after :
      find (has_id id) (update_rows id current.state update t.jobs)
      ≡ some (apply_update update current)
  unfolding find_by_id
  found_after =
      find-update_rows id current.state update id t.jobs
      ∙ rw (found, find-has_id id t.jobs found, same_state_self current.state) refl

  transition-commits :
      (ds : List Deployment)
      → evidence id current update t ≡ ok ds
      → transition uuid timestamp id next input t ≡ (
        ok (apply_update update current),
        with_event event (moved_tables id current.state update ds t),
      )
  unfolding transition_from find_by_id get
  transition-commits ds recorded =
      transition-found uuid timestamp id current next input t found
      ∙ rw (allowed, clean, store_commits ds recorded, found_after) refl

  transition-aborts :
      (error : StoreError)
      → evidence id current update t ≡ err error
      → transition uuid timestamp id next input t ≡ (err (store_error error), t)
  unfolding transition_from find_by_id new_state_event
  transition-aborts error aborted =
      let trigger =
        record_deployments-single id update t (update_rows id current.state update t.jobs) t.jobs
          current t.deployments h.ids found
        ∙ aborted in
      let stored =
        transition_with_event-aborts id current.state update event t error (text_eq_self id)
          locks_stay_distinct trigger in
      transition-found uuid timestamp id current next input t found
      ∙ rw (allowed, clean, stored) refl

-- On tables on which the invariant holds, take a transition of a job along TRANSITIONS, to succeeded only
-- without an error class, with a fresh event identifier. If the trigger of deployments aborts the update of the
-- job, the transition throws its error and leaves the tables as they were. Otherwise it answers the job with the
-- update applied, the tables then hold that job, and the deployments are those that the trigger left. Only a job
-- of the kind model-create that becomes succeeded meets the trigger, and nothing else makes the transition fail.
pub transition-advances :
    (uuid timestamp id : Text) (next : JobState) (input : TransitionInput) (t : Tables)
    (current : StoredJob)
    → WellFormed t
    → find_by_id id t ≡ some current
    → may_become current.state next ≡ true
    → (same_state next succeeded && is_truthy input.error_class) ≡ false
    → any (λ f. text_eq f.id uuid) t.events ≡ false
    → let r = transition uuid timestamp id next input t in
      let u = transition_update current next input timestamp in
      let moved = apply_update u current in
      let trigger =
        if text_eq current.kind model_create && same_state next succeeded
        then record_deployment t.sql t.revisions
            (update_rows id current.state u t.jobs)
            t.deployments
            moved
        else ok t.deployments in
      ((error : StoreError) × (trigger ≡ err error) × (r ≡ (err (store_error error), t)))
      ⊎ ((ds : List Deployment) × (trigger ≡ ok ds)
          × (r.0 ≡ ok moved)
          × (find_by_id id r.1 ≡ some moved)
          × (r.1.deployments ≡ ds))
unfolding find_by_id
transition-advances uuid timestamp id next input t current h found allowed clean fresh =
    let u = transition_update current next input timestamp in
    let same = trigger-evidence id current next input timestamp t allowed in
    let after = found_after uuid timestamp id next input t current h found allowed clean fresh in
    elim (Result-cases (evidence id current u t)) [
      | inl (error, aborted) ↦ inl (
        error,
        same ∙ aborted,
        transition-aborts uuid timestamp id next input t current h found allowed clean fresh error
            aborted,
      )
      | inr (ds, recorded) ↦
          let done =
            transition-commits uuid timestamp id next input t current h found allowed clean fresh ds
              recorded in
          inr (
            ds,
            same ∙ recorded,
            ap (λ r. r.0) done,
            ap (λ r. find (has_id id) r.1.jobs) done ∙ after,
            ap (λ r. r.1.deployments) done,
          )
    ]

-- A job of another kind does not meet the trigger.
pub transition-advances_other :
    (uuid timestamp id : Text) (next : JobState) (input : TransitionInput) (t : Tables)
    (current : StoredJob)
    → WellFormed t
    → find_by_id id t ≡ some current
    → may_become current.state next ≡ true
    → (same_state next succeeded && is_truthy input.error_class) ≡ false
    → any (λ f. text_eq f.id uuid) t.events ≡ false
    → text_eq current.kind model_create ≡ false
    → let r = transition uuid timestamp id next input t in
      let moved = apply_update (transition_update current next input timestamp) current in
      (r.0 ≡ ok moved) × (find_by_id id r.1 ≡ some moved)
transition-advances_other uuid timestamp id next input t current h found allowed clean fresh other =
    elim (transition-advances uuid timestamp id next input t current h found allowed clean fresh) [
      | inl (error, aborted, fails) ↦ absurd (cc (rw other at aborted))
      | inr (ds, recorded, got, after, kept) ↦ (got, after)
    ]

append_job_event-found :
    (uuid timestamp id event_type payload : Text) (t : Tables) (j : StoredJob)
    → find_by_id id t ≡ some j
    → append_job_event uuid timestamp id event_type payload t
      ≡ append_to uuid timestamp id event_type payload t
unfolding append_job_event get
append_job_event-found uuid timestamp id event_type payload t j found =
    rw (found, append_job_event, get) refl

append_event-appends :
    (e : NewEvent) (t : Tables)
    → any (event_conflicts e (max_sequence e.job_id t.events + 1)) t.events ≡ false
    → any (has_id e.job_id) t.jobs ≡ true
    → (append_event e t).0 ≡ ok (row e (max_sequence e.job_id t.events + 1))
unfolding append_event transaction insert_job_event next_job_event_sequence
append_event-appends e t free there = rw (free, there) refl

-- An event of a job that exists is added, if its type is within its bounds and its identifier is new.
pub append_job_event-appends :
    (uuid timestamp id event_type payload : Text) (t : Tables) (j : StoredJob)
    → find_by_id id t ≡ some j
    → (is_empty (trim event_type) || ltb 80 (length (trim event_type))) ≡ false
    → any (λ f. text_eq f.id uuid) t.events ≡ false
    → (e : StoredJobEvent) × ((append_job_event uuid timestamp id event_type payload t).0 ≡ ok e)
unfolding append_to find_by_id
append_job_event-appends uuid timestamp id event_type payload t j found bounded fresh =
    let e = new_payload_event uuid timestamp id (trim event_type) payload in
    let free = sequence-free e (max_sequence id t.events + 1) t.events fresh (omega arith) in
    let added = append_event-appends e t free (find-any id t.jobs j found) in
    (
      row e (max_sequence id t.events + 1),
      ap (λ r. r.0) (append_job_event-found uuid timestamp id event_type payload t j found)
          ∙ rw bounded (ground (arith, added)),
    )
