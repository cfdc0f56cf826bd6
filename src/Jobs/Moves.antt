-- ===== src/Jobs/Moves.antt =====
-- `transition` and `appendEvent` of apps/api/src/jobs.ts keep the tables well formed.
use mathlib.Core.Option.{some_inj}
use ollama_remote_control.Prelude.{
  ◌+◌, ◌≡◌, refl, sym, ap, ◌∙◌, inl, inr, true, false, none, some, List, [], ◌∷◌, ◌++◌, arith,
  Bool-cases, Option-cases, text_eq, text_eq→eq, text_eq_self, if◌then◌else◌, any, find, All,
}
use ollama_remote_control.Modelfile.Chars.{Text}
use ollama_remote_control.Jobs.Data.{
  JobState, StoredJob, NewEvent, StoredJobEvent, JobTransitionUpdate, TransitionInput,
  state_payload, json_payload,
}
use ollama_remote_control.Jobs.Deployments.{Deployment}
use ollama_remote_control.Jobs.Store.{
  Tables, is_active, has_id, in_state, apply_update, update_rows, find_by_id, max_sequence,
  next_job_event_sequence,
}
use ollama_remote_control.Jobs.Rows.{
  same_state_self, distinct_locks-update_rows, distinct_ids-update_rows, any-has_id-update_rows,
  count_events, Numbered, Numbered-concat, next-sequence,
}
use ollama_remote_control.Jobs.Outcomes.{row, with_event, moved_tables}
use ollama_remote_control.Jobs.Service.{is_terminal, may_become}
use ollama_remote_control.Jobs.Invariant.{
  announced, last_state, last_state-concat, is_some, IsDated, WellFormed, count_events-concat,
}

-- The events of a job that exists go on being numbered, and belong to jobs that exist.
module _ (t : Tables) (e : NewEvent) (h : WellFormed t) where
  next_event : StoredJobEvent
  next_event = row e (next_job_event_sequence e.job_id t)

  next_event-Numbered : Numbered (λ i. 0) (t.events ++ next_event ∷ [])
  unfolding next_event next_job_event_sequence
  next_event-Numbered =
      Numbered-concat (λ i. 0) t.events (row e (max_sequence e.job_id t.events + 1)) h.numbered
        (omega (arith, next-sequence e.job_id t.events h.numbered))

  next_event-owned :
      (js : List StoredJob) (id : Text)
      → any (has_id e.job_id) js ≡ true
      → (any (has_id id) js ≡ false → any (has_id id) t.jobs ≡ false)
      → any (has_id id) js ≡ false
      → count_events id (t.events ++ next_event ∷ []) ≡ 0
  unfolding next_event
  next_event-owned js id there less none_of = ground (
    arith,
    count_events-concat id t.events (row e (next_job_event_sequence e.job_id t)),
    h.owned id,
    text_eq→eq e.job_id id,
  )

pub find-has_id :
    (id : Text) (js : List StoredJob) {j : StoredJob}
    → find (has_id id) js ≡ some j
    → text_eq j.id id ≡ true
find-has_id id [] e = cc
find-has_id id (i ∷ is) {j} e = elim (Bool-cases (has_id id i)) [
  | inl own ↦
      let same : some i ≡ some j = rw (own, find) at e in
      ap (λ k. text_eq k.id id) (sym (some_inj.0 same)) ∙ own
  | inr other ↦ find-has_id id is (rw (other, find) at e)
]

module _ (id : Text) (expected : JobState) (u : JobTransitionUpdate) where
  abbrev pub moved_row : StoredJob → StoredJob
  moved_row j = if in_state id expected j then apply_update u j else j

  pub find-update_rows :
      (other : Text) (js : List StoredJob)
      → find (has_id other) (update_rows id expected u js)
        ≡ elim (find (has_id other) js) [ some k ↦ some (moved_row k) | none ↦ none ]
  unfolding update_rows
  find-update_rows other [] = refl
  find-update_rows other (i ∷ is) = ground (arith, find-update_rows other is)

  All-update_rows :
      (P : StoredJob → Type 0)
      → ((j : StoredJob) → P j → P (moved_row j))
      → (js : List StoredJob) → All P js
      → All P (update_rows id expected u js)
  unfolding update_rows
  All-update_rows P keep [] h = tt
  All-update_rows P keep (j ∷ js) h = (keep j h.0, All-update_rows P keep js h.1)

-- A transition of the job `current`, which is in a state that may become that of the update.
module _ (id : Text) (current : StoredJob) (u : JobTransitionUpdate) (e : NewEvent)
    (i : TransitionInput) (t : Tables) (h : WellFormed t) (found : find_by_id id t ≡ some current)
    (allowed : may_become current.state u.state ≡ true) (own : text_eq e.job_id id ≡ true)
    (dated : is_some u.finished_at ≡ is_terminal u.state)
    (pay : e.payload ≡ state_payload u.state i)
    (there : any (has_id e.job_id) (update_rows id current.state u t.jobs) ≡ true) where
  keeps_idle : is_active u.state ≡ true → is_active current.state ≡ true
  keeps_idle = ground arith

  moved_row-IsDated : (j : StoredJob) → IsDated j → IsDated (moved_row id current.state u j)
  moved_row-IsDated j = ground arith

  announced_after :
      (other : Text) (j : StoredJob)
      → find (has_id other) (update_rows id current.state u t.jobs) ≡ some j
      → announced other (next_event t e h) (last_state other none t.events) ≡ some j.state
  unfolding find_by_id next_event
  announced_after other j in_rows =
      let rows = find-update_rows id current.state u other t.jobs in
      let own_id : e.job_id ≡ id = text_eq→eq e.job_id id own in
      elim (Bool-cases (text_eq e.job_id other)) [
        | inl same ↦
            let here : id ≡ other = sym own_id ∙ text_eq→eq e.job_id other same in
            let row_here : find (has_id other) t.jobs ≡ some current =
              sym (ap (λ o. find (has_id o) t.jobs) here) ∙ found in
            let row_id : text_eq current.id id ≡ true = find-has_id id t.jobs found in
            let row_state : (moved_row id current.state u current).state ≡ u.state =
              rw (row_id, same_state_self current.state) refl in
            let row_j : some (moved_row id current.state u current) ≡ some j =
              sym (rw row_here at rows) ∙ in_rows in
            rw (same, pay) (ap some (sym row_state ∙ ap (λ k. k.state) (some_inj.0 row_j)))
        | inr other_job ↦ elim (Option-cases (find (has_id other) t.jobs)) [
          | inl no_row ↦ absurd (cc (rows, in_rows, no_row))
          | inr (k, row_k) ↦
              let k_id : text_eq k.id other ≡ true = find-has_id other t.jobs row_k in
              let not_id : text_eq k.id id ≡ false =
                ground
                  (arith, text_eq→eq k.id other k_id, text_eq→eq k.id id, text_eq_self other) in
              let row_j : some (moved_row id current.state u k) ≡ some j =
                sym (rw row_k at rows) ∙ in_rows in
              let unmoved : (moved_row id current.state u k).state ≡ k.state = rw not_id refl in
              rw other_job (
                h.announced_last other k row_k
                ∙ ap some (sym unmoved ∙ ap (λ k. k.state) (some_inj.0 row_j)))
        ]
      ]

  pub moved-WellFormed :
      (ds : List Deployment) → WellFormed (with_event e (moved_tables id current.state u ds t))
  unfolding find_by_id next_event next_job_event_sequence
  moved-WellFormed ds = record {
    ids = distinct_ids-update_rows id current.state u t.jobs h.ids;
    locked_once = distinct_locks-update_rows id current.state u keeps_idle t.jobs h.locked_once;
    numbered = next_event-Numbered t e h;
    owned = λ other none_of.
        next_event-owned t e h (update_rows id current.state u t.jobs) other there
          (λ r. sym (any-has_id-update_rows id current.state u other t.jobs) ∙ r) none_of;
    dated = All-update_rows id current.state u IsDated moved_row-IsDated t.jobs h.dated;
    announced_last = λ other j in_rows.
        last_state-concat other none t.events (next_event t e h) ∙ announced_after other j in_rows;
  }

-- An event that announces no state.
pub appended-WellFormed :
    (e : NewEvent) (p : Text) (t : Tables)
    → e.payload ≡ json_payload p
    → any (has_id e.job_id) t.jobs ≡ true
    → WellFormed t
    → WellFormed (with_event e t)
unfolding find_by_id next_event next_job_event_sequence
appended-WellFormed e p t pay there h = record {
  ids = h.ids;
  locked_once = h.locked_once;
  numbered = next_event-Numbered t e h;
  owned = λ other none_of. next_event-owned t e h t.jobs other there (λ r. r) none_of;
  dated = h.dated;
  announced_last = λ other j in_rows.
      last_state-concat other none t.events (next_event t e h)
      ∙ rw pay (ground (arith, h.announced_last other j in_rows));
}
