-- ===== src/Jobs/Final.antt =====
-- Terminal jobs in apps/api/src/jobs.ts.
use ollama_remote_control.Prelude.{
  ◌≡◌, refl, ap, ◌∙◌, inl, inr, true, false, some, List, [], ◌∷◌, ◌++◌, arith, Bool-cases, find,
}
use ollama_remote_control.Modelfile.Chars.{Text}
use ollama_remote_control.Jobs.Data.{JobState, StoredJob}
use ollama_remote_control.Jobs.Store.{Tables, has_id, in_state, find_by_id}
use ollama_remote_control.Jobs.Rows.{same_state→eq}
use ollama_remote_control.Jobs.Service.{is_terminal, may_become, transition_update}
use ollama_remote_control.Jobs.Moves.{find-update_rows, moved_row}
use ollama_remote_control.Jobs.Safety.{
  Call, create_call, transition_call, append_call, call, calls, create-cases, transition-cases,
  append-cases,
}

find-concat-some :
    (id : Text) (js : List StoredJob) (j k : StoredJob)
    → find (has_id id) js ≡ some k
    → find (has_id id) (js ++ j ∷ []) ≡ some k
find-concat-some id [] j k e = cc
find-concat-some id (i ∷ is) j k e = elim (Bool-cases (has_id id i)) [
  | inl own ↦ rw (own, find) (rw (own, find) at e)
  | inr other ↦ rw (other, find) (find-concat-some id is j k (rw (other, find) at e))
]

stays_out :
    (moved : Text) (expected next : JobState) (j : StoredJob)
    → is_terminal j.state ≡ true
    → may_become expected next ≡ true
    → in_state moved expected j ≡ false
stays_out moved expected next j ended allowed = ground (arith, same_state→eq j.state expected)

call-keeps_terminal :
    (c : Call) (id : Text) (j : StoredJob) (t : Tables)
    → is_terminal j.state ≡ true
    → find_by_id id t ≡ some j
    → find_by_id id (call c t) ≡ some j
unfolding call find_by_id
call-keeps_terminal (create_call job_uuid event_uuid timestamp input) id j t ended found =
    elim (create-cases job_uuid event_uuid timestamp input t) [
      | inl (same, fails) ↦ ap (λ x. find (has_id id) x.jobs) same ∙ found
      | inr (done, rows, free) ↦
          ap (λ x. find (has_id id) x.jobs) rows ∙ find-concat-some id t.jobs _ j found
    ]
call-keeps_terminal (transition_call uuid timestamp moved next input) id j t ended found =
    elim (transition-cases uuid timestamp moved next input t) [
      | inl (same, fails) ↦ ap (λ x. find (has_id id) x.jobs) same ∙ found
      | inr (current, ds, before, recorded, got, rows, allowed, there) ↦
          let u = transition_update current next input timestamp in
          let unmoved : moved_row moved current.state u j ≡ j =
            rw (stays_out moved current.state next j ended allowed) refl in
          ap (λ x. find (has_id id) x.jobs) rows
          ∙ find-update_rows moved current.state u id t.jobs
          ∙ rw found (ap some unmoved)
    ]
call-keeps_terminal (append_call uuid timestamp of event_type payload) id j t ended found =
    elim (append-cases uuid timestamp of event_type payload t) [
      | inl (same, fails) ↦ ap (λ x. find (has_id id) x.jobs) same ∙ found
      | inr (done, rows, there) ↦ ap (λ x. find (has_id id) x.jobs) rows ∙ found
    ]

-- A job that has succeeded, failed or been cancelled keeps its row, all fields of it, through every sequence
-- of calls.
pub calls-keep_terminal :
    (cs : List Call) (id : Text) (j : StoredJob) (t : Tables)
    → is_terminal j.state ≡ true
    → find_by_id id t ≡ some j
    → find_by_id id (calls cs t) ≡ some j
unfolding calls
calls-keep_terminal [] id j t ended found = found
calls-keep_terminal (c ∷ cs) id j t ended found =
    calls-keep_terminal cs id j (call c t) ended (call-keeps_terminal c id j t ended found)
