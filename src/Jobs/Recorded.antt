-- ===== src/Jobs/Recorded.antt =====
-- The deployments that packages/db/migrations/0010_modelfile_deployments.sql keeps of the jobs of
-- apps/api/src/jobs.ts that created a model.
use mathlib.Core.List.{Mem, mem-append_left, mem-append_right, mem-cons_self}
use mathlib.Core.Option.{some_inj}
use mathlib.Core.Path.{subst}
use ollama_remote_control.Prelude.{
  ◌≡◌, refl, sym, ap, ◌∙◌, inl, inr, true, not, ◌||◌, some, List, [], ◌∷◌, ◌++◌, arith, Bool-cases,
  Option-cases, text_eq, text_eq→eq, any, find, ok, bind-eq-ok, require, ok-injective, and-left,
}
use ollama_remote_control.Modelfile.Chars.{Text, trim}
use ollama_remote_control.Jobs.Data.{
  JobState, queued, succeeded, StoredJob, JobTransitionUpdate, TransitionInput,
}
use ollama_remote_control.Jobs.Deployments.{
  SqlFunctions, Revision, Deployment, deployment_of, meets_checks, is_revision, model_create,
  insert_deployment, record_deployment, needs_deployment, is_null, result_incomplete,
}
use ollama_remote_control.Jobs.Store.{
  Tables, has_id, in_state, apply_update, update_rows, find_by_id,
}
use ollama_remote_control.Jobs.Service.{
  may_become, queued_job, transition_update, new_state_event, no_input, new_payload_event,
}
use ollama_remote_control.Jobs.Outcomes.{with_job, with_event, moved_tables}
use ollama_remote_control.Jobs.Invariant.{WellFormed, find-concat}
use ollama_remote_control.Jobs.Moves.{moved_row, find-update_rows, find-has_id}
use ollama_remote_control.Jobs.Safety.{
  Call, create_call, transition_call, append_call, call, calls, call-WellFormed, create-cases,
  transition-cases, append-cases,
}
use ollama_remote_control.Jobs.Evidence.{evidence, record_deployments-single}

-- The job that a deployment names, and its ending.
pub record Describes (d : Deployment) (j : StoredJob) : Type 0 where
  pub source : d.source_create_job_id ≡ j.id
  pub target : d.target_id ≡ j.target_id
  pub actor : d.actor_user_id ≡ j.actor_user_id
  pub verified : j.finished_at ≡ some d.verified_at

-- A deployment of the job stands in the table, meets its checks and names a revision with its hash.
abbrev pub Documented : Tables → StoredJob → Type 0
Documented t j =
    (d : Deployment) × Mem d t.deployments
    × Describes d j
    × (any (is_revision d) t.revisions ≡ true)
    × (meets_checks t.sql d ≡ true)

deployment_of-Describes :
    (f : SqlFunctions) (j : StoredJob) {d : Deployment} → deployment_of f j ≡ ok d → Describes d j
unfolding deployment_of
deployment_of-Describes f j h = ground arith

insert_deployment-eq-ok :
    (f : SqlFunctions) (revisions : List Revision) (jobs : List StoredJob) (ds es : List Deployment)
    (d : Deployment)
    → insert_deployment f revisions jobs ds d ≡ ok es
    → (es ≡ ds ++ d ∷ []) × (any (is_revision d) revisions ≡ true) × (meets_checks f d ≡ true)
unfolding insert_deployment
insert_deployment-eq-ok f revisions jobs ds es d h = ground arith

-- What the trigger leaves: the deployments that there were, and one of the job.
record_deployment-documents :
    (t : Tables) (jobs : List StoredJob) (es : List Deployment) (j : StoredJob)
    → record_deployment t.sql t.revisions jobs t.deployments j ≡ ok es
    → (d : Deployment) × (es ≡ t.deployments ++ d ∷ [])
      × Describes d j
      × (any (is_revision d) t.revisions ≡ true)
      × (meets_checks t.sql d ≡ true)
unfolding record_deployment
record_deployment-documents t jobs es j h =
    let (_, _, h₁) =
      bind-eq-ok (require (not (is_null j.finished_at || result_incomplete t.sql j.result_json)) _)
        _ h in
    let (d, made, h₂) = bind-eq-ok (deployment_of t.sql j) _ h₁ in
    let (grown, known, checked) =
      insert_deployment-eq-ok t.sql t.revisions jobs t.deployments es d h₂ in
    (d, grown, deployment_of-Describes t.sql j made, known, checked)

-- A longer table of deployments documents what the shorter one does.
Documented-grows :
    (t t' : Tables) (j : StoredJob)
    → ((d : Deployment) → Mem d t.deployments → Mem d t'.deployments)
    → t'.revisions ≡ t.revisions
    → t'.sql ≡ t.sql
    → Documented t j
    → Documented t' j
Documented-grows t t' j more revisions sql (d, there, describes, known, checked) =
    (d, more d there, describes, rw revisions known, rw sql checked)

module _ (id : Text) (current : StoredJob) (u : JobTransitionUpdate) (t : Tables)
    (ds : List Deployment) (recorded : evidence id current u t ≡ ok ds) where
  evidence-documents :
      needs_deployment current (apply_update u current) ≡ true
      → (d : Deployment) × (ds ≡ t.deployments ++ d ∷ [])
        × Describes d (apply_update u current)
        × (any (is_revision d) t.revisions ≡ true)
        × (meets_checks t.sql d ≡ true)
  evidence-documents needed =
      record_deployment-documents t (update_rows id current.state u t.jobs) ds
        (apply_update u current) (rw needed at recorded)

  evidence-grows : (d : Deployment) → Mem d t.deployments → Mem d ds
  evidence-grows d there = elim (Bool-cases (needs_deployment current (apply_update u current))) [
    | inl needed ↦
        let (_, grown, _, _, _) = evidence-documents needed in rw grown (mem-append_left _ there)
    | inr not_needed ↦
        let same : ok t.deployments ≡ ok ds = rw not_needed at recorded in
        subst (Mem d) (ok-injective same) there
  ]

-- Every job of the kind model-create that has succeeded is documented.
abbrev pub Evidenced : Tables → Type 0
Evidenced t =
    (id : Text) (j : StoredJob)
    → find_by_id id t ≡ some j
    → text_eq j.kind model_create ≡ true
    → j.state ≡ succeeded
    → Documented t j

-- The tables that hold the rows behind a transition, and the deployments of its trigger.
module _ (id : Text) (current : StoredJob) (u : JobTransitionUpdate) (t : Tables)
    (ds : List Deployment) (recorded : evidence id current u t ≡ ok ds)
    (found : find_by_id id t ≡ some current) (allowed : may_become current.state u.state ≡ true)
    (h : Evidenced t) where
  moved_needs :
      text_eq current.kind model_create ≡ true
      → u.state ≡ succeeded
      → needs_deployment current (apply_update u current) ≡ true
  moved_needs kind done = ground arith

  after_update-Documented :
      (t' : Tables)
      → t'.deployments ≡ ds
      → t'.revisions ≡ t.revisions
      → t'.sql ≡ t.sql
      → (other : Text) (j k : StoredJob) → find_by_id other t ≡ some k
      → moved_row id current.state u k ≡ j
      → text_eq j.kind model_create ≡ true
      → j.state ≡ succeeded
      → Documented t' j
  unfolding find_by_id
  after_update-Documented t' kept revisions sql other j k row moved kind done =
      elim (Bool-cases (in_state id current.state k)) [
        | inl in_it ↦
            let k_id : text_eq k.id id ≡ true = and-left _ _ in_it in
            let same : other ≡ id =
              sym (text_eq→eq k.id other (find-has_id other t.jobs row))
              ∙ text_eq→eq k.id id k_id in
            let k_is : k ≡ current =
              some_inj.0 (sym row ∙ ap (λ o. find (has_id o) t.jobs) same ∙ found) in
            let j_is : apply_update u current ≡ j =
              ap (apply_update u) (sym k_is) ∙ (rw in_it at moved) in
            let needed =
              moved_needs (ap (λ (x : StoredJob). text_eq x.kind model_create) j_is ∙ kind)
                (ap (λ (x : StoredJob). x.state) j_is ∙ done) in
            let (d, grown, describes, known, checked) =
              evidence-documents id current u t ds recorded needed in
            (
              d,
              rw kept (rw grown (mem-append_right t.deployments mem-cons_self)),
              subst (Describes d) j_is describes,
              rw revisions known,
              rw sql checked,
            )
        | inr out ↦
            let j_is : k ≡ j = rw out at moved in
            Documented-grows t t' j
              (λ d there. rw kept (evidence-grows id current u t ds recorded d there)) revisions sql
              (h other j (row ∙ ap some j_is) kind done)
      ]

-- A succeeded job was there before a queued one was added.
found_before :
    (id : Text) (js : List StoredJob) (job j : StoredJob)
    → find (has_id id) (js ++ job ∷ []) ≡ some j
    → job.state ≡ queued
    → j.state ≡ succeeded
    → find (has_id id) js ≡ some j
found_before id js job j found waits ended = ground (arith, find-concat id js job)

-- A row behind an update comes from one in front of it.
moved_from :
    (id : Text) (expected : JobState) (u : JobTransitionUpdate) (other : Text) (js : List StoredJob)
    (j : StoredJob)
    → find (has_id other) (update_rows id expected u js) ≡ some j
    → (k : StoredJob) × (find (has_id other) js ≡ some k) × (moved_row id expected u k ≡ j)
moved_from id expected u other js j after =
    let rows = find-update_rows id expected u other js in
    elim (Option-cases (find (has_id other) js)) [
      | inl no_row ↦ absurd (cc (rows, after, no_row))
      | inr (k, row) ↦ (k, row, some_inj.0 (sym (rw row at rows) ∙ after))
    ]

transition_update-state :
    (current : StoredJob) (next : JobState) (input : TransitionInput) (timestamp : Text)
    → (transition_update current next input timestamp).state ≡ next
unfolding transition_update
transition_update-state current next input timestamp = refl

call-Evidenced : (c : Call) (t : Tables) → WellFormed t → Evidenced t → Evidenced (call c t)
unfolding call find_by_id
call-Evidenced (create_call job_uuid event_uuid timestamp input) t good h =
    elim (create-cases job_uuid event_uuid timestamp input t) [
      | inl (same, fails) ↦ subst Evidenced (sym same) h
      | inr (done, rows, free) ↦ subst Evidenced (sym rows) λ id j found kind ended.
          let job = queued_job job_uuid timestamp (trim input.kind) input in
          let event = new_state_event event_uuid job_uuid queued timestamp no_input in
          Documented-grows t (with_job job event t) j (λ d there. there) refl refl
            (h id j (found_before id t.jobs job j found refl ended) kind ended)
    ]
call-Evidenced (transition_call uuid timestamp id next input) t good h =
    elim (transition-cases uuid timestamp id next input t) [
      | inl (same, fails) ↦ subst Evidenced (sym same) h
      | inr (current, ds, found, records, got, rows, allowed, there) ↦
          subst Evidenced (sym rows) λ other j after kind ended.
            let u = transition_update current next input timestamp in
            let recorded =
              sym (record_deployments-single id u t _ t.jobs current t.deployments good.ids found)
              ∙ records in
            let (k, row, moved) = moved_from id current.state u other t.jobs j after in
            let next_is = transition_update-state current next input timestamp in
            let forward : may_become current.state u.state ≡ true =
              ap (may_become current.state) next_is ∙ allowed in
            let event = new_state_event uuid id next timestamp input in
            after_update-Documented id current u t ds recorded found forward h
              (with_event event (moved_tables id current.state u ds t)) refl refl refl other j k row
              moved kind ended
    ]
call-Evidenced (append_call uuid timestamp of event_type payload) t good h =
    elim (append-cases uuid timestamp of event_type payload t) [
      | inl (same, fails) ↦ subst Evidenced (sym same) h
      | inr (done, rows, there) ↦ subst Evidenced (sym rows) λ id j found kind ended.
          let event = new_payload_event uuid timestamp of (trim event_type) payload in
          Documented-grows t (with_event event t) j (λ d there. there) refl refl
            (h id j found kind ended)
    ]

-- After any sequence of calls on tables on which the invariant of the jobs holds and every succeeded job of the
-- kind model-create is documented, that is so again: a deployment names the job, its target, its user and its
-- finishing time, names a revision that exists with its hash, and meets the checks of its table.
pub calls-Evidenced :
    (cs : List Call) (t : Tables) → WellFormed t → Evidenced t → Evidenced (calls cs t)
unfolding calls
calls-Evidenced [] t good h = h
calls-Evidenced (c ∷ cs) t good h =
    calls-Evidenced cs (call c t) (call-WellFormed c t good) (call-Evidenced c t good h)
