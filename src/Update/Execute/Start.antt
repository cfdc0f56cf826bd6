-- ===== src/Update/Execute/Start.antt =====
-- The job that `execute` (apps/api/src/update-orchestrator.ts) creates, or does not.
use ollama_remote_control.Prelude.{
  ◌+◌, ◌≡◌, ◌≢◌, refl, sym, ap, ◌∙◌, inl, inr, false, some, List, [], ◌∷◌, ◌++◌, arith, text_eq,
  text_eq_self, any, find, Result, ok, err,
}
use mathlib.Core.Path.{subst}
use ollama_remote_control.Modelfile.Chars.{trim}
use ollama_remote_control.Jobs.Data.{queued, StoredJob}
use ollama_remote_control.Jobs.Deployments.{model_create}
use ollama_remote_control.Jobs.Store.{has_id, conflicts, find_by_id}
use ollama_remote_control.Jobs.Service.{CreateJobInput, JobError, queued_job, new_state_event}
use ollama_remote_control.Jobs.Invariant.{WellFormed, find-concat, any-find}
use ollama_remote_control.Jobs.Safety.{create_call, call, call-WellFormed, create-cases}
use ollama_remote_control.Update.Effects.{World}
use ollama_remote_control.Update.Stores.{Supply, Thrown, job_error, thrown_job, create_job}
use ollama_remote_control.Update.Triples.{Meets, Triple}
use ollama_remote_control.Update.Execute.Alive.{Alive, IsFresh, IsDistinct, fresh_behind}

found_last :
    (js : List StoredJob) (job : StoredJob)
    → conflicts job js ≡ false
    → find (has_id job.id) (js ++ job ∷ []) ≡ some job
unfolding conflicts
found_last js job free =
    let none_of : any (has_id job.id) js ≡ false = ground arith in
    let absent = any-find job.id js none_of in
    find-concat job.id js job ∙ rw (absent, text_eq_self job.id) refl

-- A call that does not answer a value throws.
failed_call :
    {R A : Type 0} (Q : A → World R → Type 0) (X : Thrown → World R → Type 0)
    (r : Result JobError A) (v : World R)
    → ((a : A) → r ≢ ok a)
    → ((e : Thrown) → X e v)
    → Meets Q X (thrown_job r, v)
failed_call Q X (ok a) v fails h = absurd (fails a refl)
failed_call Q X (err e) v fails h = h (job_error e)

module _ {R : Type 0} (s : Supply) (distinct : IsDistinct s) (input : CreateJobInput) (w : World R)
    (good : WellFormed w.tables) (fresh : IsFresh s w)
    (other : text_eq (trim input.kind) model_create ≡ false) where
  abbrev Started : StoredJob → World R → Type 0
  Started job v = (job.id ≡ s.uuid w.draws) × Alive s (s.uuid w.draws) queued v

  abbrev Unchanged : Thrown → World R → Type 0
  Unchanged e v = v.tables ≡ w.tables

  created_at : Meets Started Unchanged (create_job s input w)
  unfolding create_job call find_by_id new_state_event
  created_at =
      let job_uuid = s.uuid w.draws in
      let event_uuid = s.uuid (w.draws + 1) in
      let now = s.clock w.draws in
      let job = queued_job job_uuid now (trim input.kind) input in
      let kept = call-WellFormed (create_call job_uuid event_uuid now input) w.tables good in
      elim (create-cases job_uuid event_uuid now input w.tables) [
        | inl (same, fails) ↦ failed_call Started Unchanged _ _ fails (λ e. same)
        | inr (done, rows, free) ↦ rw done (
          refl,
          record {
            well_formed = kept;
            fresh = λ k le. rw rows (
                fresh_behind s distinct w.tables.events _ (w.draws + 1) k refl (omega arith)
                  (fresh k (omega arith)));
            stands = (
              job,
              ap (λ t. find (has_id job_uuid) t.jobs) rows ∙ found_last w.tables.jobs job free,
              refl,
              other,
            );
          },
        )
      ]

  pub create_job-Started : Triple (λ v. v ≡ w) (create_job s input) Started Unchanged
  create_job-Started = record {
    at =
        λ v same. subst (λ x. Meets Started Unchanged (create_job s input x)) (sym same) created_at;
  }
