-- ===== src/Update/Execute/Ending.antt =====
-- However `execute` (apps/api/src/update-orchestrator.ts) ends, its job ends with it.
use mathlib.Core.Path.{subst}
use ollama_remote_control.Prelude.{
  ◌≡◌, refl, sym, inl, inr, ◌⊎◌, true, false, not, ◌||◌, ltb, length, Option, none, some, text_eq,
}
use ollama_remote_control.Modelfile.Chars.{
  Text, codes, is_empty, trim, trim_start, trim_end, is_space,
}
use ollama_remote_control.Jobs.Data.{JobState, queued, running, succeeded, failed, TransitionInput}
use ollama_remote_control.Jobs.Invariant.{WellFormed}
use ollama_remote_control.Jobs.Service.{no_input}
use ollama_remote_control.Jobs.Deployments.{model_create}
use ollama_remote_control.Update.Effects.{World, ◌>>◌, quietly, catch}
use ollama_remote_control.Update.Stores.{
  FailureDescriptor, Supply, Thrown, transition_job, record_audit,
}
use ollama_remote_control.Update.Triples.{
  Meets, Triple, Keeps, Triple-if, Triple-given, bind, both, weaken, Triple-quietly, Triple-throw,
  Triple-pure, Triple-catch, Triple-with_progress,
}
use ollama_remote_control.Update.Orchestrator.{
  RemoteOperations, PreparedUpdate, ReplacementResult, Progress, fail_without_rollback,
}
use ollama_remote_control.Update.Execute.{
  conclude, forward, restore, report_restored, is_restored, report_rollback_failure,
  candidate_or_resolved, locate, roll_back, recover, execute_prepared,
}
use ollama_remote_control.Update.Execute.Alive.{
  Alive, StandsAt, IsDistinct, IsFresh, append_to_job-adds, transition_job-Alive,
  StandsAt-IsAboutJobs, record_audit-Keeps,
}
use ollama_remote_control.Update.Execute.Trust.{
  Trusted, IsTrusted, Trusted-restored, restore-Trusted,
}
use ollama_remote_control.Update.Execute.Start.{create_job-Started}
use ollama_remote_control.Update.Execute.Steps.{
  IsQuiet, revalidate-Alive, replace_forward-Alive, adopt-Alive, restore-Alive,
  find_last_known-Alive,
}

stage_type : (is_empty (trim (codes "stage")) || ltb 80 (length (trim (codes "stage")))) ≡ false
unfolding trim trim_start trim_end is_space
stage_type = refl

update_kind : text_eq (trim (codes "container.update")) model_create ≡ false
unfolding trim trim_start trim_end is_space
update_kind = refl

module _ {R : Type 0} (s : Supply) (remote : RemoteOperations R) (p : PreparedUpdate)
    (actor : Text) where
  module _ (distinct : IsDistinct s) (id : Text) (quiet : IsQuiet (Alive s id running) remote) where
    abbrev Running : World R → Type 0
    Running = Alive s id running

    abbrev Failed : World R → Type 0
    Failed = StandsAt id failed

    fail :
        (input : TransitionInput)
        → Triple Running (transition_job s id failed input) (λ _. Failed) (λ _ _. ⊥)
    fail input =
        weaken (transition_job-Alive s distinct id running failed input refl refl) (λ w h. h)
          (λ a w h. h.stands) (λ e w h. h)

    fail_quietly :
        {F : Type 0} {X : F → World R → Type 0} (input : TransitionInput)
        → Triple Running (quietly (transition_job s id failed input)) (λ _. Failed) X
    fail_quietly input =
        Triple-quietly (weaken (fail input) (λ w h. h) (λ a w h. h) (λ e w h. absurd h))

    audit_quietly :
        {F : Type 0} {X : F → World R → Type 0} (state : JobState) (input : _)
        → Triple
            (StandsAt {R = R} id state)
            (quietly (record_audit s input))
            (λ _. StandsAt id state)
            X
    audit_quietly state input =
        Triple-quietly (record_audit-Keeps (StandsAt-IsAboutJobs id state) s input)

    fail_without_rollback-Failed :
        {A : Type 0} {Q : A → World R → Type 0} (failure : FailureDescriptor)
        → Triple Running (fail_without_rollback s remote p actor id failure) Q (λ _. Failed)
    unfolding fail_without_rollback
    fail_without_rollback-Failed failure =
        bind (bind (fail_quietly _) (λ _. audit_quietly failed _)) (λ _. Triple-throw _ (λ w h. h))

    locate-Failed :
        (failure : FailureDescriptor) (progress : Progress)
        → Triple Running (locate s remote p actor id failure progress) (λ _. Running) (λ _. Failed)
    unfolding locate
    locate-Failed failure progress =
        Triple-catch (go progress.candidate_container_id)
          (λ e. bind (fail_quietly _) (λ _. Triple-throw _ (λ w h. h)))
      where
        go : (o : Option Text) → Keeps Running (candidate_or_resolved s remote p actor o)
        go (some c) = Triple-pure c (λ w h. h)
        go none = quiet.on_resolve p.compose

    -- The error that `report_restored` ends in.
    abbrev Reported : Thrown → World R → Type 0
    Reported e w = Failed w × (is_restored e ≡ true)

    report_restored-Reported :
        (failure : FailureDescriptor) (current restored : Text)
        → Triple Running
            (report_restored s remote p actor id failure current restored)
            (λ _ _. ⊥)
            Reported
    unfolding report_restored
    report_restored-Reported failure current restored =
        bind (weaken (fail _) (λ w h. h) (λ a w h. h) (λ e w h. absurd h))
          λ _. bind (audit_quietly failed _) λ _. Triple-throw _ (λ w h. (h, refl))

    -- What a rollback throws: the job has been reported, or still runs.
    abbrev Broken : Thrown → World R → Type 0
    Broken e w = Reported e w ⊎ (Running w × Trusted e)

    report_rollback_failure-Failed :
        (failure : FailureDescriptor) (current : Text) (progress : Progress) (e : Thrown)
        → Triple
            (Broken e)
            (report_rollback_failure s remote p actor id failure current progress e)
            (λ _ _. ⊥)
            (λ _. Failed)
    unfolding report_rollback_failure
    report_rollback_failure-Failed failure current progress e =
        Triple-if (is_restored e) _ _
          (λ restored. Triple-throw e λ w h. elim h [
            | inl (done, _) ↦ done
            | inr (_, other) ↦ absurd (cc (restored, Trusted-restored e other))
          ])
          (λ other.
            bind
              (weaken (find_last_known-Alive s remote p actor distinct id quiet current progress)
                (λ w h. elim h [
                  | inl (_, restored) ↦ absurd (cc (restored, other))
                  | inr (runs, _) ↦ runs
                ])
                (λ a w h. h) (λ e w h. absurd h))
              (λ last_known.
                bind (bind (fail_quietly _) (λ _. audit_quietly failed _))
                  (λ _. Triple-throw _ (λ w h. h))))

    module _ (trusted : IsTrusted remote) where
      restore-Broken :
          (current : Text) (progress : Progress)
          → Triple Running
              (restore s remote p actor id current progress)
              (λ _. Running)
              (λ e w. Running w × Trusted e)
      restore-Broken current progress =
          weaken
            (both (restore-Alive s remote p actor distinct id quiet id current progress)
              (restore-Trusted s remote p actor trusted id current progress))
            (λ w h. (h, tt)) (λ a w h. h.0) (λ e w h. h)

      roll_back-Failed :
          (failure : FailureDescriptor) (current : Text) (progress : Progress)
          → Triple Running
              (roll_back s remote p actor id failure current progress)
              (λ _ _. ⊥)
              (λ _. Failed)
      unfolding roll_back
      roll_back-Failed failure current progress =
          bind
            (bind
              (weaken (append_to_job-adds s distinct id running (codes "stage") _ stage_type)
                (λ w h. h) (λ a w h. h) (λ e w h. absurd h))
              (λ _. Triple-pure tt (λ w h. h)))
            (λ _.
              Triple-catch
                (bind
                  (weaken (restore-Broken current progress) (λ w h. h) (λ a w h. h)
                    (λ e w h. inr h))
                  (λ restored.
                    weaken (report_restored-Reported failure current restored) (λ w h. h)
                      (λ a w h. h) (λ e w h. inl h)))
                (λ e. report_rollback_failure-Failed failure current progress e))

      recover-Failed :
          (e : Thrown × Progress)
          → Triple Running (recover s remote p actor id e) (λ _ _. ⊥) (λ _. Failed)
      unfolding recover
      recover-Failed (e, progress) =
          Triple-if (not progress.forward_attempted) _ _ (λ _. fail_without_rollback-Failed _)
            (λ _. bind (locate-Failed _ progress) λ current.
              Triple-if (text_eq current p.old_container_id) _ _
                (λ _. fail_without_rollback-Failed _) (λ _. roll_back-Failed _ current progress))

      conclude-Ended :
          (r : ReplacementResult)
          → Triple Running
              (conclude s remote p actor id r)
              (λ u w. (u.job_id ≡ id) × StandsAt id succeeded w)
              (λ _ _. ⊥)
      unfolding conclude
      conclude-Ended r =
          bind
            (weaken (transition_job-Alive s distinct id running succeeded _ refl refl) (λ w h. h)
              (λ a w h. h.stands) (λ e w h. h))
            (λ _. bind (audit_quietly succeeded _) (λ _. Triple-pure _ (λ w h. (refl, h))))

      forward-Ended :
          Triple Running
            (forward s remote p actor id)
            (λ u w. (u.job_id ≡ id) × StandsAt id succeeded w)
            (λ _. Running)
      unfolding forward
      forward-Ended =
          bind (Triple-with_progress _ (revalidate-Alive s remote p actor distinct id quiet id))
            λ _.
              bind
                (Triple-with_progress _
                  (replace_forward-Alive s remote p actor distinct id quiet id))
                λ r.
                  bind
                    (Triple-with_progress _ (adopt-Alive s remote p actor distinct id quiet id r))
                    λ _.
                      Triple-with_progress _
                        (weaken (conclude-Ended r) (λ w h. h) (λ a w h. h) (λ e w h. absurd h))

      started-Ended :
          Triple
            (Alive s id queued)
            (transition_job s id running no_input
              >> catch (forward s remote p actor id) (recover s remote p actor id))
            (λ u w. (u.job_id ≡ id) × StandsAt id succeeded w)
            (λ _. Failed)
      started-Ended =
          bind
            (weaken (transition_job-Alive s distinct id queued running no_input refl refl)
              (λ w h. h) (λ a w h. h) (λ e w h. absurd h))
            (λ _.
              Triple-catch forward-Ended
                (λ e. weaken (recover-Failed e) (λ w h. h) (λ a w h. absurd h) (λ e w h. h)))

-- A prepared update either throws and leaves the tables of the jobs as they were, or its job, which has the
-- next identifier, ends with it: it has succeeded if a result is returned, and has failed if an error is thrown;
-- its kind is not model-create.
-- The identifiers of the supply are distinct and new, the waits on the remote host keep the job running, and
-- what they throw does not have the code of a rollback that has succeeded.
pub execute_prepared-ends :
    {R : Type 0} (s : Supply) (remote : RemoteOperations R) (p : PreparedUpdate) (actor : Text)
    (w : World R)
    → IsDistinct s
    → ((id : Text) → IsQuiet (Alive s id running) remote)
    → IsTrusted remote
    → WellFormed w.tables
    → IsFresh s w
    → Meets
        (λ u v. (u.job_id ≡ s.uuid w.draws) × StandsAt (s.uuid w.draws) succeeded v)
        (λ e v. (v.tables ≡ w.tables) ⊎ StandsAt (s.uuid w.draws) failed v)
        (execute_prepared s remote p actor w)
unfolding execute_prepared
execute_prepared-ends s remote p actor w distinct quiet trusted good fresh =
    let id = s.uuid w.draws in
    let started = started-Ended s remote p actor distinct id (quiet id) trusted in
    (bind
        (weaken (create_job-Started s distinct _ w good fresh update_kind) (λ v h. h) (λ a v h. h)
          (λ e v h. inl h))
        (λ job. Triple-given λ same.
          subst
            (λ i.
              Triple (Alive s id queued)
                (transition_job s i running no_input
                  >> catch (forward s remote p actor i) (recover s remote p actor i))
                (λ u v. (u.job_id ≡ id) × StandsAt id succeeded v)
                (λ e v. (v.tables ≡ w.tables) ⊎ StandsAt id failed v))
            (sym same) (weaken started (λ v h. h) (λ a v h. h) (λ e v h. inr h)))).at
      w refl
