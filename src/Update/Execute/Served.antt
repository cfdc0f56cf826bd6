-- ===== src/Update/Execute/Served.antt =====
-- What the whole of `execute` (apps/api/src/update-orchestrator.ts) leaves the target bound to.
use ollama_remote_control.Prelude.{◌≡◌, true, not, text_eq}
use ollama_remote_control.Modelfile.Chars.{Text}
use ollama_remote_control.Jobs.Data.{failed, succeeded, running}
use ollama_remote_control.Jobs.Service.{no_input}
use ollama_remote_control.Update.Effects.{World, Action, quietly}
use ollama_remote_control.Update.Stores.{FailureDescriptor, Supply, Thrown, record_audit}
use ollama_remote_control.Update.Triples.{
  Meets, Triple, bind, both, weaken, Throws, Triple-if, Triple-trivial, Triple-pure, Triple-throw,
  Triple-quietly, Triple-catch, Triple-with_progress,
}
use ollama_remote_control.Update.Orchestrator.{
  RemoteOperations, PreparedUpdate, ReplacementResult, Progress, fail_without_rollback,
  classify_failure,
}
use ollama_remote_control.Update.Execute.{
  conclude, forward, report_restored, find_last_known, is_restored, report_rollback_failure, locate,
  roll_back, recover, execute_prepared,
}
use ollama_remote_control.Update.Execute.Trust.{
  Trusted, IsTrusted, revalidate-Trusted, replace_forward-Trusted, adopt-Trusted, restore-Trusted,
  conclude-Trusted, append_to_job-Trusted, transition_job-Trusted, create_job-Trusted,
}
use ollama_remote_control.Update.Execute.Serving.{
  Serving, IsVerifying, Restored, Trusted-Restored, adopt-Serving, restore-Serving, Serving-about,
  transition_job-Keeps, record_audit-Keeps, anything,
}

module _ {R : Type 0} (Serves : Text → R → Type 0) (s : Supply) (remote : RemoteOperations R)
    (p : PreparedUpdate) (actor : Text) (verifying : IsVerifying Serves s remote p actor)
    (trusted : IsTrusted remote) where
  abbrev Always : World R → Type 0
  Always w = Unit {0}

  abbrev Here : Text → World R → Type 0
  Here = Serving Serves s remote p actor

  abbrev Back : Thrown → World R → Type 0
  Back = Restored Serves s remote p actor

  trust :
      {A : Type 0} {m : Action R Thrown A} → Throws Trusted m → Triple Always m (λ _. Always) Back
  trust t =
      weaken t (λ w h. h) (λ a w h. h) (λ e w h. Trusted-Restored Serves s remote p actor e w h)

  -- An action whose errors are trusted, and which establishes a condition.
  trust_with :
      {A : Type 0} {P : World R → Type 0} {Q : A → World R → Type 0} {m : Action R Thrown A}
      → Throws Trusted m
      → Triple P m Q (λ _ _. Unit {0})
      → Triple P m Q (λ e _. Trusted e)
  trust_with t t' = weaken (both t t') (λ w h. (tt, h)) (λ a w h. h.1) (λ e w h. h.0)

  quiet_audit :
      {F : Type 0} {X : F → World R → Type 0} (c : Text) (input : _)
      → Triple (Here c) (quietly (record_audit s input)) (λ _. Here c) X
  quiet_audit c input =
      Triple-quietly (record_audit-Keeps (Serving-about Serves s remote p actor c) s input)

  conclude-Here :
      (id : Text) (r : ReplacementResult)
      → Triple
          (Here r.container_id)
          (conclude s remote p actor id r)
          (λ u. Here u.container_id)
          (λ _ _. Unit {0})
  unfolding conclude
  conclude-Here id r =
      bind
        (weaken
          (transition_job-Keeps (Serving-about Serves s remote p actor r.container_id) s id
            succeeded _)
          (λ w h. h) (λ a w h. h) (λ e w h. tt))
        (λ _. bind (quiet_audit r.container_id _) (λ _. Triple-pure _ (λ w h. h)))

  forward-Here :
      (id : Text)
      → Triple Always (forward s remote p actor id) (λ u. Here u.container_id) (λ e _. Trusted e.0)
  unfolding forward
  forward-Here id =
      bind (Triple-with_progress _ (revalidate-Trusted s remote p actor trusted id)) λ _.
        bind (Triple-with_progress _ (replace_forward-Trusted s remote p actor trusted id)) λ r.
          bind
            (Triple-with_progress _ (
              trust_with (adopt-Trusted s remote p actor trusted id r)
                (adopt-Serving Serves s remote p actor verifying trusted id r)))
            λ _.
              Triple-with_progress _
                (trust_with (conclude-Trusted s remote p actor trusted id r) (conclude-Here id r))

  fail_without_rollback-Back :
      {A : Type 0} {Q : A → World R → Type 0} (id : Text) (e : Thrown)
      → Trusted e
      → Triple Always (fail_without_rollback s remote p actor id (classify_failure e)) Q Back
  unfolding fail_without_rollback
  fail_without_rollback-Back id e h =
      bind
        (bind
          (Triple-quietly
            (transition_job-Keeps (anything Serves s remote p actor verifying trusted) s _ _ _))
          (λ _.
            Triple-quietly
              (record_audit-Keeps (anything Serves s remote p actor verifying trusted) s _)))
        (λ _. Triple-throw _ (λ w k r. absurd (cc (r, h))))

  locate-Back :
      (id : Text) (failure : FailureDescriptor) (progress : Progress)
      → Triple Always (locate s remote p actor id failure progress) (λ _. Always) Back
  unfolding locate
  locate-Back id failure progress = Triple-catch (Triple-trivial _) (λ e.
      bind
        (Triple-quietly
          (transition_job-Keeps (anything Serves s remote p actor verifying trusted) s _ _ _))
        (λ _. Triple-throw _ (λ w k r. absurd (cc r))))

  report_restored-Back :
      (id : Text) (failure : FailureDescriptor) (current c : Text)
      → Triple
          (Here c)
          (report_restored s remote p actor id failure current c)
          (λ u. Here u.container_id)
          Back
  unfolding report_restored
  report_restored-Back id failure current c =
      bind
        (weaken
          (both (transition_job-Trusted s id failed _)
            (transition_job-Keeps (Serving-about Serves s remote p actor c) s id failed _))
          (λ w h. (tt, h)) (λ a w h. h.1)
          (λ e w h. Trusted-Restored Serves s remote p actor e w h.0))
        (λ _. bind (quiet_audit c _) (λ _. Triple-throw _ (λ w h r. (c, h))))

  find_last_known-Always :
      (current : Text) (progress : Progress)
      → Triple Always (find_last_known s remote p actor current progress) (λ _. Always) (λ _ _. ⊥)
  unfolding find_last_known
  find_last_known-Always current progress =
      Triple-catch (Triple-trivial _) (λ e. Triple-pure current (λ w h. h))

  report_rollback_failure-Back :
      (id : Text) (failure : FailureDescriptor) (current : Text) (progress : Progress) (e : Thrown)
      → Triple
          (Back e)
          (report_rollback_failure s remote p actor id failure current progress e)
          (λ u. Here u.container_id)
          Back
  unfolding report_rollback_failure
  report_rollback_failure-Back id failure current progress e =
      Triple-if (is_restored e) _ _ (λ _. Triple-throw e (λ w h. h))
        (λ _.
          bind {Q = λ _. Always}
            (weaken (find_last_known-Always current progress) (λ w h. tt) (λ a w h. h)
              (λ e w h. absurd h))
            (λ last_known.
              bind
                (bind
                  (Triple-quietly (
                    transition_job-Keeps (anything Serves s remote p actor verifying trusted) s _ _
                      _))
                  (λ _.
                    Triple-quietly (
                      record_audit-Keeps (anything Serves s remote p actor verifying trusted) s _)))
                (λ _. Triple-throw _ (λ w k r. absurd (cc r)))))

  roll_back-Back :
      (id : Text) (failure : FailureDescriptor) (current : Text) (progress : Progress)
      → Triple Always
          (roll_back s remote p actor id failure current progress)
          (λ u. Here u.container_id)
          Back
  unfolding roll_back
  roll_back-Back id failure current progress =
      bind (bind (trust (append_to_job-Trusted s id _ _)) (λ _. Triple-pure tt (λ w h. h))) λ _.
        Triple-catch
          (bind
            (weaken
              (trust_with (restore-Trusted s remote p actor trusted id current progress)
                (restore-Serving Serves s remote p actor verifying trusted id current progress))
              (λ w h. h) (λ a w h. h) (λ e w h. Trusted-Restored Serves s remote p actor e w h))
            (λ c. report_restored-Back id failure current c))
          (λ e. report_rollback_failure-Back id failure current progress e)

  recover-Back :
      (id : Text) (e : Thrown × Progress)
      → Triple (λ _. Trusted e.0) (recover s remote p actor id e) (λ u. Here u.container_id) Back
  unfolding recover
  recover-Back id (e, progress) = record { at = λ w h. (go h).at w tt }
    where
      go :
          Trusted e
          → Triple Always
              (recover s remote p actor id (e, progress))
              (λ u. Here u.container_id)
              Back
      go h =
          Triple-if (not progress.forward_attempted) _ _ (λ _. fail_without_rollback-Back id e h)
            (λ _. bind (locate-Back id _ progress) λ current.
              Triple-if (text_eq current p.old_container_id) _ _
                (λ _. fail_without_rollback-Back id e h)
                (λ _. roll_back-Back id _ current progress))

  execute_prepared-Back :
      Triple Always (execute_prepared s remote p actor) (λ u. Here u.container_id) Back
  unfolding execute_prepared
  execute_prepared-Back = bind (trust (create_job-Trusted s _)) λ job.
      bind (trust (transition_job-Trusted s job.id running no_input))
        λ _. Triple-catch (forward-Here job.id) (λ e. recover-Back job.id e)

-- A prepared update that returns a result names a container that the target is bound to and that has been found
-- healthy. An error that reports a rollback as successful is thrown only where the target is bound to a
-- container that has been found healthy. A remote report of good health is right, the binding does not move
-- while it is made, and no remote operation throws an error with the code of a rollback that has succeeded.
pub execute_prepared-serves :
    {R : Type 0} (Serves : Text → R → Type 0) (s : Supply) (remote : RemoteOperations R)
    (p : PreparedUpdate) (actor : Text) (w : World R)
    → IsVerifying Serves s remote p actor
    → IsTrusted remote
    → Meets
        (λ u v. Serving Serves s remote p actor u.container_id v)
        (λ e v. is_restored e ≡ true → (c : Text) × Serving Serves s remote p actor c v)
        (execute_prepared s remote p actor w)
execute_prepared-serves Serves s remote p actor w verifying trusted =
    (execute_prepared-Back Serves s remote p actor verifying trusted).at w tt
