-- ===== src/Update/Execute/Serving.antt =====
-- When `execute` (apps/api/src/update-orchestrator.ts) says that a container serves the target, the target is
-- bound to it and it has been found healthy.
use ollama_remote_control.Prelude.{◌≡◌, true, List, ◌∷◌, [], ◌++◌, Result, ok, err, ℕ, ◌+◌}
use ollama_remote_control.Modelfile.Chars.{Text}
use ollama_remote_control.Jobs.Data.{JobState, TransitionInput}
use ollama_remote_control.Jobs.Service.{JobError}
use ollama_remote_control.Jobs.Store.{Tables}
use ollama_remote_control.Update.Effects.{World, pure, StoredAuditEvent}
use ollama_remote_control.Update.Stores.{
  Supply, Thrown, append_to_job, transition_job, record_audit, append_audit, thrown_job,
  AuditRecordInput,
}
use ollama_remote_control.Update.Triples.{
  Meets, Triple, Keeps, keeps_rules, bind, weaken, Triple-pure, Triple-assert, Keeps-bind,
  Keeps-gets, Keeps-modify,
}
use ollama_remote_control.Update.Orchestrator.{
  RemoteOperations, PreparedUpdate, ReplacementResult, Progress,
}
use ollama_remote_control.Update.Execute.{adopt, restore, is_restored}
use ollama_remote_control.Update.Execute.Trust.{Trusted, IsTrusted, Trusted-restored}
use ollama_remote_control.Update.Execute.Binding.{BoundTo, rebind_known-BoundTo}

-- A condition that the tables of the jobs and the audit play no part in.
pub record IsAboutBinding {R : Type 0} (K : World R → Type 0) : Type 0 where
  pub called : (w : World R) (t : Tables) (n : ℕ) → K w → K (record w { tables = t; draws = n })
  pub audited : (w : World R) (rows : List StoredAuditEvent) → K w → K (record w { audits = rows })

module _ {R : Type 0} {K : World R → Type 0} (about : IsAboutBinding K) (s : Supply) where
  thrown_job-Keeps :
      {A : Type 0} (r : Result JobError A) (v : World R)
      → K v
      → Meets {E = Thrown} (λ _. K) (λ _. K) (thrown_job r, v)
  thrown_job-Keeps (ok a) v h = h
  thrown_job-Keeps (err e) v h = h

  append_to_job-Keeps :
      (id event_type payload : Text) → Keeps K (append_to_job s id event_type payload)
  unfolding append_to_job
  append_to_job-Keeps id event_type payload = record {
    at = λ w h. thrown_job-Keeps _ _ (about.called w _ _ h);
  }

  pub transition_job-Keeps :
      (id : Text) (next : JobState) (input : TransitionInput)
      → Keeps K (transition_job s id next input)
  unfolding transition_job
  transition_job-Keeps id next input = record {
    at = λ w h. thrown_job-Keeps _ _ (about.called w _ _ h);
  }

  append_audit-Keeps : (e : StoredAuditEvent) → Keeps K (append_audit e)
  unfolding append_audit
  append_audit-Keeps e =
      Keeps-bind (Keeps-gets _)
        λ rows. search (keeps_rules, Keeps-modify _ (λ w. about.audited w (rows ++ (e ∷ []))))

  pub record_audit-Keeps : (input : AuditRecordInput) → Keeps K (record_audit s input)
  unfolding record_audit
  record_audit-Keeps input =
      search (
        keeps_rules,
        append_audit-Keeps,
        Keeps-modify _ (λ w. about.called w w.tables (w.draws + 1)),
      )

module _ {R : Type 0} (Serves : Text → R → Type 0) (s : Supply) (remote : RemoteOperations R)
    (p : PreparedUpdate) (actor : Text) where
  abbrev pub Serving : Text → World R → Type 0
  Serving c w = BoundTo p.target_id c w × Serves c w.remote

  -- A report that a container is healthy is right, and nobody moves the binding while it is made.
  pub record IsVerifying : Type 0 where
    pub on_health :
        (id : Text)
        → Triple
            (BoundTo p.target_id id)
            (remote.health p.target_id id)
            (λ h w. BoundTo p.target_id id w × (h.healthy ≡ true → Serves id w.remote))
            (λ _ _. Unit {0})

  BoundTo-about : (c : Text) → IsAboutBinding {R = R} (BoundTo p.target_id c)
  BoundTo-about c = record { called = λ w t n h. h; audited = λ w rows h. h }

  pub Serving-about : (c : Text) → IsAboutBinding (Serving c)
  Serving-about c = record { called = λ w t n h. h; audited = λ w rows h. h }

  -- An error that reports a rollback that has succeeded is thrown where a container serves the target.
  abbrev pub Restored : Thrown → World R → Type 0
  Restored e w = is_restored e ≡ true → (c : Text) × Serving c w

  pub Trusted-Restored : (e : Thrown) (w : World R) → Trusted e → Restored e w
  Trusted-Restored e w h r = absurd (cc (r, Trusted-restored e h))

  module _ (verifying : IsVerifying) (trusted : IsTrusted remote) where
    abbrev pub Whatever : Thrown → World R → Type 0
    Whatever e w = Unit {0}

    pub step :
        {K : World R → Type 0} (about : IsAboutBinding K) (id event_type payload : Text)
        → Triple K (append_to_job s id event_type payload) (λ _. K) Whatever
    step about id event_type payload =
        weaken (append_to_job-Keeps about s id event_type payload) (λ w h. h) (λ a w h. h)
          (λ e w h. tt)

    pub done : {K : World R → Type 0} → Triple K (pure tt) (λ _. K) Whatever
    done = Triple-pure tt (λ w h. h)

    pub anything : IsAboutBinding {R = R} (λ _. Unit {0})
    anything = record { called = λ w t n h. h; audited = λ w rows h. h }

    -- The binding moves to the container, which is then found healthy.
    pub adopt-Serving :
        (id : Text) (r : ReplacementResult)
        → Triple
            (λ _. Unit {0})
            (adopt s remote p actor id r)
            (λ _. Serving r.container_id)
            Whatever
    unfolding adopt
    adopt-Serving id r = bind (bind (step anything id _ _) (λ _. done)) λ _.
        bind (rebind_known-BoundTo s remote p actor _ _) λ rebound.
          bind (Triple-assert rebound _ (λ w h. h) (λ w h. tt)) λ _.
            bind (bind (step (BoundTo-about r.container_id) id _ _) (λ _. done)) λ _.
              bind (verifying.on_health r.container_id) λ health.
                bind (Triple-assert health.healthy _ (λ w h e. (h.0, h.1 e)) (λ w h. tt))
                  λ _. bind (step (Serving-about r.container_id) id _ _) (λ _. done)

    pub restore-Serving :
        (id current : Text) (progress : Progress)
        → Triple (λ _. Unit {0}) (restore s remote p actor id current progress) Serving Whatever
    unfolding restore
    restore-Serving id current progress =
        bind (weaken (trusted.on_replace _ _ _ _) (λ w h. h) (λ a w h. h) (λ e w h. tt)) λ back.
          bind (bind (step anything id _ _) (λ _. done)) λ _.
            bind (rebind_known-BoundTo s remote p actor _ _) λ rebound.
              bind (Triple-assert rebound _ (λ w h. h) (λ w h. tt)) λ _.
                bind (bind (step (BoundTo-about back.container_id) id _ _) (λ _. done)) λ _.
                  bind (verifying.on_health back.container_id) λ health.
                    bind (Triple-assert health.healthy _ (λ w h e. (h.0, h.1 e)) (λ w h. tt)) λ _.
                      bind (bind (step (Serving-about back.container_id) id _ _) (λ _. done))
                        λ _. Triple-pure _ (λ w h. h)
