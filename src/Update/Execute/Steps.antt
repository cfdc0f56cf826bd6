-- ===== src/Update/Execute/Steps.antt =====
-- What the steps of `execute` (apps/api/src/update-orchestrator.ts) keep, whichever way they end.
use ollama_remote_control.Prelude.{Option, none, some, List}
use ollama_remote_control.Modelfile.Chars.{Text}
use ollama_remote_control.Jobs.Data.{running}
use ollama_remote_control.Update.Effects.{World, StoredTarget}
use ollama_remote_control.Update.Stores.{Supply, append_to_job, record_audit}
use ollama_remote_control.Update.Triples.{
  Triple, Triple-catch, Triple-pure, Keeps, keeps_rules, Keeps-bind, Keeps-gets,
}
use ollama_remote_control.Update.Orchestrator.{
  RemoteOperations, PreparedUpdate, rebind_known, rebind_current, ReplacementResult, Progress,
}
use ollama_remote_control.Update.Execute.{
  revalidate, replace_forward, adopt, restore, find_last_known,
}
use ollama_remote_control.Update.Execute.Alive.{
  Alive, IsDistinct, append_to_job-Alive, Alive-IsAboutJobs, IsAboutJobs, record_audit-Keeps,
  rebind_container-Keeps,
}

-- The waits on the remote host keep `K`, whichever way they end.
pub record IsQuiet {R : Type 0} (K : World R → Type 0) (remote : RemoteOperations R) : Type 0 where
  pub on_validate : (c : _) (id : Text) → Keeps K (remote.validate_compose c id)
  pub on_replace :
      (c : _) (image id : Text) (source : _) → Keeps K (remote.replace c image id source)
  pub on_resolve : (c : _) → Keeps K (remote.resolve_compose_container c)
  pub on_health : (target id : Text) → Keeps K (remote.health target id)

module _ {R : Type 0} (s : Supply) (remote : RemoteOperations R) (p : PreparedUpdate)
    (actor : Text) where
  rebind_known-Keeps :
      {K : World R → Type 0}
      → IsAboutJobs K
      → (allowed : List Text) (next : Text) → Keeps K (rebind_known s remote p actor allowed next)
  unfolding rebind_known
  rebind_known-Keeps {K} about allowed next = Keeps-bind (Keeps-gets _) go
    where
      go : (o : Option StoredTarget) → Keeps K (rebind_current s remote p actor allowed next o)
      go none = search keeps_rules
      go (some current) = search (keeps_rules, rebind_container-Keeps about)

  module _ (distinct : IsDistinct s) (id : Text) (quiet : IsQuiet (Alive s id running) remote) where
    abbrev Running : World R → Type 0
    Running = Alive s id running

    step :
        (job_id event_type payload : Text)
        → Keeps Running (append_to_job s job_id event_type payload)
    step = append_to_job-Alive s distinct id running

    rebind :
        (allowed : List Text) (next : Text)
        → Keeps Running (rebind_known s remote p actor allowed next)
    rebind = rebind_known-Keeps (Alive-IsAboutJobs s id running)

    audit : (input : _) → Keeps Running (record_audit s input)
    audit = record_audit-Keeps (Alive-IsAboutJobs s id running) s

    pub revalidate-Alive : (job_id : Text) → Keeps Running (revalidate s remote p actor job_id)
    unfolding revalidate
    revalidate-Alive job_id = search (keeps_rules, step, rebind, audit, quiet.on_validate)

    pub replace_forward-Alive :
        (job_id : Text) → Keeps Running (replace_forward s remote p actor job_id)
    unfolding replace_forward
    replace_forward-Alive job_id = search (keeps_rules, step, quiet.on_replace)

    pub adopt-Alive :
        (job_id : Text) (r : ReplacementResult) → Keeps Running (adopt s remote p actor job_id r)
    unfolding adopt
    adopt-Alive job_id r = search (keeps_rules, step, rebind, quiet.on_health) depth 20

    pub restore-Alive :
        (job_id current : Text) (progress : Progress)
        → Keeps Running (restore s remote p actor job_id current progress)
    unfolding restore
    restore-Alive job_id current progress =
        search (keeps_rules, step, rebind, quiet.on_replace, quiet.on_health) depth 20

    -- It throws nothing.
    pub find_last_known-Alive :
        (current : Text) (progress : Progress)
        → Triple Running
            (find_last_known s remote p actor current progress)
            (λ _. Running)
            (λ _ _. ⊥)
    unfolding find_last_known
    find_last_known-Alive current progress =
        Triple-catch
          (Keeps-bind (quiet.on_resolve p.compose) λ resolved. search (keeps_rules, rebind))
          (λ e. Triple-pure current (λ w h. h))
