-- ===== src/Update/Tests.antt =====
-- Runs of an update on a database with one target, against a remote host that answers at once.
use ollama_remote_control.Prelude.{
  ◌≡◌, refl, ◌⊎◌, true, false, Option, none, some, [], ◌∷◌, arith, text_eq, text_eq→eq, any, length,
}
use ollama_remote_control.Modelfile.Chars.{Text, codes, trim, trim_start, trim_end, is_space}
use ollama_remote_control.Jobs.Data.{JobState, running, succeeded, failed, StoredJob}
use ollama_remote_control.Jobs.Deployments.{SqlFunctions}
use ollama_remote_control.Jobs.Store.{
  record_deployments, conflicts, distinct_locks, insert_job, max_sequence, next_job_event_sequence,
  insert_job_event, transaction, create_with_initial_event, find_by_id, update_rows, count_rows,
  update_job, transition_with_event, append_event,
}
use ollama_remote_control.Jobs.Service.{
  new_state_event, create, get, transition_update, transition_from, transition, append_to,
  append_job_event,
}
use ollama_remote_control.Jobs.Invariant.{empty-WellFormed}
use ollama_remote_control.Update.Effects.{
  World, Outcome, thrown, pure, throw, gets, modify, ◌>>=◌, catch, quietly, with_progress, assert,
  StoredTarget,
}
use ollama_remote_control.Update.Stores.{
  Supply, Thrown, orchestrator_error, create_job, transition_job, append_to_job, swap_binding,
  rebind_container, update_bindings, count_bound, distinct_containers, append_audit, record_audit,
  find_target,
}
use ollama_remote_control.Update.Triples.{Meets, Triple-pure, Keeps-pure, Throws-pure}
use ollama_remote_control.Update.Orchestrator.{
  ComposeSnapshotContext, RemoteOperations, PreparedUpdate, UpdateSuccess, classify_failure,
  rebind_known, fail_without_rollback, descriptor, rollback_succeeded_code,
}
use ollama_remote_control.Update.Execute.{
  revalidate, replace_forward, adopt, conclude, forward, restore, report_restored, find_last_known,
  report_rollback_failure, locate, roll_back, recover, execute_prepared, is_restored,
}
use ollama_remote_control.Update.Execute.Alive.{Alive, StandsAt, IsDistinct, IsFresh}
use ollama_remote_control.Update.Execute.Steps.{IsQuiet}
use ollama_remote_control.Update.Execute.Trust.{IsTrusted}
use ollama_remote_control.Update.Execute.Ending.{execute_prepared-ends}
use ollama_remote_control.Update.Execute.Serving.{Serving, IsVerifying}
use ollama_remote_control.Update.Execute.Served.{execute_prepared-serves}

abbrev supply : Supply
supply = record { uuid = λ k. k ∷ []; clock = λ k. codes "12:00"; stringify = λ fields. [] }

abbrev compose : ComposeSnapshotContext
compose = record {
  project_name = codes "p";
  service = codes "ollama";
  working_directory = codes "/srv";
  config_files = [];
  environment_files = [];
}

abbrev plan : PreparedUpdate
plan = record {
  target_id = codes "t";
  host_id = codes "h";
  intent_id = codes "i";
  snapshot_id = codes "s";
  current_digest = codes "d0";
  candidate_digest = codes "d1";
  exact_candidate_reference = codes "r@d1";
  old_container_id = codes "old";
  rollback_image_reference = codes "r@d0";
  compose = compose;
}

-- A replacement from the old container gives `new`, and any other gives `back`; one container is healthy.
abbrev host : Text → RemoteOperations (Unit {0})
host healthy = record {
  validate_compose = λ c id. pure tt;
  replace = λ c image id source. pure (record {
    image_id = image;
    container_id = elim (text_eq id (codes "old")) [ true ↦ codes "new" | false ↦ codes "back" ];
  });
  resolve_compose_container = λ c. pure (codes "new");
  health = λ target id. pure (record { healthy = text_eq id healthy; api_version = codes "1" });
}

-- Functions of SQLite for which a text has no members.
abbrev no_members : SqlFunctions
no_members = record {
  json_valid = λ r. true;
  json_type = λ r path. none;
  extract_is_one = λ r path. none;
  extract_text = λ r path. none;
  extract_integer = λ r path. none;
  lower = λ t. t;
  sql_length = length;
}

abbrev start : World (Unit {0})
start = record {
  tables = record {
    jobs = [];
    events = [];
    target_ids = codes "t" ∷ [];
    user_ids = codes "u" ∷ [];
    deployments = [];
    revisions = [];
    sql = no_members;
  };
  targets =
      record {
        id = codes "t";
        host_id = codes "h";
        selected_container_id = codes "old";
        enabled = true;
        updated_at = codes "11:00";
      }
      ∷ [];
  audits = [];
  draws = 0;
  remote = tt;
}

unfoldable run : Text → Outcome Thrown UpdateSuccess × World (Unit {0})
unfolding execute_prepared recover roll_back locate report_rollback_failure find_last_known
    report_restored restore forward conclude adopt replace_forward revalidate fail_without_rollback
    rebind_known classify_failure record_audit append_audit distinct_containers count_bound
    update_bindings rebind_container swap_binding append_to_job transition_job create_job pure throw
    gets modify ◌>>=◌ catch quietly with_progress assert append_job_event append_to transition
    transition_from transition_update get create new_state_event append_event transition_with_event
    update_job record_deployments count_rows update_rows find_by_id create_with_initial_event
    transaction insert_job_event next_job_event_sequence max_sequence insert_job distinct_locks
    conflicts trim trim_start trim_end is_space any
run healthy = execute_prepared supply (host healthy) plan (codes "u") start

abbrev job_state : Option StoredJob → Option JobState
job_state none = none
job_state (some j) = some j.state

abbrev container : Option StoredTarget → Text
container none = []
container (some t) = t.selected_container_id

test_updated : job_state (find_by_id (0 ∷ []) (run (codes "new")).1.tables) ≡ some succeeded
unfolding run find_by_id
test_updated = refl

test_bound : container (find_target (codes "t") (run (codes "new")).1.targets) ≡ codes "new"
unfolding run
test_bound = refl

test_rolled_back :
    (run (codes "back")).0 ≡ thrown (orchestrator_error (descriptor rollback_succeeded_code 502))
unfolding run
test_rolled_back = refl

test_bound_back : container (find_target (codes "t") (run (codes "back")).1.targets) ≡ codes "back"
unfolding run
test_bound_back = refl

supply-IsDistinct : IsDistinct supply
supply-IsDistinct a b same = ground arith

start-IsFresh : IsFresh supply start
unfolding any
start-IsFresh k le = refl

host-IsQuiet : (id : Text) → IsQuiet (Alive supply id running) (host (codes "new"))
host-IsQuiet id = record {
  on_validate = λ c i. Keeps-pure _;
  on_replace = λ c image i source. Keeps-pure _;
  on_resolve = λ c. Keeps-pure _;
  on_health = λ t i. Keeps-pure _;
}

host-IsTrusted : IsTrusted (host (codes "new"))
host-IsTrusted = record {
  on_validate = λ c i. Throws-pure _;
  on_replace = λ c image i source. Throws-pure _;
  on_health = λ t i. Throws-pure _;
}

execute_prepared-ends_example :
    Meets
      (λ u v. (u.job_id ≡ 0 ∷ []) × StandsAt (0 ∷ []) succeeded v)
      (λ e v. (v.tables ≡ start.tables) ⊎ StandsAt (0 ∷ []) failed v)
      (execute_prepared supply (host (codes "new")) plan (codes "u") start)
execute_prepared-ends_example =
    execute_prepared-ends supply (host (codes "new")) plan (codes "u") start supply-IsDistinct
      host-IsQuiet host-IsTrusted (empty-WellFormed (codes "t" ∷ []) (codes "u" ∷ []) [] no_members)
      start-IsFresh

-- Only the new container is healthy.
abbrev IsNew : Text → Unit {0} → Type 0
IsNew c r = c ≡ codes "new"

host-IsVerifying : IsVerifying IsNew supply (host (codes "new")) plan (codes "u")
host-IsVerifying = record {
  on_health = λ id. Triple-pure _ (λ w h. (h, λ e. text_eq→eq id (codes "new") e));
}

execute_prepared-serves_example :
    Meets
      (λ u v. Serving IsNew supply (host (codes "new")) plan (codes "u") u.container_id v)
      (λ e v.
        is_restored e ≡ true
        → (c : Text) × Serving IsNew supply (host (codes "new")) plan (codes "u") c v)
      (execute_prepared supply (host (codes "new")) plan (codes "u") start)
execute_prepared-serves_example =
    execute_prepared-serves IsNew supply (host (codes "new")) plan (codes "u") start
      host-IsVerifying host-IsTrusted
