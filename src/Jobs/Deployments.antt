-- ===== src/Jobs/Deployments.antt =====
-- The trigger trg_model_create_verified_deployment of packages/db/migrations/0010_modelfile_deployments.sql:
-- a job of the kind model-create that becomes succeeded leaves a row of `modelfile_deployments`, or the update
-- is aborted. SQLite's functions on texts are a record of parameters; NULL is `none`.
use ollama_remote_control.Prelude.{
  ℕ, Bool, true, false, not, ◌&&◌, ◌||◌, Option, none, some, List, [], ◌∷◌, ◌++◌, leb, ◌==◌,
  text_eq, any, Result, ok, err, ◌>>=◌, ◌>>◌, require,
}
use ollama_remote_control.Modelfile.Chars.{Text, codes, within}
use ollama_remote_control.Jobs.Data.{
  succeeded, same_state, StoredJob, StoreError, incomplete_evidence, missing_column,
  unknown_revision, unverified_source, failed_check, unique_deployment,
}

-- An integer of SQLite: a natural number, or the negative number -(n + 1).
pub data SqlInteger : Type 0 where
  natural negative : ℕ → SqlInteger

-- The functions of SQLite that the trigger calls, at the types that it uses them with: `json_extract` is
-- compared with 1, or fills a column of texts or of integers. The second argument is a path.
pub record SqlFunctions : Type 0 where
  pub json_valid : Text → Bool
  pub json_type : Text → Text → Option Text
  pub extract_is_one : Text → Text → Option Bool
  pub extract_text : Text → Text → Option Text
  pub extract_integer : Text → Text → Option SqlInteger
  pub lower : Text → Text
  pub sql_length : Text → ℕ

-- The columns of `modelfile_revisions` that a deployment refers to.
pub record Revision : Type 0 where
  pub id : Text
  pub modelfile_id : Text
  pub content_sha256 : Text

-- A row of `modelfile_deployments`.
pub record Deployment : Type 0 where
  pub id : Text
  pub target_id : Text
  pub modelfile_id : Text
  pub revision_id : Text
  pub revision_sha256 : Text
  pub output_model : Text
  pub model_digest : Text
  pub size_bytes : SqlInteger
  pub base_model : Text
  pub source_create_job_id : Text
  pub actor_user_id : Text
  pub selected_container_id : Text
  pub verified_at : Text

-- A comparison by `<>`, which is NULL where its left side is.
abbrev differs : Option Text → Text → Option Bool
differs none t = none
differs (some s) t = some (not (text_eq s t))

abbrev negated : Option Bool → Option Bool
negated none = none
negated (some b) = some (not b)

-- `CASE WHEN` takes its branch where the condition is true, and not where it is NULL.
abbrev holds : Option Bool → Bool
holds (some true) = true
holds _ = false

abbrev text_paths : List Text
text_paths =
    codes "$.modelfileId"
    ∷ codes "$.revisionId"
    ∷ codes "$.revisionSha256"
    ∷ codes "$.outputModel"
    ∷ codes "$.digest"
    ∷ codes "$.baseModel"
    ∷ codes "$.selectedContainerId"
    ∷ []

-- The condition of the trigger's `RAISE(ABORT, …)` behind `NEW.finished_at IS NULL`. Of a result that is
-- NULL every comparison is NULL.
unfoldable pub result_incomplete : SqlFunctions → Option Text → Bool
result_incomplete f none = false
result_incomplete f (some result) =
    not (f.json_valid result)
    || holds (negated (f.extract_is_one result (codes "$.verified")))
    || any (λ path. holds (differs (f.json_type result path) (codes "text"))) text_paths
    || holds (differs (f.json_type result (codes "$.sizeBytes")) (codes "integer"))

abbrev pub is_null : Option Text → Bool
is_null none = true
is_null (some t) = false

-- `NOT NULL`
abbrev column : {A : Type 0} → Option A → Result StoreError A
column none = err missing_column
column (some a) = ok a

-- The row that the trigger inserts.
unfoldable pub deployment_of : SqlFunctions → StoredJob → Result StoreError Deployment
deployment_of f job = do
  result ← column job.result_json
  modelfile_id ← column (f.extract_text result (codes "$.modelfileId"))
  revision_id ← column (f.extract_text result (codes "$.revisionId"))
  revision_sha256 ← column (f.extract_text result (codes "$.revisionSha256"))
  output_model ← column (f.extract_text result (codes "$.outputModel"))
  digest ← column (f.extract_text result (codes "$.digest"))
  size_bytes ← column (f.extract_integer result (codes "$.sizeBytes"))
  base_model ← column (f.extract_text result (codes "$.baseModel"))
  selected_container_id ← column (f.extract_text result (codes "$.selectedContainerId"))
  verified_at ← column job.finished_at
  ok (record {
    id = job.id;
    target_id = job.target_id;
    modelfile_id = modelfile_id;
    revision_id = revision_id;
    revision_sha256 = f.lower revision_sha256;
    output_model = output_model;
    model_digest = f.lower digest;
    size_bytes = size_bytes;
    base_model = base_model;
    source_create_job_id = job.id;
    actor_user_id = job.actor_user_id;
    selected_container_id = selected_container_id;
    verified_at = verified_at;
  })

-- `length(x) = 64 AND x = lower(x) AND x NOT GLOB '*[^0-9a-f]*'`
abbrev is_sha256 : SqlFunctions → Text → Bool
is_sha256 f x =
    f.sql_length x == 64
    && text_eq x (f.lower x)
    && not (any (λ c. not (within b'0' b'9' c || within b'a' b'f' c)) x)

abbrev is_natural : SqlInteger → Bool
is_natural (natural n) = true
is_natural (negative n) = false

-- `length(x) BETWEEN 1 AND limit`
abbrev has_length : SqlFunctions → ℕ → Text → Bool
has_length f limit x = leb 1 (f.sql_length x) && leb (f.sql_length x) limit

-- The constraints `CHECK` of the table.
unfoldable pub meets_checks : SqlFunctions → Deployment → Bool
meets_checks f d =
    is_sha256 f d.revision_sha256
    && has_length f 512 d.output_model
    && is_sha256 f d.model_digest
    && is_natural d.size_bytes
    && has_length f 512 d.base_model
    && has_length f 128 d.selected_container_id

abbrev pub is_revision : Deployment → Revision → Bool
is_revision d r =
    text_eq r.id d.revision_id
    && text_eq r.modelfile_id d.modelfile_id
    && text_eq r.content_sha256 d.revision_sha256

abbrev pub model_create : Text
model_create = codes "model-create"

-- A job that the trigger trg_modelfile_deployments_revision_integrity takes for the source.
abbrev pub is_source : Deployment → StoredJob → Bool
is_source d job =
    text_eq job.id d.source_create_job_id
    && text_eq job.target_id d.target_id
    && text_eq job.actor_user_id d.actor_user_id
    && text_eq job.kind model_create
    && same_state job.state succeeded

-- A row meets the primary key or the unique column.
abbrev same_deployment : Deployment → Deployment → Bool
same_deployment d row =
    text_eq row.id d.id || text_eq row.source_create_job_id d.source_create_job_id

-- The insertion, with the trigger in front of it and the constraints of the table. Its foreign keys are
-- those of the source job and of the revision.
unfoldable pub insert_deployment :
    SqlFunctions
    → List Revision
    → List StoredJob
    → List Deployment
    → Deployment
    → Result StoreError (List Deployment)
insert_deployment f revisions jobs deployments d = do
  require (any (is_revision d) revisions) unknown_revision
  require (any (is_source d) jobs) unverified_source
  require (meets_checks f d) failed_check
  require (not (any (same_deployment d) deployments)) unique_deployment
  ok (deployments ++ (d ∷ []))

-- The condition `WHEN` of the trigger, on the row before and after an update.
abbrev pub needs_deployment : StoredJob → StoredJob → Bool
needs_deployment before after =
    text_eq after.kind model_create
    && same_state after.state succeeded
    && not (same_state before.state succeeded)

-- The body of the trigger.
unfoldable pub record_deployment :
    SqlFunctions
    → List Revision
    → List StoredJob
    → List Deployment
    → StoredJob
    → Result StoreError (List Deployment)
record_deployment f revisions jobs deployments job = do
  require (not (is_null job.finished_at || result_incomplete f job.result_json)) incomplete_evidence
  d ← deployment_of f job
  insert_deployment f revisions jobs deployments d
