-- ===== src/Stream/Events.antt =====
-- `publicCreateEvent` and `streamCreateJobEvents` of apps/api/src/create-job-events.ts with `get` and `events` of
-- apps/api/src/model-create.ts. JSON is a parameter. The connection, keepalives and the time between two rounds
-- are left out: a round sees the tables as they then are, and the tables that it sees are an argument.
use ollama_remote_control.Prelude.{
  ℕ, Bool, ◌&&◌, ◌||◌, Option, none, some, List, [], ◌∷◌, ◌++◌, leb, ltb, ◌==◌, text_eq, any,
  length, Result, ok, err, ◌>>=◌, if◌then◌else◌,
}
use ollama_remote_control.Modelfile.Chars.{Text, codes, is_empty, utf8_bytes}
use ollama_remote_control.Jobs.Data.{StoredJob, StoredJobEvent, Payload}
use ollama_remote_control.Jobs.Deployments.{model_create}
use ollama_remote_control.Jobs.Store.{Tables}
use ollama_remote_control.Jobs.Service.{JobError, is_terminal, get, events}

-- What a stream throws.
pub data StreamError : Type 0 where
  job_event_invalid job_not_found : StreamError
  job_error : JobError → StreamError

-- A member of a parsed object: null or undefined, a string, or another value.
pub data Field : Type 0 where
  nothing other_field : Field
  string_field : Text → Field

-- The text of a payload in the table, and `JSON.parse`, which gives `none` where it throws or gives no object.
pub record PayloadJson : Type 0 where
  pub payload_json : Payload → Text
  pub parse_object : Text → Option (Text → Field)

pub data PublicData : Type 0 where
  state_data : Text → Option Text → PublicData
  request_data : Text → Text → Text → PublicData
  progress_data : Text → PublicData

-- Its `event` is the constructor of its data.
pub record PublicCreateEvent : Type 0 where
  pub sequence : ℕ
  pub public_data : PublicData
  pub created_at : Text

abbrev parsed_or_error : Option (Text → Field) → Result StreamError (Text → Field)
parsed_or_error (some f) = ok f
parsed_or_error none = err job_event_invalid

-- `MAX_PUBLIC_EVENT_BYTES`
abbrev max_public_event_bytes : ℕ
max_public_event_bytes = 16384

unfoldable pub object_payload : PayloadJson → StoredJobEvent → Result StreamError (Text → Field)
object_payload json e =
    if ltb max_public_event_bytes (utf8_bytes (json.payload_json e.payload))
    then err job_event_invalid
    else parsed_or_error (json.parse_object (json.payload_json e.payload))

-- `/[\u0000-\u001f\u007f]/u.test(value)`
abbrev has_control : Text → Bool
has_control t = any (λ c. leb c 31 || c == 127) t

unfoldable pub string_or_null : Field → ℕ → Option Text
string_or_null nothing limit = none
string_or_null other_field limit = none
string_or_null (string_field t) limit =
    if ltb limit (length t) || has_control t then none else some t

-- `!value`
abbrev needed : Option Text → Result StreamError Text
needed none = err job_event_invalid
needed (some t) = if is_empty t then err job_event_invalid else ok t

abbrev is_state : Text → Bool
is_state t =
    text_eq t (codes "queued")
    || text_eq t (codes "running")
    || text_eq t (codes "cancelling")
    || text_eq t (codes "succeeded")
    || text_eq t (codes "failed")
    || text_eq t (codes "cancelled")

abbrev known_state : Text → Result StreamError Text
known_state t = if is_state t then ok t else err job_event_invalid

-- The data of an event by its type.
unfoldable pub public_data_of : Text → (Text → Field) → Result StreamError (Option PublicData)
public_data_of event_type payload =
    if text_eq event_type (codes "state")
    then (needed (string_or_null (payload (codes "state")) 32) >>= λ s. known_state s >>= λ state.
        ok (some (state_data state (string_or_null (payload (codes "errorClass")) 120))))
    else if text_eq event_type (codes "create-request")
    then (needed (string_or_null (payload (codes "outputModel")) 512) >>= λ output.
        needed (string_or_null (payload (codes "baseModel")) 512) >>= λ base.
        needed (string_or_null (payload (codes "revisionId")) 128) >>= λ revision.
        ok (some (request_data output base revision)))
    else if text_eq event_type (codes "progress")
    then (needed (string_or_null (payload (codes "status")) 240) >>= λ status.
        ok (some (progress_data status)))
    else ok none

abbrev with_sequence : StoredJobEvent → Option PublicData → Option PublicCreateEvent
with_sequence e none = none
with_sequence e (some d) =
    some (record { sequence = e.sequence; public_data = d; created_at = e.created_at })

unfoldable pub public_create_event :
    PayloadJson → StoredJobEvent → Result StreamError (Option PublicCreateEvent)
public_create_event json e = object_payload json e >>= λ payload.
    public_data_of e.event_type payload >>= λ d. ok (with_sequence e d)

abbrev pub put_first :
    Option PublicCreateEvent
    → List PublicCreateEvent × Result StreamError ℕ
    → List PublicCreateEvent × Result StreamError ℕ
put_first none rest = rest
put_first (some p) rest = (p ∷ rest.0, rest.1)

-- The loop over the stored events: what it writes, and the cursor behind it or what it throws.
unfoldable pub deliver :
    PayloadJson → ℕ → List StoredJobEvent → List PublicCreateEvent × Result StreamError ℕ
deliver json cursor [] = ([], ok cursor)
deliver json cursor (e ∷ es) =
    let skipped = deliver json cursor es in
    let rest = deliver json e.sequence es in
    if leb e.sequence cursor
    then skipped
    else elim (public_create_event json e) [ err x ↦ ([], err x) | ok p ↦ put_first p rest ]

abbrev owned : Text → StoredJob → Bool
owned actor job = text_eq job.actor_user_id actor && text_eq job.kind model_create

-- `get` of the service of creations.
unfoldable pub get_create : Text → Text → Tables → Result StreamError StoredJob
get_create id actor t = elim (get id t) [
  | err e ↦ err (job_error e)
  | ok job ↦ if owned actor job then ok job else err job_not_found
]

-- `events` behind its own `get`.
unfoldable pub create_events : Text → Tables → Result StreamError (List StoredJobEvent)
create_events id t = elim (events id t) [ err e ↦ err (job_error e) | ok es ↦ ok es ]

-- How a stream stands: ended with the job, broken off by an error, or open at a cursor.
pub data Standing : Type 0 where
  finished : StoredJob → Standing
  broken : StreamError → Standing
  open_at : ℕ → Standing

abbrev pub with_job :
    StoredJob
    → List PublicCreateEvent × Result StreamError ℕ
    → List PublicCreateEvent × Result StreamError (StoredJob × ℕ)
with_job job (written, ok next) = (written, ok (job, next))
with_job job (written, err e) = (written, err e)

-- A round of the loop: what it writes, with the job that it has seen and the cursor behind it.
unfoldable pub round :
    PayloadJson
    → Text
    → Text
    → ℕ
    → Tables
    → List PublicCreateEvent × Result StreamError (StoredJob × ℕ)
round json id actor cursor t = elim (get_create id actor t) [
  | err e ↦ ([], err e)
  | ok job ↦ elim (create_events id t) [
    | err e ↦ ([], err e)
    | ok es ↦ with_job job (deliver json cursor es)
  ]
]

-- The loop goes on to the next tables where the job has not ended.
unfoldable pub stream :
    PayloadJson → Text → Text → ℕ → List Tables → List PublicCreateEvent × Standing
stream json id actor cursor [] = ([], open_at cursor)
stream json id actor cursor (t ∷ ts) =
    let r = round json id actor cursor t in
    elim r.1 [
      | err e ↦ (r.0, broken e)
      | ok (job, next) ↦
          let rest = stream json id actor next ts in
          if is_terminal job.state then (r.0, finished job) else (r.0 ++ rest.0, rest.1)
    ]
