-- ===== src/Jobs/Invariant.antt =====
-- What holds of the tables of packages/db/src/index.ts between two calls of `JobService`
-- (apps/api/src/jobs.ts).
use ollama_remote_control.Prelude.{
  ◌+◌, ◌≡◌, refl, ◌∙◌, Bool, true, false, Option, none, some, List, [], ◌∷◌, ◌++◌, arith,
  text_eq→eq, if◌then◌else◌, any, find, All, All-append,
}
use ollama_remote_control.Modelfile.Chars.{Text}
use ollama_remote_control.Jobs.Data.{
  JobState, StoredJob, NewEvent, StoredJobEvent, TransitionInput, state_payload, json_payload,
}
use ollama_remote_control.Jobs.Deployments.{Revision, SqlFunctions}
use ollama_remote_control.Jobs.Store.{Tables, has_id, conflicts, distinct_locks, of_job, find_by_id}
use ollama_remote_control.Jobs.Rows.{
  any-append, distinct_locks-concat, distinct_ids, distinct_ids-concat, count_events, Numbered,
  Numbered-concat,
}
use ollama_remote_control.Jobs.Outcomes.{row, with_job}
use ollama_remote_control.Jobs.Service.{is_terminal}

-- The state that an event of the job `id` announces, if it announces one.
abbrev pub announced : Text → StoredJobEvent → Option JobState → Option JobState
announced id e earlier =
    if of_job id e
    then elim e.payload [ state_payload s i ↦ some s | json_payload p ↦ earlier ]
    else earlier

-- The state that the events of a job announced last.
unfoldable pub last_state : Text → Option JobState → List StoredJobEvent → Option JobState
last_state id earlier [] = earlier
last_state id earlier (e ∷ es) = last_state id (announced id e earlier) es

pub last_state-concat :
    (id : Text) (earlier : Option JobState) (es : List StoredJobEvent) (e : StoredJobEvent)
    → last_state id earlier (es ++ e ∷ []) ≡ announced id e (last_state id earlier es)
unfolding last_state
last_state-concat id earlier [] e = refl
last_state-concat id earlier (f ∷ fs) e = last_state-concat id (announced id f earlier) fs e

abbrev pub is_some : Option Text → Bool
is_some none = false
is_some (some t) = true

-- A job has a finishing time exactly if its state is terminal.
abbrev pub IsDated : StoredJob → Type 0
IsDated j = is_some j.finished_at ≡ is_terminal j.state

pub record WellFormed (t : Tables) : Type 0 where
  pub ids : distinct_ids t.jobs ≡ true
  pub locked_once : distinct_locks t.jobs ≡ true
  pub numbered : Numbered (λ i. 0) t.events
  pub owned : (id : Text) → any (has_id id) t.jobs ≡ false → count_events id t.events ≡ 0
  pub dated : All IsDated t.jobs
  pub announced_last :
      (id : Text) (j : StoredJob)
      → find_by_id id t ≡ some j
      → last_state id none t.events ≡ some j.state

-- Tables without jobs.
pub empty-WellFormed :
    (targets users : List Text) (revisions : List Revision) (sql : SqlFunctions)
    → WellFormed (record {
      jobs = [];
      events = [];
      target_ids = targets;
      user_ids = users;
      deployments = [];
      revisions = revisions;
      sql = sql;
    })
unfolding distinct_ids distinct_locks count_events find_by_id last_state
empty-WellFormed targets users revisions sql = record {
  ids = refl;
  locked_once = refl;
  numbered = tt;
  owned = λ id none_of. refl;
  dated = tt;
  announced_last = λ id j found. absurd (cc (found));
}

pub find-concat :
    (id : Text) (js : List StoredJob) (j : StoredJob)
    → find (has_id id) (js ++ j ∷ [])
      ≡ elim (find (has_id id) js) [ some k ↦ some k | none ↦ if has_id id j then some j else none ]
find-concat id [] j = ground arith
find-concat id (i ∷ is) j = ground (arith, find-concat id is j)

pub any-find :
    (id : Text) (js : List StoredJob) → any (has_id id) js ≡ false → find (has_id id) js ≡ none
unfolding any
any-find id [] h = refl
any-find id (j ∷ js) h = ground (arith, any-find id js)

announced_in_new_job :
    (job : StoredJob) (e : NewEvent) (i : TransitionInput) (t : Tables)
    → any (has_id job.id) t.jobs ≡ false
    → e.job_id ≡ job.id
    → e.payload ≡ state_payload job.state i
    → WellFormed t
    → (id : Text) (j : StoredJob) → find (has_id id) (t.jobs ++ job ∷ []) ≡ some j
    → announced id (row e 1) (last_state id none t.events) ≡ some j.state
unfolding find_by_id
announced_in_new_job job e i t free own pay h id j found =
    let fresh = any-find job.id t.jobs free in
    ground (arith, find-concat id t.jobs job, h.announced_last id j, text_eq→eq job.id id, fresh)

pub count_events-concat :
    (id : Text) (es : List StoredJobEvent) (e : StoredJobEvent)
    → count_events id (es ++ e ∷ []) ≡ count_events id es + (if of_job id e then 1 else 0)
unfolding count_events
count_events-concat id [] e = omega arith
count_events-concat id (f ∷ fs) e = omega (arith, count_events-concat id fs e)

owned_in_new_job :
    (id : Text) (job : StoredJob) (e : StoredJobEvent) (js : List StoredJob)
    (es : List StoredJobEvent)
    → e.job_id ≡ job.id
    → (any (has_id id) js ≡ false → count_events id es ≡ 0)
    → any (has_id id) (js ++ job ∷ []) ≡ false
    → count_events id (es ++ e ∷ []) ≡ 0
unfolding any
owned_in_new_job id job e js es own h none_of =
    ground (arith, any-append (has_id id) js (job ∷ []), count_events-concat id es e)

pub with_job-WellFormed :
    (job : StoredJob) (e : NewEvent) (i : TransitionInput) (t : Tables)
    → conflicts job t.jobs ≡ false
    → e.job_id ≡ job.id
    → e.payload ≡ state_payload job.state i
    → IsDated job
    → WellFormed t
    → WellFormed (with_job job e t)
unfolding find_by_id conflicts
with_job-WellFormed job e i t free own pay dated h =
    let id_free : any (has_id job.id) t.jobs ≡ false = ground arith in
    record {
      ids = distinct_ids-concat t.jobs job h.ids id_free;
      locked_once = distinct_locks-concat t.jobs job h.locked_once (ground arith);
      numbered =
          Numbered-concat (λ i. 0) t.events (row e 1) h.numbered
            (rw own (omega (arith, h.owned job.id id_free)));
      owned =
          λ id none_of. owned_in_new_job id job (row e 1) t.jobs t.events own (h.owned id) none_of;
      dated = All-append IsDated t.jobs (job ∷ []) h.dated (dated, tt);
      announced_last = λ id j found.
          last_state-concat id none t.events (row e 1)
          ∙ announced_in_new_job job e i t id_free own pay h id j found;
    }
