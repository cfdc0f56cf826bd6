-- ===== src/Stream/Rounds.antt =====
-- What a round of `streamCreateJobEvents` (apps/api/src/create-job-events.ts) writes.
use ollama_remote_control.Prelude.{
  ℕ, ◌+◌, ◌≡◌, refl, sym, ap, ◌∙◌, inl, inr, some, List, [], ◌∷◌, ◌++◌, append-nil, append_assoc,
  arith, length, select, ok-injective, Result, ok, err,
}
use ollama_remote_control.Modelfile.Chars.{Text}
use ollama_remote_control.Jobs.Data.{StoredJob, StoredJobEvent}
use ollama_remote_control.Jobs.Store.{Tables, of_job, find_by_id}
use ollama_remote_control.Jobs.Outcomes.{Result-cases}
use ollama_remote_control.Jobs.Service.{get, events}
use ollama_remote_control.Jobs.Invariant.{WellFormed}
use ollama_remote_control.Jobs.Safety.{
  Call, create_call, transition_call, append_call, call, calls, create-cases, transition-cases,
  append-cases,
}
use ollama_remote_control.Jobs.History.{numbers_from, sequences, events-history}
use ollama_remote_control.Stream.Events.{
  StreamError, PayloadJson, PublicCreateEvent, deliver, round, with_job, get_create, create_events,
}
use ollama_remote_control.Stream.Publics.{is_later, publics, later_of, deliver-publics}

with_job-eq-ok :
    (j job : StoredJob) (r : List PublicCreateEvent × Result StreamError ℕ)
    {w : List PublicCreateEvent} {next : ℕ}
    → with_job j r ≡ (w, ok (job, next))
    → (j ≡ job) × (r ≡ (w, ok next))
with_job-eq-ok j job (v, ok n) d = ground arith
with_job-eq-ok j job (v, err e) d = absurd (cc (d))

get_create-eq-ok :
    (id actor : Text) (t : Tables) {job : StoredJob}
    → get_create id actor t ≡ ok job
    → find_by_id id t ≡ some job
unfolding get_create get
get_create-eq-ok id actor t h = ground arith

create_events-eq-ok :
    (id : Text) (t : Tables) {es : List StoredJobEvent}
    → create_events id t ≡ ok es
    → events id t ≡ ok es
unfolding create_events
create_events-eq-ok id t h = ground arith

-- What a round that succeeds has read.
round-eq-ok :
    (json : PayloadJson) (id actor : Text) (c : ℕ) (t : Tables) {w : List PublicCreateEvent}
    {job : StoredJob} {next : ℕ}
    → round json id actor c t ≡ (w, ok (job, next))
    → (es : List StoredJobEvent) × (find_by_id id t ≡ some job)
      × (events id t ≡ ok es)
      × (deliver json c es ≡ (w, ok next))
unfolding round
round-eq-ok json id actor c t {w} {job} {next} d = elim (Result-cases (get_create id actor t)) [
  | inl (e, fails) ↦ absurd (cc (rw (fails, round) at d))
  | inr (j, got) ↦ elim (Result-cases (create_events id t)) [
    | inl (e, fails) ↦ absurd (cc (rw (got, fails, round) at d))
    | inr (es, listed) ↦
        let (same, delivered) =
          with_job-eq-ok j job (deliver json c es) (rw (got, listed, round) at d) in
        (
          es,
          get_create-eq-ok id actor t got ∙ ap some same,
          create_events-eq-ok id t listed,
          delivered,
        )
  ]
]

-- The events of the job.
abbrev pub own : Text → Tables → List StoredJobEvent
own id t = select (of_job id) t.events

pub own-numbered :
    (id : Text) (t : Tables) (j : StoredJob)
    → WellFormed t
    → find_by_id id t ≡ some j
    → (events id t ≡ ok (own id t)) × (sequences (own id t) ≡ numbers_from 1 (own id t))
unfolding calls
own-numbered id t j h found = events-history [] t id j h found

-- What a round that succeeds has written, and where its cursor stands.
pub round-publics :
    (json : PayloadJson) (id actor : Text) (c : ℕ) (t : Tables) {w : List PublicCreateEvent}
    {job : StoredJob} {next : ℕ}
    → WellFormed t
    → round json id actor c t ≡ (w, ok (job, next))
    → (find_by_id id t ≡ some job)
      × (w ≡ publics json (select (is_later c) (own id t)))
      × (next ≡ later_of c (length (own id t)))
      × (sequences (own id t) ≡ numbers_from 1 (own id t))
round-publics json id actor c t {job = job} h d =
    let (es, found, listed, delivered) = round-eq-ok json id actor c t d in
    let (history, numbers) = own-numbered id t job h found in
    let same : es ≡ own id t = ok-injective (sym listed ∙ history) in
    let (written, at) =
      deliver-publics json c 0 (own id t) numbers (omega arith) (rw same at delivered) in
    let all : 0 + length (own id t) ≡ length (own id t) = omega arith in
    (found, written, at ∙ ap (λ (x : ℕ). later_of c x) all, numbers)

-- A call adds events behind those that there are.
call-grows :
    (c : Call) (t : Tables) → (es : List StoredJobEvent) × ((call c t).events ≡ t.events ++ es)
unfolding call
call-grows (create_call job_uuid event_uuid timestamp input) t =
    elim (create-cases job_uuid event_uuid timestamp input t) [
      | inl (same, _) ↦ ([], ap (λ x. x.events) same ∙ sym (append-nil t.events))
      | inr (_, rows, _) ↦ (_, ap (λ x. x.events) rows)
    ]
call-grows (transition_call uuid timestamp id next input) t =
    elim (transition-cases uuid timestamp id next input t) [
      | inl (same, _) ↦ ([], ap (λ x. x.events) same ∙ sym (append-nil t.events))
      | inr (_, _, _, _, _, rows, _, _) ↦ (_, ap (λ x. x.events) rows)
    ]
call-grows (append_call uuid timestamp id event_type payload) t =
    elim (append-cases uuid timestamp id event_type payload t) [
      | inl (same, _) ↦ ([], ap (λ x. x.events) same ∙ sym (append-nil t.events))
      | inr (_, rows, _) ↦ (_, ap (λ x. x.events) rows)
    ]

pub calls-grow :
    (cs : List Call) (t : Tables)
    → (es : List StoredJobEvent) × ((calls cs t).events ≡ t.events ++ es)
unfolding calls
calls-grow [] t = ([], sym (append-nil t.events))
calls-grow (c ∷ cs) t =
    let (es, first) = call-grows c t in
    let (fs, rest) = calls-grow cs (call c t) in
    (es ++ fs, rest ∙ ap (λ (x : List StoredJobEvent). x ++ fs) first ∙ append_assoc t.events es fs)

pub calls-append : (cs ds : List Call) (t : Tables) → calls (cs ++ ds) t ≡ calls ds (calls cs t)
unfolding calls
calls-append [] ds t = refl
calls-append (c ∷ cs) ds t = calls-append cs ds (call c t)
