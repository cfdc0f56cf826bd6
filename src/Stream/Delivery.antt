-- ===== src/Stream/Delivery.antt =====
-- What `streamCreateJobEvents` (apps/api/src/create-job-events.ts) has written when it ends.
use mathlib.Core.List.{Mem, mem-cons_self, mem-cons_of_mem}
use mathlib.Core.Path.{subst}
use ollama_remote_control.Prelude.{
  ℕ, ◌+◌, ◌≡◌, ◌⊎◌, refl, sym, ap, ◌∙◌, inl, inr, true, some, List, [], ◌∷◌, ◌++◌, arith,
  Bool-cases, length, select, ok,
}
use ollama_remote_control.Modelfile.Chars.{Text}
use ollama_remote_control.Jobs.Data.{StoredJob, StoredJobEvent}
use ollama_remote_control.Jobs.Store.{Tables, of_job, find_by_id}
use ollama_remote_control.Jobs.Outcomes.{Result-cases}
use ollama_remote_control.Jobs.Service.{is_terminal}
use ollama_remote_control.Jobs.Invariant.{WellFormed}
use ollama_remote_control.Jobs.Safety.{Call, calls, calls-WellFormed}
use ollama_remote_control.Jobs.History.{numbers_from, sequences}
use ollama_remote_control.Stream.Events.{PayloadJson, PublicCreateEvent, round, stream, finished}
use ollama_remote_control.Stream.Publics.{
  is_later, publics, publics-append, select-append, later_of, select-later, select-none,
}
use ollama_remote_control.Stream.Rounds.{own, own-numbered, round-publics, calls-grow, calls-append}

-- Each of the tables comes from the ones before it by calls of the job service.
abbrev pub Follows : Tables → List Tables → Type 0
Follows t [] = Unit {0}
Follows t (u ∷ us) = ((cs : List Call) × (u ≡ calls cs t)) × Follows u us

-- Where a stream that has ended got its end from: its first round, or the rest.
stream-eq-finished :
    (json : PayloadJson) (id actor : Text) (c : ℕ) (t : Tables) (ts : List Tables)
    {w : List PublicCreateEvent} {job : StoredJob}
    → stream json id actor c (t ∷ ts) ≡ (w, finished job)
    → (j : StoredJob) × (next : ℕ) × (v : List PublicCreateEvent) × (round json id actor c t
        ≡ (v, ok (j, next)))
      × (((is_terminal j.state ≡ true) × (j ≡ job) × (w ≡ v))
          ⊎ ((x : List PublicCreateEvent) × (stream json id actor next ts ≡ (x, finished job))
              × (w ≡ v ++ x)))
unfolding stream
stream-eq-finished json id actor c t ts {w} {job} d =
    let r = round json id actor c t in
    elim (Result-cases r.1) [
      | inl (e, fails) ↦ absurd (cc (rw (fails, stream) at d))
      | inr ((j, next), got) ↦ (
        j,
        next,
        r.0,
        λ i. (r.0, got i),
        elim (Bool-cases (is_terminal j.state)) [
          | inl ended ↦
              inl (ended, cc (rw (got, ended, stream) at d), cc (rw (got, ended, stream) at d))
          | inr unended ↦
              let rest = stream json id actor next ts in
              let both = rw (got, unended, stream) at d in
              inr (rest.0, λ i. (rest.0, (both i).1), sym (ap (λ x. x.0) both))
        ],
      )
    ]

-- What a stream has written until it ended, and the tables that its last round saw.
pub record Delivered (json : PayloadJson) (id : Text) (c : ℕ) (t : Tables) (ts : List Tables)
    (w : List PublicCreateEvent) (job : StoredJob) : Type 0 where
  pub last : Tables
  pub seen : Mem last (t ∷ ts)
  pub from_calls : (cs : List Call) × (last ≡ calls cs t)
  pub found : find_by_id id last ≡ some job
  pub ended : is_terminal job.state ≡ true
  pub written : w ≡ publics json (select (is_later c) (own id last))

-- The numbers go on behind the events in front.
numbers-behind :
    (n : ℕ) (es fs : List StoredJobEvent)
    → sequences (es ++ fs) ≡ numbers_from (n + 1) (es ++ fs)
    → sequences fs ≡ numbers_from (n + length es + 1) fs
unfolding numbers_from
numbers-behind n [] fs h = ground arith
numbers-behind n (e ∷ es) fs h = ground (arith, numbers-behind (n + 1) es fs)

-- The events behind a later cursor join those in front of it.
joined :
    (json : PayloadJson) (id : Text) (c : ℕ) (t : Tables) (cs : List Call) (j : StoredJob)
    → WellFormed t
    → sequences (own id t) ≡ numbers_from 1 (own id t)
    → find_by_id id (calls cs t) ≡ some j
    → publics json (select (is_later c) (own id (calls cs t)))
      ≡ publics json (select (is_later c) (own id t))
        ++ publics json (select (is_later (later_of c (length (own id t)))) (own id (calls cs t)))
joined json id c t cs j h numbers found =
    let (es, grown) = calls-grow cs t in
    let n = length (own id t) in
    let fresh = select (of_job id) es in
    let all : own id (calls cs t) ≡ own id t ++ fresh =
      ap (select (of_job id)) grown ∙ select-append (of_job id) t.events es in
    let (_, numbered) = own-numbered id (calls cs t) j (calls-WellFormed cs t h) found in
    let from_none : 0 + length (own id t) ≡ n = omega arith in
    let behind : sequences fresh ≡ numbers_from (n + 1) fresh =
      numbers-behind 0 (own id t) fresh (rw all at numbered)
      ∙ ap (λ (m : ℕ). numbers_from (m + 1) fresh) from_none in
    let over : select (is_later (later_of c n)) (own id t) ≡ [] =
      select-none (later_of c n) 0 (own id t) numbers (ground arith) in
    rw all (
      rw
        (
          select-append (is_later c) (own id t) fresh,
          select-append (is_later (later_of c n)) (own id t) fresh,
          over,
          select-later c n fresh behind,
        )
        (publics-append json (select (is_later c) (own id t)) (select (is_later c) fresh)))

first-Delivered :
    (json : PayloadJson) (id : Text) (c : ℕ) (t : Tables) (ts : List Tables)
    {w : List PublicCreateEvent} {job : StoredJob}
    → find_by_id id t ≡ some job
    → is_terminal job.state ≡ true
    → w ≡ publics json (select (is_later c) (own id t))
    → Delivered json id c t ts w job
unfolding calls
first-Delivered json id c t ts found ended written = record {
  last = t;
  seen = mem-cons_self;
  from_calls = ([], refl);
  found = found;
  ended = ended;
  written = written;
}

-- What the rest of a stream delivers, with what its first round has written.
extended :
    (json : PayloadJson) (id : Text) (c : ℕ) (t u : Tables) (us : List Tables) (next : ℕ)
    {v w x : List PublicCreateEvent} {job : StoredJob} (cs : List Call)
    → u ≡ calls cs t
    → WellFormed t
    → v ≡ publics json (select (is_later c) (own id t))
    → next ≡ later_of c (length (own id t))
    → sequences (own id t) ≡ numbers_from 1 (own id t)
    → w ≡ v ++ x
    → Delivered json id next u us x job
    → Delivered json id c t (u ∷ us) w job
extended json id c t u us next {v} {w} {x} {job} cs u_is h written at numbers whole later =
    let (ds, last_is) = later.from_calls in
    let from_t : later.last ≡ calls (cs ++ ds) t =
      last_is ∙ ap (calls ds) u_is ∙ sym (calls-append cs ds t) in
    let there : find_by_id id (calls (cs ++ ds) t) ≡ some job =
      ap (find_by_id id) (sym from_t) ∙ later.found in
    let all = joined json id c t (cs ++ ds) job h numbers there in
    let tail : x
        ≡ publics json (select (is_later (later_of c (length (own id t)))) (own id later.last)) =
      later.written ∙ ap (λ (n : ℕ). publics json (select (is_later n) (own id later.last))) at in
    record {
      last = later.last;
      seen = mem-cons_of_mem t later.seen;
      from_calls = (cs ++ ds, from_t);
      found = later.found;
      ended = later.ended;
      written =
          whole
          ∙ ap (λ (y : List PublicCreateEvent). y ++ x) written
          ∙ ap (λ (y : List PublicCreateEvent). publics json (select (is_later c) (own id t)) ++ y)
              tail
          ∙ sym (
              subst
                (λ (l : Tables).
                  publics json (select (is_later c) (own id l))
                  ≡ publics json (select (is_later c) (own id t))
                    ++ publics json (select (is_later (later_of c (length (own id t)))) (own id l)))
                (sym from_t) all);
    }

-- A stream sees tables of which the first meet the invariant of the jobs and the others each come from the ones
-- before by calls of the job service. When it ends with a job, its last round saw that job in a terminal state,
-- and it has written the public forms of all events that the job then had with a number behind the first cursor,
-- each once and in their order.
pub stream-delivers :
    (json : PayloadJson) (id actor : Text) (c : ℕ) (t : Tables) (ts : List Tables)
    {w : List PublicCreateEvent} {job : StoredJob}
    → WellFormed t
    → Follows t ts
    → stream json id actor c (t ∷ ts) ≡ (w, finished job)
    → Delivered json id c t ts w job
stream-delivers json id actor c t [] {w} {job} h follows d =
    let (j, next, v, read, way) = stream-eq-finished json id actor c t [] d in
    let (found, written, at, numbers) = round-publics json id actor c t h read in
    elim way [
      | inl (ended, same, whole) ↦
          first-Delivered json id c t [] (found ∙ ap some same)
            (ap (λ (k : StoredJob). is_terminal k.state) (sym same) ∙ ended) (whole ∙ written)
      | inr (x, rest, whole) ↦ absurd (unfold stream in cc (rest))
    ]
stream-delivers json id actor c t (u ∷ us) {w} {job} h follows d =
    let (j, next, v, read, way) = stream-eq-finished json id actor c t (u ∷ us) d in
    let (found, written, at, numbers) = round-publics json id actor c t h read in
    elim way [
      | inl (ended, same, whole) ↦
          first-Delivered json id c t (u ∷ us) (found ∙ ap some same)
            (ap (λ (k : StoredJob). is_terminal k.state) (sym same) ∙ ended) (whole ∙ written)
      | inr (x, rest, whole) ↦
          let ((cs, u_is), more) = follows in
          let good : WellFormed u = rw u_is (calls-WellFormed cs t h) in
          extended json id c t u us next cs u_is h written at numbers whole
            (stream-delivers json id actor next u us good more rest)
    ]
