-- ===== src/Jobs/History.antt =====
-- What `events` (apps/api/src/jobs.ts) lists.
use ollama_remote_control.Prelude.{
  ℕ, ◌+◌, ◌≡◌, refl, ap, ◌∙◌, inl, inr, some, List, [], ◌∷◌, map, arith, Bool-cases, text_eq→eq,
  if◌then◌else◌, select, ok,
}
use ollama_remote_control.Modelfile.Chars.{Text}
use ollama_remote_control.Jobs.Data.{StoredJob, StoredJobEvent}
use ollama_remote_control.Jobs.Store.{
  Tables, of_job, list_events, insert_by_sequence, sort_by_sequence, find_by_id,
}
use ollama_remote_control.Jobs.Rows.{Numbered}
use ollama_remote_control.Jobs.Service.{events, get}
use ollama_remote_control.Jobs.Invariant.{WellFormed}
use ollama_remote_control.Jobs.Safety.{Call, calls, calls-WellFormed}

-- n, n + 1, … , as many as there are events.
unfoldable pub numbers_from : ℕ → List StoredJobEvent → List ℕ
numbers_from n [] = []
numbers_from n (e ∷ es) = n ∷ numbers_from (n + 1) es

abbrev pub sequences : List StoredJobEvent → List ℕ
sequences es = map (λ e. e.sequence) es

selected-numbers :
    (id : Text) (before : Text → ℕ) (es : List StoredJobEvent)
    → Numbered before es
    → sequences (select (of_job id) es) ≡ numbers_from (before id + 1) (select (of_job id) es)
unfolding select numbers_from
selected-numbers id before [] h = refl
selected-numbers id before (e ∷ es) h =
    let ih = selected-numbers id (λ i. before i + (if of_job i e then 1 else 0)) es h.1 in
    elim (Bool-cases (of_job id e)) [
      | inl own ↦
          let here : e.sequence ≡ before id + 1 = rw (← text_eq→eq e.job_id id own) h.0 in
          ground (arith, here, ih)
      | inr other ↦ ground (arith, ih)
    ]

sort-numbered :
    (n : ℕ) (es : List StoredJobEvent) → sequences es ≡ numbers_from n es → sort_by_sequence es ≡ es
unfolding sort_by_sequence insert_by_sequence numbers_from
sort-numbered n [] h = refl
sort-numbered n (e ∷ []) h = refl
sort-numbered n (e ∷ f ∷ fs) h =
    let first : e.sequence ≡ n = ground arith in
    let second : f.sequence ≡ n + 1 = ground arith in
    let rest : sequences (f ∷ fs) ≡ numbers_from (n + 1) (f ∷ fs) = ground arith in
    ap (insert_by_sequence e) (sort-numbered (n + 1) (f ∷ fs) rest) ∙ ground arith

events-found :
    (id : Text) (t : Tables) (j : StoredJob)
    → find_by_id id t ≡ some j
    → events id t ≡ ok (list_events id t)
unfolding events get
events-found id t j found = rw (found, events, get) refl

-- On tables on which the invariant holds, after any sequence of calls, events answers for a job that exists
-- all its events and no other, in the order in which they were added, numbered 1, 2, 3, ….
pub events-history :
    (cs : List Call) (t : Tables) (id : Text) (j : StoredJob)
    → WellFormed t
    → find_by_id id (calls cs t) ≡ some j
    → let own = select (of_job id) (calls cs t).events in
      (events id (calls cs t) ≡ ok own) × (sequences own ≡ numbers_from 1 own)
unfolding list_events
events-history cs t id j h found =
    let own = select (of_job id) (calls cs t).events in
    let numbers =
      selected-numbers id (λ i. 0) (calls cs t).events (calls-WellFormed cs t h).numbered in
    (events-found id (calls cs t) j found ∙ ap ok (sort-numbered 1 own numbers), numbers)
