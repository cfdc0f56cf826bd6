-- ===== src/Jobs/Rows.antt =====
-- Facts on the rows of packages/db/src/index.ts: which rows an insertion or an update adds to the
-- index of active mutating jobs, and how events of a job are numbered.
use ollama_remote_control.Prelude.{
  ℕ, ◌+◌, ◌≤◌, ◌<◌, ◌≡◌, refl, inl, inr, Bool, true, false, not, ◌&&◌, ◌||◌, List, [], ◌∷◌, ◌++◌,
  map, arith, Bool-cases, text_eq, text_eq→eq, text_eq_self, if◌then◌else◌, any,
}
use ollama_remote_control.Modelfile.Chars.{Text}
use ollama_remote_control.Jobs.Data.{
  JobState, same_state, StoredJob, StoredJobEvent, JobTransitionUpdate,
}
use ollama_remote_control.Jobs.Store.{
  is_active, locks, has_id, distinct_locks, in_state, apply_update, update_rows, max_sequence,
  of_job,
}

pub any-append {ℓ} :
    {A : Type ℓ} (p : A → Bool) (xs ys : List A) → any p (xs ++ ys) ≡ (any p xs || any p ys)
unfolding any
any-append p [] ys = refl
any-append p (x ∷ xs) ys = ground (arith, any-append p xs ys)

pub same_state→eq : (a b : JobState) → same_state a b ≡ true → a ≡ b
same_state→eq a b h = ground arith

pub same_state_self : (a : JobState) → same_state a a ≡ true
same_state_self a = ground arith

pub distinct_locks-concat :
    (js : List StoredJob) (j : StoredJob)
    → distinct_locks js ≡ true
    → (j.mutating && is_active j.state && any (locks j.target_id) js) ≡ false
    → distinct_locks (js ++ j ∷ []) ≡ true
unfolding distinct_locks any
distinct_locks-concat [] j h e = ground arith
distinct_locks-concat (i ∷ is) j h e = ground (
  arith,
  distinct_locks-concat is j,
  any-append (locks i.target_id) is (j ∷ []),
  text_eq→eq i.target_id j.target_id,
  text_eq→eq j.target_id i.target_id,
  text_eq_self i.target_id,
)

-- A mapping that makes the test pass nowhere new.
any-weaker :
    {A : Type 0} (p : A → Bool) (f : A → A)
    → ((x : A) → p (f x) ≡ true → p x ≡ true)
    → (xs : List A) → any p (map f xs) ≡ true
    → any p xs ≡ true
unfolding any
any-weaker p f w [] h = h
any-weaker p f w (x ∷ xs) h = ground (arith, w x, any-weaker p f w xs)

stays_distinct :
    (a b c d a' b' c' d' : Bool)
    → ((a' && b') ≡ true → (a && b) ≡ true)
    → (c' ≡ true → c ≡ true)
    → (d ≡ true → d' ≡ true)
    → (not (a && b && c) && d) ≡ true
    → (not (a' && b' && c') && d') ≡ true
stays_distinct a b c d a' b' c' d' p q r h = ground arith

module _ (id : Text) (expected : JobState) (u : JobTransitionUpdate) where
  abbrev updated_row : StoredJob → StoredJob
  updated_row j = if in_state id expected j then apply_update u j else j

  updated_row-id : (j : StoredJob) → (updated_row j).id ≡ j.id
  updated_row-id j = ground arith

  updated_row-target : (j : StoredJob) → (updated_row j).target_id ≡ j.target_id
  updated_row-target j = ground arith

  module _ (keeps_idle : is_active u.state ≡ true → is_active expected ≡ true) where
    updated_row-locks :
        (target : Text) (j : StoredJob)
        → locks target (updated_row j) ≡ true
        → locks target j ≡ true
    updated_row-locks target j h = ground (arith, same_state→eq j.state expected)

    updated_row-indexed :
        (j : StoredJob)
        → ((updated_row j).mutating && is_active (updated_row j).state) ≡ true
        → (j.mutating && is_active j.state) ≡ true
    updated_row-indexed j h = ground (arith, same_state→eq j.state expected)

    any-update_rows :
        (target : Text) (js : List StoredJob)
        → any (locks target) (update_rows id expected u js) ≡ true
        → any (locks target) js ≡ true
    unfolding update_rows
    any-update_rows target js = any-weaker (locks target) updated_row (updated_row-locks target) js

    -- An update that makes no idle row active adds nothing to the index.
    pub distinct_locks-update_rows :
        (js : List StoredJob)
        → distinct_locks js ≡ true
        → distinct_locks (update_rows id expected u js) ≡ true
    unfolding update_rows distinct_locks
    distinct_locks-update_rows [] h = refl
    distinct_locks-update_rows (j ∷ js) h =
        stays_distinct j.mutating (is_active j.state) (any (locks j.target_id) js)
          (distinct_locks js) (updated_row j).mutating (is_active (updated_row j).state) _ _
          (updated_row-indexed j)
          (λ e. any-update_rows j.target_id js (rw (updated_row-target j) at e))
          (distinct_locks-update_rows js) h

  pub any-has_id-update_rows :
      (other : Text) (js : List StoredJob)
      → any (has_id other) (update_rows id expected u js) ≡ any (has_id other) js
  unfolding update_rows any
  any-has_id-update_rows other [] = refl
  any-has_id-update_rows other (j ∷ js) = ground (arith, any-has_id-update_rows other js)

-- No two rows share an id.
unfoldable pub distinct_ids : List StoredJob → Bool
distinct_ids [] = true
distinct_ids (j ∷ js) = not (any (has_id j.id) js) && distinct_ids js

pub distinct_ids-concat :
    (js : List StoredJob) (j : StoredJob)
    → distinct_ids js ≡ true
    → any (has_id j.id) js ≡ false
    → distinct_ids (js ++ j ∷ []) ≡ true
unfolding distinct_ids any
distinct_ids-concat [] j h e = ground arith
distinct_ids-concat (i ∷ is) j h e = ground (
  arith,
  distinct_ids-concat is j,
  any-append (has_id i.id) is (j ∷ []),
  text_eq→eq i.id j.id,
  text_eq→eq j.id i.id,
  text_eq_self i.id,
)

pub distinct_ids-update_rows :
    (id : Text) (expected : JobState) (u : JobTransitionUpdate) (js : List StoredJob)
    → distinct_ids js ≡ true
    → distinct_ids (update_rows id expected u js) ≡ true
unfolding distinct_ids update_rows
distinct_ids-update_rows id expected u [] h = refl
distinct_ids-update_rows id expected u (j ∷ js) h =
    ground (
      arith,
      distinct_ids-update_rows id expected u js,
      any-has_id-update_rows id expected u j.id js,
    )

-- The number of events of a job.
unfoldable pub count_events : Text → List StoredJobEvent → ℕ
count_events id [] = 0
count_events id (e ∷ es) = (if of_job id e then 1 else 0) + count_events id es

pub count_events-append :
    (id : Text) (es fs : List StoredJobEvent)
    → count_events id (es ++ fs) ≡ count_events id es + count_events id fs
unfolding count_events
count_events-append id [] fs = omega arith
count_events-append id (e ∷ es) fs = omega (arith, count_events-append id es fs)

-- The events of each job are numbered from one in the order of their insertion, behind those that
-- are counted by `before`.
abbrev pub Numbered : (Text → ℕ) → List StoredJobEvent → Type 0
Numbered before [] = Unit {0}
Numbered before (e ∷ es) =
    (e.sequence ≡ before e.job_id + 1)
    × Numbered (λ id. before id + (if of_job id e then 1 else 0)) es

pub Numbered-concat :
    (before : Text → ℕ) (es : List StoredJobEvent) (e : StoredJobEvent)
    → Numbered before es
    → e.sequence ≡ before e.job_id + count_events e.job_id es + 1
    → Numbered before (es ++ e ∷ [])
unfolding count_events
Numbered-concat before [] e h s = (omega (arith, s), tt)
Numbered-concat before (f ∷ fs) e h s = (
  h.0,
  Numbered-concat (λ id. before id + (if of_job id f then 1 else 0)) fs e h.1 (omega (arith, s)),
)

pub Numbered-max_sequence :
    (id : Text) (before : Text → ℕ) (es : List StoredJobEvent)
    → Numbered before es
    → (max_sequence id es ≤ before id + count_events id es)
      × (0 < count_events id es → max_sequence id es ≡ before id + count_events id es)
unfolding max_sequence count_events
Numbered-max_sequence id before [] h = (omega arith, λ p. absurd (omega arith))
Numbered-max_sequence id before (e ∷ es) h =
    let ih = Numbered-max_sequence id (λ i. before i + (if of_job i e then 1 else 0)) es h.1 in
    elim (Bool-cases (text_eq e.job_id id)) [
      | inl own ↦
          let here : e.sequence ≡ before id + 1 = rw (← text_eq→eq e.job_id id own) h.0 in
          ground (arith, ih.0, ih.1)
      | inr other ↦ ground (arith, ih.0, ih.1)
    ]

-- The next number of a job whose events are numbered.
pub next-sequence :
    (id : Text) (es : List StoredJobEvent)
    → Numbered (λ i. 0) es
    → max_sequence id es ≡ count_events id es
next-sequence id es h =
    let (le, eq) = Numbered-max_sequence id (λ i. 0) es h in ground (arith, le, eq)
