-- ===== src/Update/Execute/Alive.antt =====
-- While `execute` of apps/api/src/update-orchestrator.ts works: its job is running, the tables of the
-- jobs are well formed, and no identifier to be drawn is taken.
use ollama_remote_control.Prelude.{
  ℕ, ◌+◌, ◌≤◌, ◌≡◌, refl, sym, ap, ◌∙◌, inl, inr, ◌⊎◌, Bool, true, false, ◌&&◌, ◌||◌, some, List,
  [], ◌∷◌, ◌++◌, arith, text_eq, text_eq→eq, any, find, Result, ok, err, Bool-cases, ltb, length,
}
use ollama_remote_control.Modelfile.Chars.{Text, is_empty, trim}
use ollama_remote_control.Jobs.Data.{
  JobState, succeeded, same_state, StoredJob, StoredJobEvent, TransitionInput,
}
use ollama_remote_control.Jobs.Deployments.{model_create}
use ollama_remote_control.Jobs.Store.{Tables, has_id, find_by_id}
use ollama_remote_control.Jobs.Rows.{any-append}
use ollama_remote_control.Jobs.Service.{
  JobError, may_become, is_truthy, new_state_event, transition_update,
}
use ollama_remote_control.Jobs.Invariant.{WellFormed}
use ollama_remote_control.Jobs.Safety.{
  append_call, transition_call, call, call-WellFormed, append-cases, transition-cases,
}
use ollama_remote_control.Jobs.Advance.{append_job_event-appends, transition-advances_other}
use ollama_remote_control.Update.Effects.{World, StoredTarget, StoredAuditEvent}
use ollama_remote_control.Update.Stores.{
  Supply, Thrown, job_call, thrown_job, append_to_job, transition_job, record_audit,
  AuditRecordInput, rebind_container, swap_binding, append_audit, update_bindings,
}
use ollama_remote_control.Update.Triples.{
  Meets, Triple, Keeps, keeps_rules, Keeps-bind, Keeps-gets, Keeps-modify,
}

abbrev pub is_event : Text → StoredJobEvent → Bool
is_event id f = text_eq f.id id

-- No identifier that is still to be drawn is that of an event.
abbrev pub IsFresh : {R : Type 0} → Supply → World R → Type 0
IsFresh s w = (k : ℕ) → w.draws ≤ k → any (is_event (s.uuid k)) w.tables.events ≡ false

-- The job `id`, whose kind is not model-create, is in `state`.
abbrev pub StandsAt : {R : Type 0} → Text → JobState → World R → Type 0
StandsAt id state w =
    (j : StoredJob) × (find_by_id id w.tables ≡ some j)
    × (j.state ≡ state)
    × (text_eq j.kind model_create ≡ false)

pub record Alive {R : Type 0} (s : Supply) (id : Text) (state : JobState) (w : World R)
    : Type 0 where
  pub well_formed : WellFormed w.tables
  pub fresh : IsFresh s w
  pub stands : StandsAt id state w

-- The identifiers of a supply are distinct.
abbrev pub IsDistinct : Supply → Type 0
IsDistinct s = (a b : ℕ) → s.uuid a ≡ s.uuid b → a ≡ b

module _ (s : Supply) (distinct : IsDistinct s) where
  -- An event that took the next identifier leaves the later ones free.
  pub fresh_behind :
      (es : List StoredJobEvent) (e : StoredJobEvent) (n k : ℕ)
      → e.id ≡ s.uuid n
      → n + 1 ≤ k
      → any (is_event (s.uuid k)) es ≡ false
      → any (is_event (s.uuid k)) (es ++ e ∷ []) ≡ false
  unfolding any
  fresh_behind es e n k own behind free = elim (Bool-cases (text_eq e.id (s.uuid k))) [
    | inl same ↦ absurd (omega (arith, distinct n k (sym own ∙ text_eq→eq e.id (s.uuid k) same)))
    | inr other ↦ rw (any-append (is_event (s.uuid k)) es (e ∷ []), free, other) refl
  ]

  -- What a call of the job service leaves behind, if it adds one event at most.
  after_call :
      {R : Type 0} (id : Text) (state : JobState) (w : World R) (t : Tables)
      → IsFresh s w
      → WellFormed t
      → (t.events ≡ w.tables.events)
        ⊎ ((e : StoredJobEvent) × (t.events ≡ w.tables.events ++ e ∷ []) × (e.id ≡ s.uuid w.draws))
      → (j : StoredJob) → find_by_id id t ≡ some j
      → (j.state ≡ state) × (text_eq j.kind model_create ≡ false)
      → Alive s id state (record w { tables = t; draws = w.draws + 1 })
  after_call id state w t free good (inl same) j found at = record {
    well_formed = good;
    fresh = λ k le. rw same (free k (omega arith));
    stands = (j, found, at.0, at.1);
  }
  after_call id state w t free good (inr (e, added, own)) j found at = record {
    well_formed = good;
    fresh =
        λ k le. rw added (fresh_behind w.tables.events e w.draws k own le (free k (omega arith)));
    stands = (j, found, at.0, at.1);
  }

  job_call-Keeps :
      {R A : Type 0} (K : World R → Type 0) (n : ℕ) (f : ℕ → Tables → Result JobError A × Tables)
      → ((w : World R)
          → K w
          → K (record w { tables = (f w.draws w.tables).1; draws = w.draws + n }))
      → Keeps K (job_call n f)
  job_call-Keeps {R} {A} K n f after = record {
    at = λ w h. go (f w.draws w.tables).0 _ (after w h);
  }
    where
      go :
          (r : Result JobError A) (v : World R)
          → K v
          → Meets {E = Thrown} (λ _. K) (λ _. K) (thrown_job r, v)
      go (ok a) v h = h
      go (err e) v h = h

  module _ {R : Type 0} (id : Text) (state : JobState) where
    pub append_to_job-Alive :
        (job_id event_type payload : Text)
        → Keeps (Alive {R = R} s id state) (append_to_job s job_id event_type payload)
    unfolding append_to_job call find_by_id
    append_to_job-Alive job_id event_type payload =
        job_call-Keeps (Alive {R = R} s id state) 1 _ λ w h.
          let uuid = s.uuid w.draws in
          let now = s.clock w.draws in
          let good =
            call-WellFormed (append_call uuid now job_id event_type payload) w.tables
              h.well_formed in
          let (j, found, at, other) = h.stands in
          elim (append-cases uuid now job_id event_type payload w.tables) [
            | inl (same, _) ↦
                after_call id state w _ h.fresh good (inl (ap (λ t. t.events) same)) j
                  (ap (λ t. find (has_id id) t.jobs) same ∙ found) (at, other)
            | inr (_, rows, _) ↦
                after_call id state w _ h.fresh good (inr (_, ap (λ t. t.events) rows, refl)) j
                  (ap (λ t. find (has_id id) t.jobs) rows ∙ found) (at, other)
          ]

    -- An event of the job is added, if its type is within its bounds.
    pub append_to_job-adds :
        (event_type payload : Text)
        → (is_empty (trim event_type) || ltb 80 (length (trim event_type))) ≡ false
        → Triple
            (Alive {R = R} s id state)
            (append_to_job s id event_type payload)
            (λ _. Alive s id state)
            (λ _ _. ⊥)
    unfolding append_to_job
    append_to_job-adds event_type payload bounded = record {
      at = λ w h.
          let (j, found, _, _) = h.stands in
          let (e, got) =
            append_job_event-appends (s.uuid w.draws) (s.clock w.draws) id event_type payload
              w.tables j found bounded (h.fresh w.draws (omega arith)) in
          let kept = (append_to_job-Alive id event_type payload).at w h in rw got (rw got at kept);
    }

    -- A transition along `TRANSITIONS` takes place.
    pub transition_job-Alive :
        (next : JobState) (input : TransitionInput)
        → may_become state next ≡ true
        → (same_state next succeeded && is_truthy input.error_class) ≡ false
        → Triple
            (Alive {R = R} s id state)
            (transition_job s id next input)
            (λ _. Alive s id next)
            (λ _ _. ⊥)
    unfolding transition_job call new_state_event transition_update
    transition_job-Alive next input allowed clean = record {
      at = λ w h.
          let uuid = s.uuid w.draws in
          let now = s.clock w.draws in
          let good =
            call-WellFormed (transition_call uuid now id next input) w.tables h.well_formed in
          let (j, found, at, other) = h.stands in
          let (got, after) =
            transition-advances_other uuid now id next input w.tables j h.well_formed found
              (rw at allowed) clean (h.fresh w.draws (omega arith)) other in
          rw got (elim (transition-cases uuid now id next input w.tables) [
            | inl (_, fails) ↦ absurd (fails _ got)
            | inr (_, _, _, _, _, rows, _, _) ↦
                after_call id next w _ h.fresh good (inr (_, ap (λ t. t.events) rows, refl)) _ after
                  (refl, other)
          ]);
    }

-- A condition that the other stores play no part in.
pub record IsAboutJobs {R : Type 0} (K : World R → Type 0) : Type 0 where
  pub drawn : (w : World R) → K w → K (record w { draws = w.draws + 1 })
  pub audited : (w : World R) (rows : List StoredAuditEvent) → K w → K (record w { audits = rows })
  pub bound : (w : World R) (rows : List StoredTarget) → K w → K (record w { targets = rows })

pub Alive-IsAboutJobs :
    {R : Type 0} (s : Supply) (id : Text) (state : JobState)
    → IsAboutJobs (Alive {R = R} s id state)
Alive-IsAboutJobs s id state = record {
  drawn = λ w h. record {
    well_formed = h.well_formed;
    fresh = λ k le. h.fresh k (omega arith);
    stands = h.stands;
  };
  audited = λ w rows h. record { well_formed = h.well_formed; fresh = h.fresh; stands = h.stands };
  bound = λ w rows h. record { well_formed = h.well_formed; fresh = h.fresh; stands = h.stands };
}

pub StandsAt-IsAboutJobs :
    {R : Type 0} (id : Text) (state : JobState) → IsAboutJobs (StandsAt {R = R} id state)
StandsAt-IsAboutJobs id state = record {
  drawn = λ w h. h;
  audited = λ w rows h. h;
  bound = λ w rows h. h;
}

module _ {R : Type 0} {K : World R → Type 0} (about : IsAboutJobs K) where
  append_audit-Keeps : (e : StoredAuditEvent) → Keeps K (append_audit e)
  unfolding append_audit
  append_audit-Keeps e =
      Keeps-bind (Keeps-gets _)
        λ rows. search (keeps_rules, Keeps-modify _ (λ w. about.audited w (rows ++ (e ∷ []))))

  pub record_audit-Keeps : (s : Supply) (input : AuditRecordInput) → Keeps K (record_audit s input)
  unfolding record_audit
  record_audit-Keeps s input = search (keeps_rules, append_audit-Keeps, Keeps-modify _ about.drawn)

  swap_binding-Keeps : (id expected next now : Text) → Keeps K (swap_binding id expected next now)
  unfolding swap_binding
  swap_binding-Keeps id expected next now = Keeps-bind (Keeps-gets _) λ targets. search (
    keeps_rules,
    Keeps-modify _ (λ w. about.bound w (update_bindings id expected next now targets)),
  )

  pub rebind_container-Keeps :
      (id expected next now : Text) → Keeps K (rebind_container id expected next now)
  unfolding rebind_container
  rebind_container-Keeps id expected next now =
      search (keeps_rules, swap_binding-Keeps id expected next now)
