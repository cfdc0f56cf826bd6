-- ===== src/Jobs/Evidence.antt =====
-- What the trigger of packages/db/migrations/0010_modelfile_deployments.sql does to a guarded update of one
-- job: it sees the row of that job and no other.
use mathlib.Core.Option.{some_inj}
use ollama_remote_control.Prelude.{
  ◌≡◌, refl, inl, inr, Bool-cases, true, false, some, List, [], ◌∷◌, arith, text_eq→eq, any, find,
  if◌then◌else◌, ok, err, ◌>>=◌, Result,
}
use ollama_remote_control.Modelfile.Chars.{Text}
use ollama_remote_control.Jobs.Data.{JobState, StoredJob, JobTransitionUpdate, StoreError}
use ollama_remote_control.Jobs.Deployments.{Deployment, needs_deployment, record_deployment}
use ollama_remote_control.Jobs.Store.{Tables, has_id, apply_update, update_rows, record_deployments}
use ollama_remote_control.Jobs.Rows.{same_state_self, distinct_ids}

-- What the trigger makes of the row of `current`.
abbrev pub evidence :
    Text → StoredJob → JobTransitionUpdate → Tables → Result StoreError (List Deployment)
evidence id current u t =
    if needs_deployment current (apply_update u current)
    then record_deployment t.sql t.revisions (update_rows id current.state u t.jobs) t.deployments
        (apply_update u current)
    else ok t.deployments

module _ (id : Text) (u : JobTransitionUpdate) (t : Tables) (after : List StoredJob) where
  record_deployments-absent :
      (s : JobState) (js : List StoredJob) (ds : List Deployment)
      → any (has_id id) js ≡ false
      → record_deployments id s u t after js ds ≡ ok ds
  unfolding any record_deployments
  record_deployments-absent s [] ds h = refl
  record_deployments-absent s (j ∷ js) ds h = ground (arith, record_deployments-absent s js ds)

  bind-absent :
      (s : JobState) (js : List StoredJob) (r : Result StoreError (List Deployment))
      → any (has_id id) js ≡ false
      → (r >>= λ ds. record_deployments id s u t after js ds) ≡ r
  bind-absent s js (ok ds) h = record_deployments-absent s js ds h
  bind-absent s js (err e) h = refl

  pub record_deployments-single :
      (js : List StoredJob) (c : StoredJob) (ds : List Deployment)
      → distinct_ids js ≡ true
      → find (has_id id) js ≡ some c
      → record_deployments id c.state u t after js ds ≡ (
          if needs_deployment c (apply_update u c)
          then record_deployment t.sql t.revisions after ds (apply_update u c)
          else ok ds)
  unfolding distinct_ids record_deployments
  record_deployments-single [] c ds d e = cc
  record_deployments-single (j ∷ js) c ds d e = elim (Bool-cases (has_id id j)) [
    | inl own ↦
        let same : some j ≡ some c = rw (own, find) at e in
        let row : j ≡ c = some_inj.0 same in
        let rest : any (has_id id) js ≡ false = ground (arith, text_eq→eq j.id id own) in
        rw (row, bind-absent c.state js _ rest) (rw (rw row at own, same_state_self c.state) refl)
    | inr other ↦
        let below : find (has_id id) js ≡ some c = rw (other, find) at e in
        rw other (record_deployments-single js c ds (ground arith) below)
  ]
