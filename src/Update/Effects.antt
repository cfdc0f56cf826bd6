-- ===== src/Update/Effects.antt =====
-- What a handler such as `execute` of apps/api/src/update-orchestrator.ts works on: the tables, the
-- supply of identifiers and times, and the remote host, with exceptions. State that was written
-- before an exception stays written.
use ollama_remote_control.Prelude.{ℕ, Bool, true, false, Option, List}
use ollama_remote_control.Modelfile.Chars.{Text}
use ollama_remote_control.Jobs.Store.{Tables}

-- `StoredOllamaTarget` of packages/core/src/index.ts: the fields that a binding reads.
pub record StoredTarget : Type 0 where
  pub id : Text
  pub host_id : Text
  pub selected_container_id : Text
  pub enabled : Bool
  pub updated_at : Text

-- A row of `audit_events`.
pub record StoredAuditEvent : Type 0 where
  pub id : Text
  pub timestamp : Text
  pub actor_user_id : Text
  pub host_id : Option Text
  pub target_id : Option Text
  pub action : Text
  pub parameters_redacted_json : Text
  pub result : Text
  pub error_class : Option Text
  pub job_id : Option Text

-- `draws` counts the identifiers that have been drawn; `remote` is the state of what lies outside.
pub record World (R : Type 0) : Type 0 where
  pub tables : Tables
  pub targets : List StoredTarget
  pub audits : List StoredAuditEvent
  pub draws : ℕ
  pub remote : R

pub data Outcome (E A : Type 0) : Type 0 where
  returned : A → Outcome E A
  thrown : E → Outcome E A

abbrev pub Action : Type 0 → Type 0 → Type 0 → Type 0
Action R E A = World R → Outcome E A × World R

module _ {R E A : Type 0} where
  unfoldable pub pure : A → Action R E A
  pure a w = (returned a, w)

  unfoldable pub throw : E → Action R E A
  throw e w = (thrown e, w)

  unfoldable pub gets : (World R → A) → Action R E A
  gets f w = (returned (f w), w)

unfoldable pub modify : {R E : Type 0} → (World R → World R) → Action R E (Unit {0})
modify f w = (returned tt, f w)

abbrev pub continue :
    {R E A B : Type 0} → (A → Action R E B) → Outcome E A × World R → Outcome E B × World R
continue f (returned a, w) = f a w
continue f (thrown e, w) = (thrown e, w)

infixl 5 ◌>>=◌ ◌>>◌
unfoldable pub ◌>>=◌ : {R E A B : Type 0} → Action R E A → (A → Action R E B) → Action R E B
◌>>=◌ m f w = continue f (m w)

abbrev pub ◌>>◌ : {R E A B : Type 0} → Action R E A → Action R E B → Action R E B
m >> k = m >>= λ _. k

abbrev pub recover_from :
    {R E F A : Type 0} → (E → Action R F A) → Outcome E A × World R → Outcome F A × World R
recover_from h (returned a, w) = (returned a, w)
recover_from h (thrown e, w) = h e w

-- `try { return m; } catch (error) { return h(error); }`
unfoldable pub catch : {R E F A : Type 0} → Action R E A → (E → Action R F A) → Action R F A
catch m h w = recover_from h (m w)

-- `try { m; } catch { }`
unfoldable pub quietly : {R E F A : Type 0} → Action R E A → Action R F (Unit {0})
quietly m = catch (m >> pure tt) (λ _. pure tt)

-- The errors of `m`, with the values that the local variables have when they are thrown.
unfoldable pub with_progress : {R E P A : Type 0} → P → Action R E A → Action R (E × P) A
with_progress p m = catch m (λ e. throw (e, p))

-- `if (!test) throw error`
unfoldable pub assert : {R E : Type 0} → Bool → E → Action R E (Unit {0})
assert true e = pure tt
assert false e = throw e
