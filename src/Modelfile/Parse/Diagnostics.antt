-- ===== src/Modelfile/Parse/Diagnostics.antt =====
-- What the diagnostics of `parseModelfile` (packages/core/src/modelfile-parser.ts) say of the nodes,
-- as far as the limit of 256 diagnostics lets them.
use ollama_remote_control.Prelude.{
  ◌≤◌, ◌<◌, ◌≡◌, refl, inl, inr, Bool, true, false, ◌&&◌, ◌||◌, List, [], ◌∷◌, ◌++◌, arith, leb,
  if◌then◌else◌, Bool-cases, length, length-append, All, All-append,
}
use ollama_remote_control.Modelfile.Chars.{Text, is_empty, trim}
use ollama_remote_control.Modelfile.Source.{
  DirectiveName, parameter, message, Severity, error, DiagnosticCode, SourceRange, Diagnostic,
  DirectiveNode, directive_single_line_required,
}
use ollama_remote_control.Modelfile.Directive.{
  max_diagnostics, has_key_and_value, diagnostic, is_single_line, validate_pair,
  validate_known_directive,
}

abbrev pub is_error : Severity → Bool
is_error error = true
is_error _ = false

-- `diagnostics.some((diagnostic) => diagnostic.severity === 'error')`, the gate of
-- `compileModelfileForDeploy` (packages/core/src/modelfile-deploy.ts).
abbrev pub has_error : List Diagnostic → Bool
has_error [] = false
has_error (d ∷ ds) = is_error d.severity || has_error ds

has_error-append : (ds es : List Diagnostic) → has_error (ds ++ es) ≡ (has_error ds || has_error es)
has_error-append [] es = refl
has_error-append (d ∷ ds) es = ground (arith, has_error-append ds es)

-- Diagnostics are only added, and no more than the limit.
pub record Extends (ds es : List Diagnostic) : Type 0 where
  pub longer : length ds ≤ length es
  pub capped : length ds ≤ max_diagnostics → length es ≤ max_diagnostics
  pub errors_stay : has_error ds ≡ true → has_error es ≡ true

pub Extends-refl : (ds : List Diagnostic) → Extends ds ds
Extends-refl ds = record { longer = omega arith; capped = λ h. h; errors_stay = λ h. h }

pub Extends-trans : {ds es fs : List Diagnostic} → Extends ds es → Extends es fs → Extends ds fs
Extends-trans p q = record {
  longer = omega (arith, p.longer, q.longer);
  capped = λ h. q.capped (p.capped h);
  errors_stay = λ h. q.errors_stay (p.errors_stay h);
}

pub diagnostic-Extends :
    (ds : List Diagnostic) (s : Severity) (c : DiagnosticCode) (r : SourceRange)
    → Extends ds (diagnostic ds s c r)
unfolding diagnostic
diagnostic-Extends ds s c r = record {
  longer = ground (arith, length-append ds (record { severity = s; code = c; range = r } ∷ []));
  capped =
      λ h. ground (arith, length-append ds (record { severity = s; code = c; range = r } ∷ []));
  errors_stay =
      λ h. ground (arith, has_error-append ds (record { severity = s; code = c; range = r } ∷ []));
}

-- Room is left among the diagnostics, and none is an error.
abbrev pub IsClear : List Diagnostic → Type 0
IsClear ds = (length ds < max_diagnostics) × (has_error ds ≡ false)

pub IsClear-before : {ds es : List Diagnostic} → Extends ds es → IsClear es → IsClear ds
IsClear-before x c = (omega (arith, x.longer), ground (arith, x.errors_stay))

-- A reported error shows, unless the limit was met.
pub not-IsClear_error :
    (ds : List Diagnostic) (c : DiagnosticCode) (r : SourceRange)
    → ¬ (IsClear (diagnostic ds error c r))
unfolding diagnostic
not-IsClear_error ds c r h =
    ground (arith, has_error-append ds (record { severity = error; code = c; range = r } ∷ []))

abbrev pub ErrorsOnly : List Diagnostic → Type 0
ErrorsOnly = All (λ d. is_error d.severity ≡ true)

-- Errors are added, and nothing else.
pub record Reports (ds es : List Diagnostic) : Type 0 where
  pub extends : Extends ds es
  pub errors_only : ErrorsOnly ds → ErrorsOnly es

pub Reports-refl : (ds : List Diagnostic) → Reports ds ds
Reports-refl ds = record { extends = Extends-refl ds; errors_only = λ h. h }

pub Reports-trans : {ds es fs : List Diagnostic} → Reports ds es → Reports es fs → Reports ds fs
Reports-trans p q = record {
  extends = Extends-trans p.extends q.extends;
  errors_only = λ h. q.errors_only (p.errors_only h);
}

diagnostic-ErrorsOnly :
    (ds : List Diagnostic) (c : DiagnosticCode) (r : SourceRange)
    → ErrorsOnly ds
    → ErrorsOnly (diagnostic ds error c r)
unfolding diagnostic
diagnostic-ErrorsOnly ds c r h = elim (Bool-cases (leb max_diagnostics (length ds))) [
  | inl full ↦ rw full h
  | inr room ↦ rw room (All-append (λ d. is_error d.severity ≡ true) ds _ h (refl, tt))
]

pub diagnostic-Reports :
    (ds : List Diagnostic) (c : DiagnosticCode) (r : SourceRange)
    → Reports ds (diagnostic ds error c r)
diagnostic-Reports ds c r = record {
  extends = diagnostic-Extends ds error c r;
  errors_only = diagnostic-ErrorsOnly ds c r;
}

abbrev pub takes_pair : DirectiveName → Bool
takes_pair parameter = true
takes_pair message = true
takes_pair _ = false

validate_pair-Reports :
    (n : DirectiveName) (t : Text) (r : SourceRange) (ds : List Diagnostic)
    → Reports ds (validate_pair n t r ds)
unfolding validate_pair
validate_pair-Reports parameter t r ds = elim (Bool-cases (has_key_and_value t)) [
  | inl e ↦ rw e (Reports-refl ds)
  | inr e ↦ rw e (diagnostic-Reports ds _ _)
]
validate_pair-Reports message t r ds = elim (Bool-cases (has_key_and_value t)) [
  | inl e ↦ rw e (Reports-refl ds)
  | inr e ↦ rw e (diagnostic-Reports ds _ _)
]
validate_pair-Reports _ t r ds = Reports-refl ds

validate_pair-clear :
    (n : DirectiveName) (t : Text) (r : SourceRange) (ds : List Diagnostic)
    → IsClear (validate_pair n t r ds)
    → takes_pair n ≡ true
    → has_key_and_value t ≡ true
unfolding validate_pair
validate_pair-clear parameter t r ds c h = elim (Bool-cases (has_key_and_value t)) [
  | inl e ↦ e
  | inr e ↦ absurd (not-IsClear_error ds _ r (rw e at c))
]
validate_pair-clear message t r ds c h = elim (Bool-cases (has_key_and_value t)) [
  | inl e ↦ e
  | inr e ↦ absurd (not-IsClear_error ds _ r (rw e at c))
]
validate_pair-clear _ t r ds c h = cc

module _ (node : DirectiveNode) (ds : List Diagnostic) where
  single_checked : List Diagnostic
  single_checked =
      if is_single_line node.name && node.multiline
      then diagnostic ds error directive_single_line_required node.argument_range
      else ds

  single_checked-Reports : Reports ds single_checked
  unfolding single_checked
  single_checked-Reports = elim (Bool-cases (is_single_line node.name && node.multiline)) [
    | inl e ↦ rw e (diagnostic-Reports ds _ _)
    | inr e ↦ rw e (Reports-refl ds)
  ]

  single_checked-clear : IsClear single_checked → is_single_line node.name && node.multiline ≡ false
  unfolding single_checked
  single_checked-clear c = elim (Bool-cases (is_single_line node.name && node.multiline)) [
    | inl e ↦ absurd (not-IsClear_error ds _ node.argument_range (rw e at c))
    | inr e ↦ e
  ]

  pub validate-Reports : Reports ds (validate_known_directive node ds)
  unfolding validate_known_directive single_checked
  validate-Reports = elim (Bool-cases (is_empty (trim node.argument))) [
    | inl e ↦ rw e (diagnostic-Reports ds _ _)
    | inr e ↦ rw e (
        Reports-trans single_checked-Reports
          (validate_pair-Reports node.name (trim node.argument) node.argument_range single_checked))
  ]

  -- Where validation leaves the diagnostics clear, all that it tests holds of the node.
  pub validate-clear :
      IsClear (validate_known_directive node ds)
      → (is_empty (trim node.argument) ≡ false)
        × (takes_pair node.name ≡ true → has_key_and_value (trim node.argument) ≡ true)
        × (is_single_line node.name && node.multiline ≡ false)
  unfolding validate_known_directive single_checked
  validate-clear c = elim (Bool-cases (is_empty (trim node.argument))) [
    | inl e ↦ absurd (not-IsClear_error ds _ node.argument_range (rw e at c))
    | inr e ↦
        let c' = rw e at c in
        (
          e,
          validate_pair-clear node.name (trim node.argument) node.argument_range single_checked c',
          single_checked-clear (
              IsClear-before
                (validate_pair-Reports node.name (trim node.argument) node.argument_range
                  single_checked).extends
                c'),
        )
  ]
