-- ===== src/Modelfile/Parse/Gate.antt =====
-- What a parse of packages/core/src/modelfile-parser.ts with no error diagnostic proves of a file:
-- the gate that packages/core/src/modelfile-deploy.ts relies on.
use ollama_remote_control.Prelude.{
  ◌≤◌, ◌≡◌, refl, inl, inr, Bool, true, false, ◌&&◌, ◌||◌, Option, none, some, List, [], ◌∷◌, ◌++◌,
  arith, leb, if◌then◌else◌, Bool-cases, length, length-append, All, All-append,
}
use ollama_remote_control.Modelfile.Chars.{Text, is_empty, trim, trim_start, to_upper}
use ollama_remote_control.Modelfile.Source.{
  DirectiveName, error, SourceRange, Diagnostic, DirectiveNode, Node, directive, opaque_directive,
  opaque_text, unclosed_multiline,
}
use ollama_remote_control.Modelfile.Lines.{PhysicalLine}
use ollama_remote_control.Modelfile.Directive.{
  DirectiveMatch, match_directive, max_nodes, max_diagnostics, has_key_and_value, diagnostic,
  is_single_line, validate_known_directive, is_structured_editable, find_name, known_directives,
}
use ollama_remote_control.Modelfile.Parse.{
  Parsing, Extent, directive_extent, directive_node, push_blank, push_comment, push_opaque_text,
  push_directive, push_opaque_directive, push_matched, parse_match, parse_line, starts_with_hash,
}
use ollama_remote_control.Modelfile.Parse.Diagnostics.{
  Extends, Extends-refl, Extends-trans, diagnostic-Extends, IsClear, IsClear-before,
  not-IsClear_error, takes_pair, ErrorsOnly, Reports, Reports-refl, Reports-trans,
  diagnostic-Reports, validate-Reports, validate-clear,
}

-- A directive that the structured editor and the deployment can rely on: it has an argument, which
-- is a word and a value for PARAMETER and MESSAGE, and it can be edited in place.
pub record IsUsable (d : DirectiveNode) : Type 0 where
  pub argument_present : is_empty (trim d.argument) ≡ false
  pub pair_present : takes_pair d.name ≡ true → has_key_and_value (trim d.argument) ≡ true
  pub editable : d.structured_editable ≡ true

abbrev pub Usable : Node → Type 0
Usable (directive d) = IsUsable d
Usable _ = Unit {0}

abbrev pub is_opaque : Node → Bool
is_opaque (opaque_directive d) = true
is_opaque (opaque_text b) = true
is_opaque _ = false

abbrev pub has_opaque : List Node → Bool
has_opaque [] = false
has_opaque (n ∷ ns) = is_opaque n || has_opaque ns

has_opaque-concat :
    (ns : List Node) (n : Node) → has_opaque (ns ++ n ∷ []) ≡ (has_opaque ns || is_opaque n)
has_opaque-concat [] n = ground arith
has_opaque-concat (m ∷ ms) n = ground (arith, has_opaque-concat ms n)

-- What one round does to the nodes, the diagnostics and the flag.
pub record Adds (p q : Parsing) : Type 0 where
  pub node : Node
  pub pushed : q.nodes ≡ p.nodes ++ node ∷ []
  pub extends : Extends p.diagnostics q.diagnostics
  pub flagged : q.has_opaque_syntax ≡ (p.has_opaque_syntax || is_opaque node)
  pub usable : IsClear q.diagnostics → Usable node
  pub errors_only :
      q.has_opaque_syntax ≡ false → ErrorsOnly p.diagnostics → ErrorsOnly q.diagnostics

unclosed-Reports :
    (balanced : Bool) (ds : List Diagnostic) (r : SourceRange)
    → Reports ds (if balanced then ds else diagnostic ds error unclosed_multiline r)
unclosed-Reports true ds r = Reports-refl ds
unclosed-Reports false ds r = diagnostic-Reports ds unclosed_multiline r

unclosed-clear :
    (balanced : Bool) (ds : List Diagnostic) (r : SourceRange)
    → IsClear (if balanced then ds else diagnostic ds error unclosed_multiline r)
    → balanced ≡ true
unclosed-clear true ds r c = refl
unclosed-clear false ds r c = absurd (not-IsClear_error ds unclosed_multiline r c)

editable_when_clear :
    (n : DirectiveName) (balanced multiline : Bool)
    → balanced ≡ true
    → is_single_line n && multiline ≡ false
    → is_structured_editable n balanced multiline ≡ true
unfolding is_structured_editable
editable_when_clear n balanced multiline b s = ground arith

or_false : (b : Bool) → b ≡ (b || false)
or_false b = ground arith

or_true : (b : Bool) → true ≡ (b || true)
or_true b = ground arith

module _ (raw : Text) (lines : List PhysicalLine) (first : PhysicalLine) (p : Parsing) where
  push_directive-Adds :
      (name : DirectiveName) (m : DirectiveMatch) (x : Extent)
      → Adds p (push_directive raw lines name first m x p)
  unfolding push_directive
  push_directive-Adds name m x =
      let node = directive_node raw lines name first m x in
      let validated = validate_known_directive node p.diagnostics in
      let closing = unclosed-Reports x.balanced validated node.base.range in
      let reports = Reports-trans (validate-Reports node p.diagnostics) closing in
      record {
        node = directive node;
        pushed = refl;
        extends = reports.extends;
        flagged = or_false p.has_opaque_syntax;
        usable = λ c.
            let (present, pair, single) =
              validate-clear node p.diagnostics (IsClear-before closing.extends c) in
            record {
              argument_present = present;
              pair_present = pair;
              editable =
                  editable_when_clear name x.balanced x.multiline
                    (unclosed-clear x.balanced validated node.base.range c) single;
            };
        errors_only = λ _. reports.errors_only;
      }

  push_opaque_directive-Adds :
      (m : DirectiveMatch) (x : Extent) → Adds p (push_opaque_directive raw lines first m x p)
  unfolding push_opaque_directive
  push_opaque_directive-Adds m x = record {
    node = _;
    pushed = refl;
    extends =
        Extends-trans (diagnostic-Extends p.diagnostics _ _ _)
          (unclosed-Reports x.balanced _ _).extends;
    flagged = or_true p.has_opaque_syntax;
    usable = λ c. tt;
    errors_only = λ e. cc;
  }

  parse_match-Adds :
      (m : Option DirectiveMatch) (rest : List PhysicalLine)
      → Adds p (parse_match raw lines m first rest p).0
  unfolding parse_match push_opaque_text push_matched
  parse_match-Adds none rest = record {
    node = _;
    pushed = refl;
    extends = diagnostic-Extends p.diagnostics _ _ _;
    flagged = or_true p.has_opaque_syntax;
    usable = λ c. tt;
    errors_only = λ e. cc;
  }
  parse_match-Adds (some m) rest =
      matched (find_name (to_upper m.original_name) known_directives)
        (directive_extent m.first_argument first rest)
    where
      matched :
          (name : Option DirectiveName) (x : Extent)
          → Adds p (push_matched raw lines name first m x p)
      matched none x = push_opaque_directive-Adds m x
      matched (some name) x = push_directive-Adds name m x

  pub parse_line-Adds : (rest : List PhysicalLine) → Adds p (parse_line raw lines first rest p).0
  unfolding parse_line push_blank push_comment
  parse_line-Adds rest = elim (Bool-cases (is_empty (trim first.content))) [
    | inl blank_line ↦ rw blank_line (record {
      node = _;
      pushed = refl;
      extends = Extends-refl p.diagnostics;
      flagged = or_false p.has_opaque_syntax;
      usable = λ c. tt;
      errors_only = λ _ h. h;
    })
    | inr other ↦ elim (Bool-cases (starts_with_hash (trim_start first.content))) [
      | inl comment_line ↦
          rw (other, comment_line)
            (record {
              node = _;
              pushed = refl;
              extends = Extends-refl p.diagnostics;
              flagged = or_false p.has_opaque_syntax;
              usable = λ c. tt;
              errors_only = λ _ h. h;
            })
      | inr text_line ↦
          rw (other, text_line) (parse_match-Adds (match_directive first.content) rest)
    ]
  ]

-- What every round of the loop keeps.
pub record ParsingInv (p : Parsing) : Type 0 where
  pub nodes_capped : length p.nodes ≤ max_nodes
  pub diagnostics_capped : length p.diagnostics ≤ max_diagnostics
  pub flag_is : p.has_opaque_syntax ≡ has_opaque p.nodes
  pub clear_usable : IsClear p.diagnostics → All Usable p.nodes
  pub errors_only : p.has_opaque_syntax ≡ false → ErrorsOnly p.diagnostics

pub ParsingInv-Adds :
    (p q : Parsing)
    → Adds p q
    → leb max_nodes (length p.nodes) ≡ false
    → ParsingInv p
    → ParsingInv q
ParsingInv-Adds p q a room h = record {
  nodes_capped = rw a.pushed (ground (arith, length-append p.nodes (a.node ∷ [])));
  diagnostics_capped = a.extends.capped h.diagnostics_capped;
  flag_is = rw (a.pushed, has_opaque-concat, a.flagged, h.flag_is);
  clear_usable = λ c. rw a.pushed (
      All-append Usable p.nodes (a.node ∷ []) (h.clear_usable (IsClear-before a.extends c))
        (a.usable c, tt));
  errors_only = λ e. a.errors_only e (h.errors_only (ground (arith, a.flagged)));
}
