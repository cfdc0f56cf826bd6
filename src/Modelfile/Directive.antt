-- ===== src/Modelfile/Directive.antt =====
-- The directive names, `DIRECTIVE_PATTERN`, `tripleQuoteCount`, `diagnostic`,
-- `validateKnownDirective` and `structuredEditable` of packages/core/src/modelfile-parser.ts.
use ollama_remote_control.Prelude.{
  ℕ, ◌+◌, ◌%◌, Bool, true, false, not, ◌&&◌, Option, none, some, List, [], ◌∷◌, ◌++◌, leb, ◌==◌,
  text_eq, if◌then◌else◌, length, any, take_while, drop_while,
}
use ollama_remote_control.Modelfile.Chars.{
  Text, codes, is_space, is_line_terminator, is_blank, is_letter, is_name_char, trim, is_empty,
}
use ollama_remote_control.Modelfile.Source.{
  DirectiveName, from, draft, parameter, template, system, adapter, license, message, renderer,
  parser, requires, Severity, error, DiagnosticCode, directive_argument_required,
  directive_single_line_required, parameter_value_required, message_content_required, SourceRange,
  Diagnostic, DirectiveNode,
}

abbrev pub name_text : DirectiveName → Text
name_text from = codes "FROM"
name_text draft = codes "DRAFT"
name_text parameter = codes "PARAMETER"
name_text template = codes "TEMPLATE"
name_text system = codes "SYSTEM"
name_text adapter = codes "ADAPTER"
name_text license = codes "LICENSE"
name_text message = codes "MESSAGE"
name_text renderer = codes "RENDERER"
name_text parser = codes "PARSER"
name_text requires = codes "REQUIRES"

abbrev pub known_directives : List DirectiveName
known_directives =
    from ∷ draft ∷ parameter ∷ template ∷ system ∷ adapter ∷ license ∷ message ∷ renderer ∷ parser
    ∷ requires ∷ []

-- `KNOWN_DIRECTIVES.has(text)`, with the name that it is.
unfoldable pub find_name : Text → List DirectiveName → Option DirectiveName
find_name t [] = none
find_name t (n ∷ ns) = if text_eq t (name_text n) then some n else find_name t ns

-- `SINGLE_LINE_DIRECTIVES.has(name)`
abbrev pub is_single_line : DirectiveName → Bool
is_single_line draft = true
is_single_line renderer = true
is_single_line parser = true
is_single_line _ = false

abbrev pub max_raw_bytes : ℕ
max_raw_bytes = 524288

abbrev pub max_nodes : ℕ
max_nodes = 20000

abbrev pub max_diagnostics : ℕ
max_diagnostics = 256

-- The four groups of `DIRECTIVE_PATTERN`.
pub record DirectiveMatch : Type 0 where
  pub leading : Text
  pub original_name : Text
  pub separator : Text
  pub first_argument : Text

abbrev starts_with_letter : Text → Bool
starts_with_letter [] = false
starts_with_letter (c ∷ cs) = is_letter c

-- `/^(\s*)([A-Za-z][A-Za-z0-9_-]*)([ \t]*)(.*)$/u.exec(content)`. Each group is followed by what it
-- cannot match, so the greedy match is the only one.
unfoldable pub match_directive : Text → Option DirectiveMatch
match_directive content =
    let named = drop_while is_space content in
    let separated = drop_while is_name_char named in
    let argument = drop_while is_blank separated in
    if starts_with_letter named && not (any is_line_terminator argument)
    then some (record {
      leading = take_while is_space content;
      original_name = take_while is_name_char named;
      separator = take_while is_blank separated;
      first_argument = argument;
    })
    else none

-- The index moves by three past a match, by one otherwise.
unfoldable pub triple_quote_count : Text → ℕ
triple_quote_count [] = 0
triple_quote_count (a ∷ []) = 0
triple_quote_count (a ∷ b ∷ []) = 0
triple_quote_count (a ∷ b ∷ c ∷ rest) = elim (a == b'"' && b == b'"' && c == b'"') [
  | true ↦ 1 + triple_quote_count rest
  | false ↦ triple_quote_count (b ∷ c ∷ rest)
]

unfoldable pub requires_multiline_continuation : Text → Bool
requires_multiline_continuation argument = triple_quote_count argument % 2 == 1

unfoldable pub diagnostic :
    List Diagnostic → Severity → DiagnosticCode → SourceRange → List Diagnostic
diagnostic ds severity code range =
    if leb max_diagnostics (length ds)
    then ds
    else ds ++ (record { severity = severity; code = code; range = range } ∷ [])

abbrev starts_with_blank : Text → Bool
starts_with_blank [] = false
starts_with_blank (c ∷ cs) = is_blank c

-- `/^(\S+)[ \t]+(.+)$/su` on a trimmed argument, whose last character is no white space: it matches
-- when a space or tab ends the first word, and the second group then trims to something.
unfoldable pub has_key_and_value : Text → Bool
has_key_and_value argument =
    let word = take_while (λ c. not (is_space c)) argument in
    let rest = drop_while (λ c. not (is_space c)) argument in
    not (is_empty word) && starts_with_blank rest && not (is_empty (drop_while is_blank rest))

-- The last two tests of `validateKnownDirective`, of which a name meets one at most.
unfoldable pub validate_pair :
    DirectiveName → Text → SourceRange → List Diagnostic → List Diagnostic
validate_pair parameter argument r ds =
    if has_key_and_value argument then ds else diagnostic ds error parameter_value_required r
validate_pair message argument r ds =
    if has_key_and_value argument then ds else diagnostic ds error message_content_required r
validate_pair _ argument r ds = ds

unfoldable pub validate_known_directive : DirectiveNode → List Diagnostic → List Diagnostic
validate_known_directive node ds =
    let argument = trim node.argument in
    if is_empty argument
    then diagnostic ds error directive_argument_required node.argument_range
    else validate_pair node.name argument node.argument_range (
        if is_single_line node.name && node.multiline
        then diagnostic ds error directive_single_line_required node.argument_range
        else ds)

-- `KNOWN_DIRECTIVES.has(name)` holds of every directive name.
unfoldable pub is_structured_editable : DirectiveName → Bool → Bool → Bool
is_structured_editable name multiline_balanced multiline =
    if not multiline_balanced
    then false
    else if is_single_line name && multiline
    then false
    else true
