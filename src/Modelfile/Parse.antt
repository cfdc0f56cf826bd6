-- ===== src/Modelfile/Parse.antt =====
-- `parseModelfile` of packages/core/src/modelfile-parser.ts: the guards, the loop over the physical
-- lines and the check of the FROM directives. The index of the loop is the list of the lines that
-- it has not reached. Its fuel is the number of lines, and every round takes one line at least.
pub mod Loop
pub mod Extents
pub mod Tiling
pub mod Diagnostics
pub mod Gate
pub mod Sound
use ollama_remote_control.Prelude.{
  ℕ, zero, suc, ◌+◌, ◌%◌, Bool, true, false, not, Option, none, some, List, [], ◌∷◌, ◌++◌, leb,
  ◌==◌, if◌then◌else◌, length, slice, select, Result, ok, err, ◌>>=◌, ◌>>◌, require,
}
use ollama_remote_control.Modelfile.Chars.{
  Text, is_empty, trim, trim_start, to_upper, includes_unit, utf8_bytes,
}
use ollama_remote_control.Modelfile.Source.{
  DirectiveName, from, error, warning, info, DiagnosticCode, unknown_directive, unclosed_multiline,
  from_required, from_duplicate, SourceRange, Diagnostic, NodeKind, blank_kind, comment_kind,
  opaque_text_kind, directive_kind, opaque_directive_kind, NodeBase, DirectiveNode, Node, blank,
  comment, directive, opaque_directive, opaque_text, ParsedModelfile, ParseError, nul_character,
  source_too_large, too_many_nodes, out_of_fuel,
}
use ollama_remote_control.Modelfile.Lines.{
  PhysicalLine, split_physical_lines, detected_line_ending, range,
}
use ollama_remote_control.Modelfile.Directive.{
  find_name, known_directives, max_raw_bytes, max_nodes, DirectiveMatch, match_directive,
  triple_quote_count, requires_multiline_continuation, diagnostic, validate_known_directive,
  is_structured_editable,
}

-- The variables of `parseModelfile` that the loop changes, its index aside.
pub record Parsing : Type 0 where
  pub nodes : List Node
  pub diagnostics : List Diagnostic
  pub has_opaque_syntax : Bool

-- Where a directive ends: `lines[endLineIndex]`, the lines behind it, `endLineIndex > index` and
-- `multilineBalanced`.
pub record Extent : Type 0 where
  pub last : PhysicalLine
  pub rest : List PhysicalLine
  pub multiline : Bool
  pub balanced : Bool

-- The loop over `candidate`: `last` is the last line taken, `count` is `quoteCount`.
unfoldable pub continuation : ℕ → PhysicalLine → Bool → List PhysicalLine → Extent
continuation count last multiline [] = record {
  last = last;
  rest = [];
  multiline = multiline;
  balanced = false;
}
continuation count last multiline (l ∷ ls) =
    let total = count + triple_quote_count l.content in
    elim (total % 2 == 0) [
      | true ↦ record { last = l; rest = ls; multiline = true; balanced = true }
      | false ↦ continuation total l true ls
    ]

unfoldable pub directive_extent : Text → PhysicalLine → List PhysicalLine → Extent
directive_extent first_argument first rest =
    if requires_multiline_continuation first_argument
    then continuation (triple_quote_count first_argument) first false rest
    else record { last = first; rest = rest; multiline = false; balanced = true }

abbrev starts_with_hash : Text → Bool
starts_with_hash [] = false
starts_with_hash (c ∷ cs) = c == b'#'

abbrev pub argument_start : PhysicalLine → DirectiveMatch → ℕ
argument_start first m =
    first.start + length m.leading + length m.original_name + length m.separator

module _ (raw : Text) (lines : List PhysicalLine) where
  -- `kind`, `id`, `raw` and `range` of the node from `start` to `end`.
  abbrev pub node_at : NodeKind → ℕ → ℕ → NodeBase
  node_at kind start end = record {
    id = record { kind = kind; from_offset = start; to_offset = end };
    raw = slice raw start end;
    range = range lines start end;
  }

  unfoldable pub push_blank : PhysicalLine → Parsing → Parsing
  push_blank first p = record p {
    nodes = p.nodes ++ (blank (node_at blank_kind first.start first.end) ∷ []);
  }

  unfoldable pub push_comment : PhysicalLine → Parsing → Parsing
  push_comment first p = record p {
    nodes = p.nodes ++ (comment (node_at comment_kind first.start first.end) ∷ []);
  }

  unfoldable pub push_opaque_text : PhysicalLine → Parsing → Parsing
  push_opaque_text first p = record {
    nodes = p.nodes ++ (opaque_text (node_at opaque_text_kind first.start first.end) ∷ []);
    diagnostics =
        diagnostic p.diagnostics warning DiagnosticCode.opaque_text
          (range lines first.start first.content_end);
    has_opaque_syntax = true;
  }

  abbrev pub directive_node : DirectiveName → PhysicalLine → DirectiveMatch → Extent → DirectiveNode
  directive_node name first m x = record {
    base = node_at (directive_kind name) first.start x.last.end;
    name = name;
    original_name = m.original_name;
    argument = slice raw (argument_start first m) x.last.content_end;
    argument_range = range lines (argument_start first m) x.last.content_end;
    multiline = x.multiline;
    structured_editable = is_structured_editable name x.balanced x.multiline;
  }

  unfoldable pub push_directive :
      DirectiveName → PhysicalLine → DirectiveMatch → Extent → Parsing → Parsing
  push_directive name first m x p =
      let node = directive_node name first m x in
      let validated = validate_known_directive node p.diagnostics in
      record p {
        nodes = p.nodes ++ (directive node ∷ []);
        diagnostics =
            if x.balanced
            then validated
            else diagnostic validated error unclosed_multiline node.base.range;
      }

  unfoldable pub push_opaque_directive : PhysicalLine → DirectiveMatch → Extent → Parsing → Parsing
  push_opaque_directive first m x p =
      let name_start = first.start + length m.leading in
      let noted =
        diagnostic p.diagnostics info unknown_directive
          (range lines name_start (name_start + length m.original_name)) in
      record {
        nodes =
            p.nodes
            ++ (opaque_directive (record {
              base =
                  node_at (opaque_directive_kind (to_upper m.original_name)) first.start x.last.end;
              original_name = m.original_name;
              argument = slice raw (argument_start first m) x.last.content_end;
              argument_range = range lines (argument_start first m) x.last.content_end;
              multiline = x.multiline;
            })
                ∷ []);
        diagnostics =
            if x.balanced
            then noted
            else diagnostic noted error unclosed_multiline (range lines first.start x.last.end);
        has_opaque_syntax = true;
      }

  -- The branch on `isKnown`.
  unfoldable pub push_matched :
      Option DirectiveName → PhysicalLine → DirectiveMatch → Extent → Parsing → Parsing
  push_matched (some name) = push_directive name
  push_matched none = push_opaque_directive

  unfoldable pub parse_match :
      Option DirectiveMatch
      → PhysicalLine
      → List PhysicalLine
      → Parsing
      → Parsing × List PhysicalLine
  parse_match none first rest p = (push_opaque_text first p, rest)
  parse_match (some m) first rest p =
      let x = directive_extent m.first_argument first rest in
      (push_matched (find_name (to_upper m.original_name) known_directives) first m x p, x.rest)

  -- One round: the line that the index is at, and the lines behind it.
  unfoldable pub parse_line :
      PhysicalLine → List PhysicalLine → Parsing → Parsing × List PhysicalLine
  parse_line first rest p =
      if is_empty (trim first.content)
      then (push_blank first p, rest)
      else if starts_with_hash (trim_start first.content)
      then (push_comment first p, rest)
      else parse_match (match_directive first.content) first rest p

  unfoldable pub parse_lines : ℕ → List PhysicalLine → Parsing → Result ParseError Parsing
  parse_lines fuel [] p = ok p
  parse_lines zero (first ∷ rest) p = err out_of_fuel
  parse_lines (suc fuel) (first ∷ rest) p = elim (leb max_nodes (length p.nodes)) [
    | true ↦ err too_many_nodes
    | false ↦ let (p', rest') = parse_line first rest p in parse_lines fuel rest' p'
  ]

abbrev pub is_from : Node → Bool
is_from (directive d) = elim d.name [ from ↦ true | _ ↦ false ]
is_from _ = false

abbrev pub from_nodes : List Node → List Node
from_nodes = select is_from

abbrev pub node_range : Node → SourceRange
node_range (blank b) = b.range
node_range (comment b) = b.range
node_range (directive d) = d.base.range
node_range (opaque_directive d) = d.base.range
node_range (opaque_text b) = b.range

-- `for (const duplicate of fromNodes.slice(1))`
unfoldable pub report_duplicates : List Node → List Diagnostic → List Diagnostic
report_duplicates [] ds = ds
report_duplicates (n ∷ ns) ds =
    report_duplicates ns (diagnostic ds error from_duplicate (node_range n))

unfoldable pub check_from : List PhysicalLine → List Node → List Diagnostic → List Diagnostic
check_from lines [] ds = diagnostic ds error from_required (range lines 0 0)
check_from lines (n ∷ ns) ds = report_duplicates ns ds

abbrev pub start_parsing : Parsing
start_parsing = record { nodes = []; diagnostics = []; has_opaque_syntax = false }

abbrev pub finish_parsing : Text → List PhysicalLine → Parsing → ParsedModelfile
finish_parsing raw lines p = record {
  raw = raw;
  line_ending = detected_line_ending raw;
  nodes = p.nodes;
  diagnostics = check_from lines (from_nodes p.nodes) p.diagnostics;
  has_opaque_syntax = p.has_opaque_syntax;
}

unfoldable pub parse_modelfile : Text → Result ParseError ParsedModelfile
parse_modelfile raw = do
  require (not (includes_unit 0 raw)) nul_character
  require (leb (utf8_bytes raw) max_raw_bytes) source_too_large
  let lines = split_physical_lines raw
  p ← parse_lines raw lines (length lines) lines start_parsing
  ok (finish_parsing raw lines p)

-- `renderModelfile`
unfoldable pub render_modelfile : ParsedModelfile → Text
render_modelfile parsed = parsed.raw
