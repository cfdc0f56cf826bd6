-- ===== src/Modelfile/Source.antt =====
-- The data of packages/core/src/modelfile-parser.ts: positions, ranges, nodes, diagnostics and the
-- parse result. The text of a diagnostic's message is left out, and the id string
-- `${kind}:${start}:${end}` of a node is kept as its three parts.
use ollama_remote_control.Prelude.{ℕ, Bool, List}
use ollama_remote_control.Modelfile.Chars.{Text}

pub data DirectiveName : Type 0 where
  from draft parameter template system adapter license message renderer parser requires :
      DirectiveName

pub data Severity : Type 0 where
  error warning info : Severity

pub data DiagnosticCode : Type 0 where
  directive_argument_required directive_single_line_required parameter_value_required :
      DiagnosticCode
  message_content_required opaque_text unknown_directive unclosed_multiline : DiagnosticCode
  from_required from_duplicate : DiagnosticCode

pub record SourcePosition : Type 0 where
  pub offset : ℕ
  pub line : ℕ
  pub column : ℕ

pub record SourceRange : Type 0 where
  pub start : SourcePosition
  pub end : SourcePosition

pub record Diagnostic : Type 0 where
  pub severity : Severity
  pub code : DiagnosticCode
  pub range : SourceRange

pub data NodeKind : Type 0 where
  blank_kind comment_kind opaque_text_kind : NodeKind
  directive_kind : DirectiveName → NodeKind
  opaque_directive_kind : Text → NodeKind

pub record NodeId : Type 0 where
  pub kind : NodeKind
  pub from_offset : ℕ
  pub to_offset : ℕ

pub record NodeBase : Type 0 where
  pub id : NodeId
  pub raw : Text
  pub range : SourceRange

pub record DirectiveNode : Type 0 where
  pub base : NodeBase
  pub name : DirectiveName
  pub original_name : Text
  pub argument : Text
  pub argument_range : SourceRange
  pub multiline : Bool
  pub structured_editable : Bool

pub record OpaqueDirectiveNode : Type 0 where
  pub base : NodeBase
  pub original_name : Text
  pub argument : Text
  pub argument_range : SourceRange
  pub multiline : Bool

pub data Node : Type 0 where
  blank : NodeBase → Node
  comment : NodeBase → Node
  directive : DirectiveNode → Node
  opaque_directive : OpaqueDirectiveNode → Node
  opaque_text : NodeBase → Node

abbrev pub node_base : Node → NodeBase
node_base (blank b) = b
node_base (comment b) = b
node_base (directive d) = d.base
node_base (opaque_directive d) = d.base
node_base (opaque_text b) = b

pub data LineEnding : Type 0 where
  lf crlf mixed no_ending : LineEnding

pub record ParsedModelfile : Type 0 where
  pub raw : Text
  pub line_ending : LineEnding
  pub nodes : List Node
  pub diagnostics : List Diagnostic
  pub has_opaque_syntax : Bool

-- The errors that `parseModelfile` throws; `out_of_fuel` is the model's own, and is never returned.
pub data ParseError : Type 0 where
  nul_character source_too_large too_many_nodes out_of_fuel : ParseError
