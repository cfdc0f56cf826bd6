-- ===== src/Modelfile/Edit/Patch.antt =====
-- `replaceDirectiveArgument` (packages/core/src/modelfile-parser.ts) and the operations of
-- packages/core/src/modelfile-editor.ts that patch the source text and parse it again.
use ollama_remote_control.Prelude.{
  ℕ, Bool, true, false, not, ◌&&◌, ◌||◌, Option, none, some, List, [], ◌∷◌, ◌++◌, reverse, leb,
  ◌==◌, text_eq, if◌then◌else◌, length, get_elem?, slice, select, find, any, Result, ok, err, ◌>>=◌,
  ◌>>◌, require,
}
use ollama_remote_control.Modelfile.Chars.{
  Text, codes, is_empty, is_space, trim, includes_unit, utf8_bytes,
}
use ollama_remote_control.Modelfile.Source.{
  DirectiveName, draft, parameter, template, system, adapter, license, message, renderer, parser,
  NodeKind, blank_kind, comment_kind, opaque_text_kind, directive_kind, opaque_directive_kind,
  NodeId, DirectiveNode, Node, node_base, directive, opaque_directive, lf, crlf, mixed, no_ending,
  ParsedModelfile, ParseError,
}
use ollama_remote_control.Modelfile.Lines.{unit_is}
use ollama_remote_control.Modelfile.Directive.{name_text, max_raw_bytes}
use ollama_remote_control.Modelfile.Parse.{parse_modelfile}
use ollama_remote_control.Modelfile.Edit.Args.{
  KeyValueMatch, match_key_value, has_newline, TextArgument, parse_text_argument, triple_quote,
}

pub record PatchResult : Type 0 where
  pub raw : Text
  pub parsed : ParsedModelfile

-- What the operations throw; `unparsable` is an error of the parser on the patched text.
pub data EditError : Type 0 where
  invalid_argument node_not_found not_editable argument_too_large : EditError
  duplicate_singleton multiline_input multiline_node : EditError
  unparsable : ParseError → EditError

-- The id of a node as `${kind}:${start}:${end}` spells its kind.
abbrev pub kind_text : NodeKind → Text
kind_text blank_kind = codes "blank"
kind_text comment_kind = codes "comment"
kind_text opaque_text_kind = codes "opaque-text"
kind_text (directive_kind n) = codes "directive:" ++ name_text n
kind_text (opaque_directive_kind t) = codes "opaque-directive:" ++ t

abbrev pub same_id : NodeId → NodeId → Bool
same_id a b =
    text_eq (kind_text a.kind) (kind_text b.kind)
    && a.from_offset == b.from_offset
    && a.to_offset == b.to_offset

abbrev pub find_node : ParsedModelfile → NodeId → Option Node
find_node parsed id = find (λ n. same_id (node_base n).id id) parsed.nodes

-- `{ raw: nextRaw, parsed: parseModelfile(nextRaw) }`
unfoldable pub reparse : Text → Result EditError PatchResult
reparse raw = elim (parse_modelfile raw) [
  | ok parsed ↦ ok (record { raw = raw; parsed = parsed })
  | err e ↦ err (unparsable e)
]

-- The text with the slice from `start` to `end` replaced.
abbrev pub splice : Text → ℕ → ℕ → Text → Text
splice raw start end next = slice raw 0 start ++ (next ++ slice raw end (length raw))

unfoldable pub patch_argument :
    ParsedModelfile → DirectiveNode → Text → Result EditError PatchResult
patch_argument parsed d next =
    let start = d.argument_range.start.offset in
    let end = d.argument_range.end.offset in
    if text_eq (slice parsed.raw start end) next
    then ok (record { raw = parsed.raw; parsed = parsed })
    else reparse (splice parsed.raw start end next)

-- The node tests of `replaceDirectiveArgument`, in their order.
unfoldable pub editable_directive : Option Node → Result EditError DirectiveNode
editable_directive (some (directive d)) = if d.structured_editable then ok d else err not_editable
editable_directive (some (opaque_directive d)) = err not_editable
editable_directive _ = err node_not_found

unfoldable pub replace_directive_argument :
    ParsedModelfile → NodeId → Text → Result EditError PatchResult
replace_directive_argument parsed id next = do
  require (not (includes_unit 0 next)) invalid_argument
  d ← editable_directive (find_node parsed id)
  require (leb (utf8_bytes next) max_raw_bytes) argument_too_large
  patch_argument parsed d next

-- `raw.lastIndexOf('\n')` is taken on the text from its end; the line feed found is `\r\n` if a
-- carriage return stands before it.
abbrev pub last_ending_is_crlf : Text → Bool
last_ending_is_crlf reversed = elim reversed [
  | [] ↦ false
  | c ∷ (cs → before) ↦ if c == 10 then unit_is (get_elem? cs 0) 13 else before
]

unfoldable pub preferred_line_ending : ParsedModelfile → Text
preferred_line_ending parsed = elim parsed.line_ending [
  | crlf ↦ 13 ∷ 10 ∷ []
  | lf ↦ 10 ∷ []
  | mixed ↦ if last_ending_is_crlf (reverse parsed.raw) then 13 ∷ 10 ∷ [] else 10 ∷ []
  | no_ending ↦ 10 ∷ []
]

unfoldable pub ends_with_line_ending : Text → Bool
ends_with_line_ending raw = unit_is (get_elem? (reverse raw) 0) 10

-- `SINGLETON_DIRECTIVES.has(name)`
abbrev pub is_singleton : DirectiveName → Bool
is_singleton parameter = false
is_singleton adapter = false
is_singleton message = false
is_singleton _ = true

-- The names whose structured input must stay on one line.
abbrev pub wants_single_line : DirectiveName → Bool
wants_single_line parameter = true
wants_single_line message = true
wants_single_line draft = true
wants_single_line renderer = true
wants_single_line parser = true
wants_single_line _ = false

abbrev pub is_directive_named : DirectiveName → Node → Bool
is_directive_named name (directive d) = text_eq (name_text d.name) (name_text name)
is_directive_named name _ = false

unfoldable pub directive_nodes : ParsedModelfile → DirectiveName → List Node
directive_nodes parsed name = select (is_directive_named name) parsed.nodes

abbrev pub is_none_of : List Node → Bool
is_none_of [] = true
is_none_of (n ∷ ns) = false

-- What is written behind `parsed.raw`.
unfoldable pub appended_suffix : ParsedModelfile → DirectiveName → Text → Text
appended_suffix parsed name argument =
    let ending = preferred_line_ending parsed in
    let separator =
      if not (is_empty parsed.raw) && not (ends_with_line_ending parsed.raw) then ending else [] in
    separator ++ (name_text name ++ (32 ∷ (argument ++ ending)))

unfoldable pub append_directive :
    ParsedModelfile → DirectiveName → Text → Result EditError PatchResult
append_directive parsed name argument = do
  require (not (includes_unit 0 argument)) invalid_argument
  require (not (is_singleton name && not (is_none_of (directive_nodes parsed name))))
      duplicate_singleton
  require (not (wants_single_line name && has_newline argument)) multiline_input
  reparse (parsed.raw ++ appended_suffix parsed name argument)

-- The node tests of `removeDirective`.
unfoldable pub removable_directive : Option Node → Result EditError DirectiveNode
removable_directive (some (directive d)) = if d.structured_editable then ok d else err not_editable
removable_directive _ = err node_not_found

unfoldable pub remove_directive : ParsedModelfile → NodeId → Result EditError PatchResult
remove_directive parsed id = do
  d ← removable_directive (find_node parsed id)
  reparse (splice parsed.raw d.base.range.start.offset d.base.range.end.offset [])

-- The node tests of `replaceKeyValueArgument`.
unfoldable pub key_value_directive : Option Node → Result EditError DirectiveNode
key_value_directive (some (directive d)) = elim d.name [
  | parameter ↦ ok d
  | message ↦ ok d
  | _ ↦ err node_not_found
]
key_value_directive _ = err node_not_found

unfoldable pub rebuilt_argument : Option KeyValueMatch → Text → Text → Text
rebuilt_argument none key value = key ++ (32 ∷ value)
rebuilt_argument (some m) key value = m.leading ++ (key ++ (m.separator ++ (value ++ m.trailing)))

unfoldable pub replace_key_value_argument :
    ParsedModelfile → NodeId → Text → Text → Result EditError PatchResult
replace_key_value_argument parsed id key value = do
  require
      (not (
        is_empty (trim key)
        || any is_space key
        || includes_unit 0 key
        || includes_unit 0 value
        || has_newline value))
      invalid_argument
  d ← key_value_directive (find_node parsed id)
  require (not (d.multiline || has_newline d.argument)) multiline_node
  replace_directive_argument parsed d.base.id
      (rebuilt_argument (match_key_value d.argument) key value)

-- The node tests of `replaceTextArgument`.
unfoldable pub text_directive : Option Node → Result EditError DirectiveNode
text_directive (some (directive d)) = elim d.name [
  | template ↦ ok d
  | system ↦ ok d
  | license ↦ ok d
  | _ ↦ err node_not_found
]
text_directive _ = err node_not_found

unfoldable pub rebuilt_text : TextArgument → Text → Text
rebuilt_text current value =
    if current.triple_quoted || includes_unit 10 value || includes_unit 13 value
    then current.leading_whitespace
      ++ (triple_quote ++ (value ++ (triple_quote ++ current.trailing_whitespace)))
    else current.leading_whitespace ++ (value ++ current.trailing_whitespace)

unfoldable pub replace_text_argument :
    ParsedModelfile → NodeId → Text → Result EditError PatchResult
replace_text_argument parsed id value = do
  require (not (includes_unit 0 value)) invalid_argument
  d ← text_directive (find_node parsed id)
  let current = parse_text_argument d.argument
  if text_eq current.value value
      then ok (record { raw = parsed.raw; parsed = parsed })
      else replace_directive_argument parsed d.base.id (rebuilt_text current value)
