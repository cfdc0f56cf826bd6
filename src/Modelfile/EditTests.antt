-- ===== src/Modelfile/EditTests.antt =====
-- Runs of the structured edits on the sample file, and the theorems about them at that file.
use ollama_remote_control.Prelude.{
  ℕ, ◌≡◌, ◌⊎◌, ◌||◌, refl, length, Bool, true, false, some, [], ◌∷◌, Result, ok, err, suffix_while,
  before_suffix, ◌++◌,
}
use ollama_remote_control.Modelfile.Chars.{Text, codes, is_space, includes_unit}
use ollama_remote_control.Modelfile.Source.{
  DirectiveName, system, renderer, adapter, directive_kind, NodeId, DirectiveNode, directive,
  ParsedModelfile, ParseError,
}
use ollama_remote_control.Modelfile.Parse.{parse_modelfile}
use ollama_remote_control.Modelfile.Runs.{
  run_parse, sample, sample_parsed, sample_parses, blank_file,
}
use ollama_remote_control.Modelfile.Edit.Args.{
  has_newline, match_key_value, match_triple_quoted, plain_text_argument, text_argument_of,
  parse_text_argument, parse_key_value_argument,
}
use ollama_remote_control.Modelfile.Edit.Patch.{
  PatchResult, EditError, find_node, reparse, patch_argument, editable_directive,
  replace_directive_argument, preferred_line_ending, ends_with_line_ending, directive_nodes,
  appended_suffix, append_directive, removable_directive, remove_directive, key_value_directive,
  rebuilt_argument, replace_key_value_argument, text_directive, rebuilt_text, replace_text_argument,
  is_singleton, wants_single_line,
}
use ollama_remote_control.Modelfile.Edit.Local.{
  Replaced, replace_directive_argument-Replaced, remove_directive-cut,
}
use ollama_remote_control.Modelfile.Edit.ReadBack.{replace_text_argument-reads_back}
use ollama_remote_control.Modelfile.Edit.Append.{Appended, append_directive-extends}
use ollama_remote_control.Modelfile.Directive.{name_text}
use ollama_remote_control.Modelfile.Edit.RoundTrip.{
  render_text_argument, parse_text_argument-render, parse_text_argument-blank,
}

-- The names that a run of an edit computes through.
run_edit : Text → Result ParseError ParsedModelfile
unfolding run_parse sample_parsed has_newline match_key_value match_triple_quoted
    plain_text_argument text_argument_of parse_text_argument reparse patch_argument
    editable_directive replace_directive_argument preferred_line_ending ends_with_line_ending
    directive_nodes appended_suffix append_directive removable_directive remove_directive
    key_value_directive rebuilt_argument replace_key_value_argument text_directive rebuilt_text
    replace_text_argument suffix_while before_suffix parse_key_value_argument
run_edit = parse_modelfile

abbrev result_or_blank : Result EditError PatchResult → PatchResult
result_or_blank (ok r) = r
result_or_blank (err e) = record { raw = []; parsed = blank_file }

abbrev is_ok : Result EditError PatchResult → Bool
is_ok (ok r) = true
is_ok (err e) = false

result-eq-ok : (r : Result EditError PatchResult) → is_ok r ≡ true → r ≡ ok (result_or_blank r)
result-eq-ok (ok r) h = refl
result-eq-ok (err e) h = cc

abbrev id_of : DirectiveName → ℕ → ℕ → NodeId
id_of name a b = record { kind = directive_kind name; from_offset = a; to_offset = b }

abbrev system_id : NodeId
system_id = id_of system 14 31

replaced : PatchResult
replaced = result_or_blank (replace_directive_argument sample_parsed system_id (codes "new"))

replaced-is_ok : is_ok (replace_directive_argument sample_parsed system_id (codes "new")) ≡ true
unfolding run_edit
replaced-is_ok = refl

replaced_ok : replace_directive_argument sample_parsed system_id (codes "new") ≡ ok replaced
unfolding replaced
replaced_ok =
    result-eq-ok (replace_directive_argument sample_parsed system_id (codes "new")) replaced-is_ok

replaced_text : replaced.raw ≡ codes "# note\nFROM a\nSYSTEM new\n\nPARAMETER k 1"
unfolding run_edit replaced
replaced_text = refl

replace_directive_argument-Replaced_example :
    (d : DirectiveNode) × Replaced sample sample_parsed system_id (codes "new") replaced d
replace_directive_argument-Replaced_example =
    replace_directive_argument-Replaced sample (codes "new") system_id sample_parses replaced_ok

removed : PatchResult
removed = result_or_blank (remove_directive sample_parsed system_id)

removed-is_ok : is_ok (remove_directive sample_parsed system_id) ≡ true
unfolding run_edit
removed-is_ok = refl

removed_ok : remove_directive sample_parsed system_id ≡ ok removed
unfolding removed
removed_ok = result-eq-ok (remove_directive sample_parsed system_id) removed-is_ok

remove_directive-cut_example :
    (d : DirectiveNode) × (before : Text) × (after : Text) × (find_node sample_parsed system_id
      ≡ some (directive d))
    × (d.structured_editable ≡ true)
    × (sample ≡ before ++ (d.base.raw ++ after))
    × (removed.raw ≡ before ++ after)
    × (length before ≡ d.base.id.from_offset)
    × (parse_modelfile removed.raw ≡ ok removed.parsed)
remove_directive-cut_example = remove_directive-cut sample system_id sample_parses removed_ok

appended : PatchResult
appended = result_or_blank (append_directive sample_parsed renderer (codes "r1"))

appended-is_ok : is_ok (append_directive sample_parsed renderer (codes "r1")) ≡ true
unfolding run_edit
appended-is_ok = refl

appended_ok : append_directive sample_parsed renderer (codes "r1") ≡ ok appended
unfolding appended
appended_ok = result-eq-ok (append_directive sample_parsed renderer (codes "r1")) appended-is_ok

append_directive-extends_example :
    Appended sample_parsed.raw appended.raw
      (name_text renderer ++ (32 ∷ codes "r1"))
      (preferred_line_ending sample_parsed)
    × (is_singleton renderer ≡ true → directive_nodes sample_parsed renderer ≡ [])
    × (wants_single_line renderer ≡ true → has_newline (codes "r1") ≡ false)
    × (parse_modelfile appended.raw ≡ ok appended.parsed)
append_directive-extends_example =
    append_directive-extends sample_parsed renderer (codes "r1") appended_ok

parse_text_argument-render_example :
    render_text_argument (parse_text_argument (codes " a b ")) ≡ codes " a b "
parse_text_argument-render_example =
    parse_text_argument-render (codes " a b ") (unfold is_space in λ e. cc)

parse_text_argument-blank_example :
    render_text_argument (parse_text_argument (codes " ")) ≡ codes "  "
parse_text_argument-blank_example = parse_text_argument-blank (codes " ") (unfold is_space in refl)

rewritten : PatchResult
rewritten = result_or_blank (replace_text_argument sample_parsed system_id (codes "x\ny"))

rewritten-is_ok : is_ok (replace_text_argument sample_parsed system_id (codes "x\ny")) ≡ true
unfolding run_edit
rewritten-is_ok = refl

rewritten_ok : replace_text_argument sample_parsed system_id (codes "x\ny") ≡ ok rewritten
unfolding rewritten
rewritten_ok =
    result-eq-ok (replace_text_argument sample_parsed system_id (codes "x\ny")) rewritten-is_ok

replace_text_argument-reads_back_example :
    (d : DirectiveNode) × (find_node sample_parsed system_id ≡ some (directive d))
    × (let current = parse_text_argument d.argument in
        let value = codes "x\ny" in
        let quoted = current.triple_quoted || includes_unit 10 value || includes_unit 13 value in
        ((current.value ≡ value) × (rewritten.raw ≡ sample))
        ⊎ ((written : Text) × Replaced sample sample_parsed d.base.id written rewritten d
            × (((quoted ≡ true)
                  × (parse_text_argument written
                      ≡ record current { value = value; triple_quoted = true }))
                ⊎ ((quoted ≡ false)
                    × (written
                        ≡ current.leading_whitespace ++ (value ++ current.trailing_whitespace))))))
replace_text_argument-reads_back_example =
    replace_text_argument-reads_back sample (codes "x\ny") system_id sample_parses rewritten_ok

-- A value that holds triple quotes and a line feed is not refused, and ends its directive early: the
-- rest of the value is read as directives of its own.
injected : PatchResult
injected =
    result_or_blank
      (replace_text_argument sample_parsed system_id (codes "a\"\"\"\nADAPTER evil\n\"\"\""))

injected_adapter : length (directive_nodes injected.parsed adapter) ≡ 1
unfolding run_edit injected
injected_adapter = refl
