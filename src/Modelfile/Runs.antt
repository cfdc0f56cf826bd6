-- ===== src/Modelfile/Runs.antt =====
-- A sample Modelfile and its parse, for the tests of packages/core/src/modelfile-parser.ts and
-- packages/core/src/modelfile-editor.ts.
use ollama_remote_control.Prelude.{◌≡◌, refl, false, [], Result, ok, err, count_up, slice, any}
use ollama_remote_control.Modelfile.Chars.{
  Text, codes, is_space, is_line_terminator, is_blank, is_letter, is_name_char, trim_start,
  trim_end, trim, to_upper, includes_unit, utf8_bytes,
}
use ollama_remote_control.Modelfile.Source.{ParsedModelfile, ParseError, no_ending}
use ollama_remote_control.Modelfile.Lines.{
  content_end_at, split_at, split_rest, split_physical_lines, count_ending, detected_line_ending,
  search_line, position_at, range,
}
use ollama_remote_control.Modelfile.Directive.{
  find_name, match_directive, triple_quote_count, requires_multiline_continuation, diagnostic,
  has_key_and_value, validate_pair, validate_known_directive, is_structured_editable,
}
use ollama_remote_control.Modelfile.Parse.{
  continuation, directive_extent, push_blank, push_comment, push_opaque_text, push_directive,
  push_opaque_directive, push_matched, parse_match, parse_line, parse_lines, report_duplicates,
  check_from, parse_modelfile,
}

-- The names that a run of the parser computes through.
unfoldable pub run_parse : Text → Result ParseError ParsedModelfile
unfolding content_end_at split_at split_rest split_physical_lines count_ending detected_line_ending
    search_line position_at range find_name match_directive triple_quote_count
    requires_multiline_continuation diagnostic has_key_and_value validate_pair
    validate_known_directive is_structured_editable continuation directive_extent push_blank
    push_comment push_opaque_text push_directive push_opaque_directive push_matched parse_match
    parse_line parse_lines report_duplicates check_from parse_modelfile count_up slice any is_space
    is_line_terminator is_blank is_letter is_name_char trim_start trim_end trim to_upper
    includes_unit utf8_bytes
run_parse = parse_modelfile

abbrev pub blank_file : ParsedModelfile
blank_file = record {
  raw = [];
  line_ending = no_ending;
  nodes = [];
  diagnostics = [];
  has_opaque_syntax = false;
}

abbrev pub parsed_or_blank : Result ParseError ParsedModelfile → ParsedModelfile
parsed_or_blank (ok p) = p
parsed_or_blank (err e) = blank_file

abbrev pub sample : Text
sample = codes "# note\nFROM a\nSYSTEM \"\"\"x\ny\"\"\"\n\nPARAMETER k 1"

unfoldable pub sample_parsed : ParsedModelfile
sample_parsed = parsed_or_blank (parse_modelfile sample)

pub sample_parses : parse_modelfile sample ≡ ok sample_parsed
unfolding run_parse sample_parsed
sample_parses = refl
