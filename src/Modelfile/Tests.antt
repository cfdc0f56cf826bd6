-- ===== src/Modelfile/Tests.antt =====
-- Runs of the Modelfile code on small files.
use ollama_remote_control.Prelude.{
  ℕ, ◌+◌, ◌<◌, ◌≤◌, ◌≡◌, ◌≢◌, refl, arith, All, length, get_elem?, false, some, List, [], ◌∷◌, map,
  Result, ok, err, count_up, slice,
}
use ollama_remote_control.Modelfile.Lines.Tiling.{Tiles, split_physical_lines-Tiles}
use ollama_remote_control.Modelfile.Lines.Search.{
  IsPosition, position_at-IsPosition, position_at_second_line,
}
use ollama_remote_control.Modelfile.Parse.Tiling.{
  NodesTile, parse_modelfile-NodesTile, parse_modelfile-total, flat, parse_modelfile-lossless,
}
use ollama_remote_control.Modelfile.Parse.Gate.{Usable, has_opaque}
use ollama_remote_control.Modelfile.Parse.Sound.{
  parse_modelfile-bounds, parse_modelfile-gate, parse_modelfile-deployable,
}
use ollama_remote_control.Modelfile.Chars.{Text, codes, includes_unit, utf8_bytes}
use ollama_remote_control.Modelfile.Source.{node_base, ParsedModelfile, ParseError, out_of_fuel}
use ollama_remote_control.Modelfile.Lines.{
  content_end_at, split_at, split_rest, split_physical_lines, position_at, PhysicalLine,
}
use ollama_remote_control.Modelfile.Parse.{parse_modelfile, from_nodes, render_modelfile}
use ollama_remote_control.Modelfile.Runs.{run_parse, sample, sample_parsed, sample_parses}

abbrev node_texts : Result ParseError ParsedModelfile → List Text
node_texts (ok p) = map (λ n. (node_base n).raw) p.nodes
node_texts (err e) = []

nodes_of_three_lines :
    node_texts (parse_modelfile (codes "FROM a\nSYSTEM \"\"\"x\ny\"\"\"\nFOO"))
    ≡ codes "FROM a\n" ∷ codes "SYSTEM \"\"\"x\ny\"\"\"\n" ∷ codes "FOO" ∷ []
unfolding run_parse
nodes_of_three_lines = refl

sample_clean : (sample_parsed.diagnostics ≡ []) × (sample_parsed.has_opaque_syntax ≡ false)
unfolding run_parse sample_parsed
sample_clean = (refl, refl)

parse_modelfile-lossless_example :
    (flat sample_parsed.nodes ≡ sample) × (render_modelfile sample_parsed ≡ sample)
parse_modelfile-lossless_example = parse_modelfile-lossless sample sample_parses

parse_modelfile-NodesTile_example :
    NodesTile sample (split_physical_lines sample) 0 sample_parsed.nodes (length sample)
parse_modelfile-NodesTile_example = parse_modelfile-NodesTile sample sample_parses

parse_modelfile-total_example : parse_modelfile sample ≢ err out_of_fuel
parse_modelfile-total_example = parse_modelfile-total sample

parse_modelfile-bounds_example :
    (includes_unit 0 sample ≡ false)
    × (utf8_bytes sample ≤ 524288)
    × (length sample_parsed.nodes ≤ 20000)
    × (length sample_parsed.diagnostics ≤ 256)
    × (sample_parsed.has_opaque_syntax ≡ has_opaque sample_parsed.nodes)
parse_modelfile-bounds_example = parse_modelfile-bounds sample sample_parses

parse_modelfile-gate_example :
    (length (from_nodes sample_parsed.nodes) ≡ 1) × All Usable sample_parsed.nodes
parse_modelfile-gate_example =
    parse_modelfile-gate sample sample_parses (rw sample_clean.0 (omega arith))
      (rw sample_clean.0 refl)

parse_modelfile-deployable_example :
    (sample_parsed.diagnostics ≡ [])
    × (length (from_nodes sample_parsed.nodes) ≡ 1)
    × (has_opaque sample_parsed.nodes ≡ false)
    × All Usable sample_parsed.nodes
parse_modelfile-deployable_example =
    parse_modelfile-deployable sample sample_parses (rw sample_clean.0 refl) sample_clean.1

split_physical_lines-Tiles_example : Tiles sample 0 1 (split_physical_lines sample) (length sample)
split_physical_lines-Tiles_example = split_physical_lines-Tiles sample

position_at-IsPosition_example :
    (p : IsPosition (split_physical_lines sample) 9 (position_at (split_physical_lines sample) 9))
    × ((j : ℕ) (l : PhysicalLine)
        → get_elem? (split_physical_lines sample) j ≡ some l
        → l.start < 9
        → 9 < l.end
        → (position_at (split_physical_lines sample) 9).line ≡ j + 1)
position_at-IsPosition_example = position_at-IsPosition sample 9 (omega arith) (omega arith)

abbrev first_line : PhysicalLine
first_line = record {
  start = 0;
  content_end = 6;
  end = 7;
  line = 1;
  raw = codes "FROM a\n";
  content = codes "FROM a";
}

abbrev second_line : PhysicalLine
second_line = record {
  start = 7;
  content_end = 8;
  end = 8;
  line = 2;
  raw = codes "X";
  content = codes "X";
}

position_at_second_line_example :
    position_at (split_physical_lines (codes "FROM a\nX")) 7
    ≡ record { offset = 7; line = 1; column = 8 }
unfolding split_physical_lines split_at split_rest content_end_at count_up slice
position_at_second_line_example =
    position_at_second_line (codes "FROM a\nX") first_line second_line refl
