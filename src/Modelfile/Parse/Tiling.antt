-- ===== src/Modelfile/Parse/Tiling.antt =====
-- The nodes of a parsed Modelfile cover its text in order and with no gap, so that nothing of the
-- source is lost.
use native.Mathlib.Nat.{le_refl}
use ollama_remote_control.Prelude.{
  ℕ, zero, suc, ◌+◌, ◌≤◌, ◌<◌, ◌≡◌, refl, sym, ◌∙◌, inl, inr, Option, none, some, List, [], ◌∷◌,
  ◌++◌, arith, Bool-cases, length, slice, slice-append, slice_nil, slice_all, ok, err, ◌≢◌,
}
use ollama_remote_control.Modelfile.Chars.{Text, is_empty, trim, trim_start, to_upper}
use ollama_remote_control.Modelfile.Source.{
  DirectiveName, Node, node_base, directive, opaque_directive, ParsedModelfile, out_of_fuel,
}
use ollama_remote_control.Modelfile.Lines.{PhysicalLine, range, split_physical_lines}
use ollama_remote_control.Modelfile.Lines.Tiling.{IsLineOf, Tiles, split_physical_lines-Tiles}
use ollama_remote_control.Modelfile.Directive.{
  DirectiveMatch, match_directive, find_name, known_directives,
}
use ollama_remote_control.Modelfile.Parse.{
  Parsing, Extent, directive_extent, argument_start, push_blank, push_comment, push_opaque_text,
  push_directive, push_opaque_directive, push_matched, parse_match, parse_line, parse_lines,
  starts_with_hash, start_parsing, parse_modelfile, render_modelfile,
}
use ollama_remote_control.Modelfile.Parse.Loop.{parse_lines-keeps, parse_modelfile-ParseRun}
use ollama_remote_control.Modelfile.Parse.Extents.{
  ArgumentInside, Stops, directive_extent-Stops, argument-inside,
}

abbrev pub HasArgument : Text → Node → Type 0
HasArgument raw (directive d) =
    ArgumentInside raw d.base.id.from_offset d.base.id.to_offset d.argument_range d.argument
HasArgument raw (opaque_directive d) =
    ArgumentInside raw d.base.id.from_offset d.base.id.to_offset d.argument_range d.argument
HasArgument raw _ = Unit {0}

-- A node that starts at `a`: its text and range are those of the offsets in its id, and so is its
-- argument, if it has one.
pub record IsNodeOf (raw : Text) (lines : List PhysicalLine) (a : ℕ) (n : Node) : Type 0 where
  pub starts : (node_base n).id.from_offset ≡ a
  pub nonempty : a < (node_base n).id.to_offset
  pub inside : (node_base n).id.to_offset ≤ length raw
  pub raw_is : (node_base n).raw ≡ slice raw a (node_base n).id.to_offset
  pub range_is : (node_base n).range ≡ range lines a (node_base n).id.to_offset
  pub has_argument : HasArgument raw n

abbrev pub NodesTile : Text → List PhysicalLine → ℕ → List Node → ℕ → Type 0
NodesTile raw lines a [] b = a ≡ b
NodesTile raw lines a (n ∷ ns) b =
    IsNodeOf raw lines a n × NodesTile raw lines (node_base n).id.to_offset ns b

NodesTile-concat :
    (raw : Text) (lines : List PhysicalLine) (a b : ℕ) (ns : List Node) (n : Node)
    → NodesTile raw lines a ns b
    → IsNodeOf raw lines b n
    → NodesTile raw lines a (ns ++ n ∷ []) (node_base n).id.to_offset
NodesTile-concat raw lines a b [] n t h = (rw t h, refl)
NodesTile-concat raw lines a b (m ∷ ms) n t h =
    (t.0, NodesTile-concat raw lines (node_base m).id.to_offset b ms n t.1 h)

-- What one round of the loop does: it adds one node, which runs from the start of the line to where
-- the lines that are left begin.
record Advance (raw : Text) (lines : List PhysicalLine) (first : PhysicalLine) (bound : ℕ)
    (p : Parsing) (r : Parsing × List PhysicalLine) : Type 0 where
  node : Node
  next : ℕ
  pushed : r.0.nodes ≡ p.nodes ++ node ∷ []
  is_node : IsNodeOf raw lines first.start node
  rest_tiled : Tiles raw (node_base node).id.to_offset next r.1 (length raw)
  fewer : length r.1 ≤ bound

module _ (raw : Text) (lines : List PhysicalLine) (first : PhysicalLine) (p : Parsing) where
  push_matched-Advance :
      (m : DirectiveMatch) (x : Extent) (name : Option DirectiveName) (bound : ℕ)
      → IsLineOf raw first
      → Stops raw first bound x
      → ArgumentInside raw first.start x.last.end
          (range lines (argument_start first m) x.last.content_end)
          (slice raw (argument_start first m) x.last.content_end)
      → Advance raw lines first bound p (push_matched raw lines name first m x p, x.rest)
  unfolding push_matched push_directive push_opaque_directive
  push_matched-Advance m x none bound h s inside = record {
    node = _;
    next = s.next;
    pushed = refl;
    is_node = record {
      starts = refl;
      nonempty = omega (arith, h.nonempty, s.ends_after);
      inside = s.last_line.inside;
      raw_is = refl;
      range_is = refl;
      has_argument = inside;
    };
    rest_tiled = s.rest_tiled;
    fewer = s.fewer;
  }
  push_matched-Advance m x (some name) bound h s inside = record {
    node = _;
    next = s.next;
    pushed = refl;
    is_node = record {
      starts = refl;
      nonempty = omega (arith, h.nonempty, s.ends_after);
      inside = s.last_line.inside;
      raw_is = refl;
      range_is = refl;
      has_argument = inside;
    };
    rest_tiled = s.rest_tiled;
    fewer = s.fewer;
  }

  parse_match-Advance :
      (m : Option DirectiveMatch) (k : ℕ) (rest : List PhysicalLine)
      → match_directive first.content ≡ m
      → IsLineOf raw first
      → Tiles raw first.end k rest (length raw)
      → Advance raw lines first (length rest) p (parse_match raw lines m first rest p)
  unfolding parse_match push_opaque_text
  parse_match-Advance none k rest e h t = record {
    node = _;
    next = k;
    pushed = refl;
    is_node = record {
      starts = refl;
      nonempty = h.nonempty;
      inside = h.inside;
      raw_is = refl;
      range_is = refl;
      has_argument = tt;
    };
    rest_tiled = t;
    fewer = omega arith;
  }
  parse_match-Advance (some m) k rest e h t =
      let s = directive_extent-Stops raw m.first_argument first k rest h t in
      push_matched-Advance m (directive_extent m.first_argument first rest)
        (find_name (to_upper m.original_name) known_directives) (length rest) h s
        (argument-inside raw lines first m (directive_extent m.first_argument first rest) h
          s.content_after s.last_line e)

  parse_line-Advance :
      (k : ℕ) (rest : List PhysicalLine)
      → IsLineOf raw first
      → Tiles raw first.end k rest (length raw)
      → Advance raw lines first (length rest) p (parse_line raw lines first rest p)
  unfolding parse_line push_blank push_comment
  parse_line-Advance k rest h t = elim (Bool-cases (is_empty (trim first.content))) [
    | inl is_blank_line ↦ rw is_blank_line (record {
      node = _;
      next = k;
      pushed = refl;
      is_node = record {
        starts = refl;
        nonempty = h.nonempty;
        inside = h.inside;
        raw_is = refl;
        range_is = refl;
        has_argument = tt;
      };
      rest_tiled = t;
      fewer = omega arith;
    })
    | inr other ↦ elim (Bool-cases (starts_with_hash (trim_start first.content))) [
      | inl is_comment ↦
          rw (other, is_comment)
            (record {
              node = _;
              next = k;
              pushed = refl;
              is_node = record {
                starts = refl;
                nonempty = h.nonempty;
                inside = h.inside;
                raw_is = refl;
                range_is = refl;
                has_argument = tt;
              };
              rest_tiled = t;
              fewer = omega arith;
            })
      | inr is_text ↦
          rw (other, is_text) (parse_match-Advance (match_directive first.content) k rest refl h t)
    ]
  ]

-- The nodes end where the lines that are left begin.
record NodesMeet (raw : Text) (lines : List PhysicalLine) (p : Parsing) (rest : List PhysicalLine)
    : Type 0 where
  at : ℕ
  next : ℕ
  nodes_tile : NodesTile raw lines 0 p.nodes at
  lines_tile : Tiles raw at next rest (length raw)

module _ (raw : Text) (lines : List PhysicalLine) where
  parse_line-NodesMeet :
      (first : PhysicalLine) (rest : List PhysicalLine) (p : Parsing)
      → NodesMeet raw lines p (first ∷ rest)
      → let r = parse_line raw lines first rest p in
        NodesMeet raw lines r.0 r.1 × (length r.1 ≤ length rest)
  parse_line-NodesMeet first rest p h =
      let t = h.lines_tile in
      let a = parse_line-Advance raw lines first p (h.next + 1) rest t.2 t.3 in
      (
        record {
          at = (node_base a.node).id.to_offset;
          next = a.next;
          nodes_tile =
              rw a.pushed (
                NodesTile-concat raw lines 0 h.at p.nodes a.node h.nodes_tile
                  (rw t.0 at a.is_node));
          lines_tile = a.rest_tiled;
        },
        a.fewer,
      )

  parse_lines-total :
      (fuel : ℕ) (rest : List PhysicalLine) (p : Parsing)
      → NodesMeet raw lines p rest
      → length rest ≤ fuel
      → parse_lines raw lines fuel rest p ≢ err out_of_fuel
  unfolding parse_lines
  parse_lines-total fuel [] p n h = λ e. cc
  parse_lines-total zero (first ∷ rest) p n h = absurd (omega arith)
  parse_lines-total (suc fuel) (first ∷ rest) p n h =
      let (n', fewer) = parse_line-NodesMeet first rest p n in
      let later = parse_lines-total fuel _ _ n' (omega (arith, fewer)) in λ e. ground (arith, later)

start-NodesMeet :
    (raw : Text) → let lines = split_physical_lines raw in NodesMeet raw lines start_parsing lines
start-NodesMeet raw = record {
  at = 0;
  next = 1;
  nodes_tile = refl;
  lines_tile = split_physical_lines-Tiles raw;
}

NodesMeet-end :
    {raw : Text} {lines : List PhysicalLine} {p : Parsing}
    → NodesMeet raw lines p []
    → NodesTile raw lines 0 p.nodes (length raw)
NodesMeet-end h = rw h.lines_tile at h.nodes_tile

-- The nodes of a parsed file run from its start to its end with no gap and no overlap. Each has the
-- text and the range of the offsets in its id, and its argument, if it has one, is the slice of the
-- file at its argument range, which lies within the node.
pub parse_modelfile-NodesTile :
    (raw : Text) {parsed : ParsedModelfile}
    → parse_modelfile raw ≡ ok parsed
    → NodesTile raw (split_physical_lines raw) 0 parsed.nodes (length raw)
unfolding parse_modelfile
parse_modelfile-NodesTile raw e =
    let r = parse_modelfile-ParseRun raw e in
    rw r.finished (
      NodesMeet-end (
        parse_lines-keeps raw (split_physical_lines raw) (NodesMeet raw (split_physical_lines raw))
          (λ first rest p h _. (parse_line-NodesMeet raw _ first rest p h).0) _ _ _
          (start-NodesMeet raw) r.looped))

-- The parser comes to a result on every text: the fuel never runs out.
pub parse_modelfile-total : (raw : Text) → parse_modelfile raw ≢ err out_of_fuel
unfolding parse_modelfile
parse_modelfile-total raw e = ground (
  arith,
  parse_lines-total raw (split_physical_lines raw) _ _ start_parsing (start-NodesMeet raw)
      (le_refl (length (split_physical_lines raw))),
)

abbrev pub flat : List Node → Text
flat [] = []
flat (n ∷ ns) = (node_base n).raw ++ flat ns

NodesTile-flat :
    (raw : Text) (lines : List PhysicalLine) (a b : ℕ) (ns : List Node)
    → NodesTile raw lines a ns b
    → (a ≤ b) × (flat ns ≡ slice raw a b)
NodesTile-flat raw lines a b [] t = (omega arith, rw t (sym (slice_nil raw b)))
NodesTile-flat raw lines a b (n ∷ ns) t =
    let (le, e) = NodesTile-flat raw lines (node_base n).id.to_offset b ns t.1 in
    (
      omega (arith, t.0.nonempty, le),
      rw (e, t.0.raw_is) (slice-append raw a _ b (omega (arith, t.0.nonempty)) le),
    )

-- Nothing of the source is lost: the texts of the nodes, one behind the other, are the file, and so
-- is what `renderModelfile` gives back.
pub parse_modelfile-lossless :
    (raw : Text) {parsed : ParsedModelfile}
    → parse_modelfile raw ≡ ok parsed
    → (flat parsed.nodes ≡ raw) × (render_modelfile parsed ≡ raw)
unfolding render_modelfile
parse_modelfile-lossless raw e = (
  (NodesTile-flat raw _ 0 (length raw) _ (parse_modelfile-NodesTile raw e)).1 ∙ slice_all raw,
  let r = parse_modelfile-ParseRun raw e in rw r.finished,
)
