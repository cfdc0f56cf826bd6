-- ===== src/Modelfile/Edit/Local.antt =====
-- An edit of packages/core/src/modelfile-editor.ts touches nothing but the node that it names.
use ollama_remote_control.Prelude.{
  ℕ, ◌≤◌, ◌≡◌, sym, ap, ◌∙◌, inl, inr, Bool, true, not, Option, none, some, List, [], ◌∷◌, ◌++◌,
  append_assoc, arith, leb, Bool-cases, text_eq, text_eq→eq, length, slice, slice-append, slice_all,
  length-slice, find, All, ok, require, bind-eq-ok, ok-injective,
}
use ollama_remote_control.Modelfile.Chars.{Text, includes_unit, utf8_bytes}
use ollama_remote_control.Modelfile.Source.{
  NodeId, DirectiveNode, Node, node_base, directive, opaque_directive, blank, comment, opaque_text,
  ParsedModelfile,
}
use ollama_remote_control.Modelfile.Lines.{PhysicalLine, split_physical_lines}
use ollama_remote_control.Modelfile.Directive.{max_raw_bytes}
use ollama_remote_control.Modelfile.Parse.{parse_modelfile}
use ollama_remote_control.Modelfile.Parse.Loop.{parse_modelfile-ParseRun}
use ollama_remote_control.Modelfile.Parse.Extents.{ArgumentInside, range_offsets}
use ollama_remote_control.Modelfile.Parse.Tiling.{IsNodeOf, NodesTile, parse_modelfile-NodesTile}
use ollama_remote_control.Modelfile.Edit.Patch.{
  PatchResult, find_node, same_id, reparse, splice, patch_argument, editable_directive,
  replace_directive_argument, removable_directive, remove_directive,
}

-- Each node of a tiling fits the offsets that its own id names.
abbrev IsPlaced : Text → List PhysicalLine → Node → Type 0
IsPlaced raw lines n = IsNodeOf raw lines (node_base n).id.from_offset n

NodesTile-IsPlaced :
    (raw : Text) (lines : List PhysicalLine) (a b : ℕ) (ns : List Node)
    → NodesTile raw lines a ns b
    → All (IsPlaced raw lines) ns
NodesTile-IsPlaced raw lines a b [] t = tt
NodesTile-IsPlaced raw lines a b (n ∷ ns) t =
    (rw t.0.starts t.0, NodesTile-IsPlaced raw lines _ b ns t.1)

find-All {ℓ κ} :
    {A : Type ℓ} (P : A → Type κ) (p : A → Bool) (xs : List A) {x : A}
    → All P xs
    → find p xs ≡ some x
    → P x × (p x ≡ true)
find-All P p [] h e = cc
find-All P p (y ∷ ys) {x} h e = elim (Bool-cases (p y)) [
  | inl fits ↦ let same : y ≡ x = cc (rw (fits, find) at e) in rw (← same) (h.0, fits)
  | inr other ↦ find-All P p ys h.1 (rw (other, find) at e)
]

pub find-true {ℓ} :
    {A : Type ℓ} (p : A → Bool) (xs : List A) {x : A} → find p xs ≡ some x → p x ≡ true
find-true p [] e = cc
find-true p (y ∷ ys) {x} e = elim (Bool-cases (p y)) [
  | inl fits ↦ let same : y ≡ x = cc (rw (fits, find) at e) in rw (← same) fits
  | inr other ↦ find-true p ys (rw (other, find) at e)
]

pub reparse-eq-ok :
    (raw : Text) {r : PatchResult}
    → reparse raw ≡ ok r
    → (r.raw ≡ raw) × (parse_modelfile r.raw ≡ ok r.parsed)
unfolding reparse
reparse-eq-ok raw h = ground arith

-- The splice of a slice that lies within a larger one changes that one only.
splice_within :
    (raw next : Text) (a start end b : ℕ)
    → a ≤ start
    → start ≤ end
    → end ≤ b
    → b ≤ length raw
    → splice raw start end next ≡ splice raw a b (slice raw a start ++ (next ++ slice raw end b))
splice_within raw next a start end b p q r t =
    rw (← slice-append raw 0 a start (omega arith) p)
      (rw (← slice-append raw end b (length raw) r t) (simp append_assoc))

splice_self :
    (raw : Text) (start end : ℕ)
    → start ≤ end
    → end ≤ length raw
    → splice raw start end (slice raw start end) ≡ raw
splice_self raw start end p q =
    rw (slice-append raw start end (length raw) p q)
      (slice-append raw 0 start (length raw) (omega arith) (omega arith) ∙ slice_all raw)

-- What a successful `replaceDirectiveArgument` has done to a parsed text.
pub record Replaced (raw : Text) (parsed : ParsedModelfile) (id : NodeId) (next : Text)
    (r : PatchResult) (d : DirectiveNode) : Type 0 where
  pub found : find_node parsed id ≡ some (directive d)
  pub editable : d.structured_editable ≡ true
  pub argument_inside :
      ArgumentInside raw d.base.id.from_offset d.base.id.to_offset d.argument_range d.argument
  pub spliced : r.raw ≡ splice raw d.argument_range.start.offset d.argument_range.end.offset next
  pub node_only :
      r.raw
      ≡ splice raw d.base.id.from_offset d.base.id.to_offset (
          slice raw d.base.id.from_offset d.argument_range.start.offset
          ++ (next ++ slice raw d.argument_range.end.offset d.base.id.to_offset))
  pub reparsed : parse_modelfile r.raw ≡ ok r.parsed

editable_directive-eq-ok :
    (o : Option Node) {d : DirectiveNode}
    → editable_directive o ≡ ok d
    → (o ≡ some (directive d)) × (d.structured_editable ≡ true)
unfolding editable_directive
editable_directive-eq-ok none h = cc
editable_directive-eq-ok (some (directive c)) h = ground arith
editable_directive-eq-ok (some (blank b)) h = cc
editable_directive-eq-ok (some (comment b)) h = cc
editable_directive-eq-ok (some (opaque_directive b)) h = cc
editable_directive-eq-ok (some (opaque_text b)) h = cc

-- A node that the parser found, with its place in the text.
found-IsPlaced :
    (raw : Text) {parsed : ParsedModelfile} {d : DirectiveNode} (id : NodeId)
    → parse_modelfile raw ≡ ok parsed
    → find_node parsed id ≡ some (directive d)
    → IsPlaced raw (split_physical_lines raw) (directive d)
found-IsPlaced raw {parsed} id e found =
    (find-All (IsPlaced raw (split_physical_lines raw)) (λ n. same_id (node_base n).id id)
      parsed.nodes (NodesTile-IsPlaced raw _ 0 _ _ (parse_modelfile-NodesTile raw e)) found).0

patch_argument-eq-ok :
    (raw next : Text) {parsed : ParsedModelfile} {r : PatchResult} (d : DirectiveNode)
    → parse_modelfile raw ≡ ok parsed
    → d.argument_range.start.offset ≤ d.argument_range.end.offset
    → d.argument_range.end.offset ≤ length raw
    → patch_argument parsed d next ≡ ok r
    → (r.raw ≡ splice raw d.argument_range.start.offset d.argument_range.end.offset next)
      × (parse_modelfile r.raw ≡ ok r.parsed)
unfolding patch_argument
patch_argument-eq-ok raw next {parsed} d e p q h =
    let start = d.argument_range.start.offset in
    let end = d.argument_range.end.offset in
    let here : parsed.raw ≡ raw =
      ap (λ (x : ParsedModelfile). x.raw) (parse_modelfile-ParseRun raw e).finished in
    elim (Bool-cases (text_eq (slice parsed.raw start end) next)) [
      | inl same ↦
          let kept = ok-injective (rw same at h) in
          let value : slice raw start end ≡ next =
            rw here at (text_eq→eq (slice parsed.raw start end) next same) in
          (
            rw (← kept) (here ∙ sym (rw value at (splice_self raw start end p q))),
            rw (← kept) (ap parse_modelfile here ∙ e),
          )
      | inr changed ↦
          let (raw_is, reparsed) = reparse-eq-ok _ (rw changed at h) in
          (rw here at raw_is, reparsed)
    ]

-- A successful `replaceDirectiveArgument` on a parsed text replaces the argument of the named, safely
-- editable directive, leaves every character outside the argument as it was, and returns the parse
-- of the new text.
pub replace_directive_argument-Replaced :
    (raw next : Text) (id : NodeId) {parsed : ParsedModelfile} {r : PatchResult}
    → parse_modelfile raw ≡ ok parsed
    → replace_directive_argument parsed id next ≡ ok r
    → (d : DirectiveNode) × Replaced raw parsed id next r d
unfolding replace_directive_argument
replace_directive_argument-Replaced raw next id {parsed} e h =
    let (_, _, h₁) = bind-eq-ok (require (not (includes_unit 0 next)) _) _ h in
    let (d, chosen, h₂) = bind-eq-ok (editable_directive (find_node parsed id)) _ h₁ in
    let (_, _, h₃) = bind-eq-ok (require (leb (utf8_bytes next) max_raw_bytes) _) _ h₂ in
    let (found, editable) = editable_directive-eq-ok (find_node parsed id) chosen in
    let placed = found-IsPlaced raw id e found in
    let arg = placed.has_argument in
    let (spliced, reparsed) =
      patch_argument-eq-ok raw next d e arg.ordered (omega (arith, arg.before_end, placed.inside))
        h₃ in
    (
      d,
      record {
        found = found;
        editable = editable;
        argument_inside = arg;
        spliced = spliced;
        node_only =
            spliced
            ∙ splice_within raw next _ _ _ _ arg.after_start arg.ordered arg.before_end
                placed.inside;
        reparsed = reparsed;
      },
    )

removable_directive-eq-ok :
    (o : Option Node) {d : DirectiveNode}
    → removable_directive o ≡ ok d
    → (o ≡ some (directive d)) × (d.structured_editable ≡ true)
unfolding removable_directive
removable_directive-eq-ok none h = cc
removable_directive-eq-ok (some (directive c)) h = ground arith
removable_directive-eq-ok (some (blank b)) h = cc
removable_directive-eq-ok (some (comment b)) h = cc
removable_directive-eq-ok (some (opaque_directive b)) h = cc
removable_directive-eq-ok (some (opaque_text b)) h = cc

-- A successful `removeDirective` on a parsed text cuts out the text of the named, safely editable
-- directive and nothing else, and returns the parse of what is left.
pub remove_directive-cut :
    (raw : Text) (id : NodeId) {parsed : ParsedModelfile} {r : PatchResult}
    → parse_modelfile raw ≡ ok parsed
    → remove_directive parsed id ≡ ok r
    → (d : DirectiveNode) × (before : Text) × (after : Text) × (find_node parsed id
        ≡ some (directive d))
      × (d.structured_editable ≡ true)
      × (raw ≡ before ++ (d.base.raw ++ after))
      × (r.raw ≡ before ++ after)
      × (length before ≡ d.base.id.from_offset)
      × (parse_modelfile r.raw ≡ ok r.parsed)
unfolding remove_directive
remove_directive-cut raw id {parsed} e h =
    let (d, chosen, h₁) = bind-eq-ok (removable_directive (find_node parsed id)) _ h in
    let (found, editable) = removable_directive-eq-ok (find_node parsed id) chosen in
    let placed = found-IsPlaced raw id e found in
    let (cut, reparsed) = reparse-eq-ok _ h₁ in
    let here : parsed.raw ≡ raw =
      ap (λ (x : ParsedModelfile). x.raw) (parse_modelfile-ParseRun raw e).finished in
    let a = d.base.id.from_offset in
    let b = d.base.id.to_offset in
    let (at_start, at_end) = range_offsets (split_physical_lines raw) a b in
    let starts : d.base.range.start.offset ≡ a = rw placed.range_is at_start in
    let ends : d.base.range.end.offset ≡ b = rw placed.range_is at_end in
    (
      d,
      slice raw 0 a,
      slice raw b (length raw),
      found,
      editable,
      rw placed.raw_is (sym (splice_self raw a b (omega (arith, placed.nonempty)) placed.inside)),
      rw (here, starts, ends) at cut,
      length-slice raw 0 a (omega arith) (omega (arith, placed.nonempty, placed.inside))
          ∙ omega arith,
      reparsed,
    )
