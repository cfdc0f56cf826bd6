-- ===== src/Modelfile/Diff/Shown.antt =====
-- A difference shows at most `MAX_DIFF_OUTPUT_LINES` lines.
use ollama_remote_control.Prelude.{
  ℕ, ◌+◌, ◌-◌, ◌≤◌, ◌≡◌, refl, inl, inr, ltb, leb, Bool-cases, List, [], ◌∷◌, map, arith, length,
  length-take, take, slice, ◌*◌,
}
use ollama_remote_control.Modelfile.Chars.{Text}
use ollama_remote_control.Modelfile.Diff.Source.{
  DiffHunk, DiffOp, SourceLine, max_diff_output_lines, max_lcs_cells, split_source_lines,
}
use ollama_remote_control.Modelfile.Diff.Hunks.{
  windows_of, changed_indexes, Window, line_from_op, emit_windows, build_context_hunks,
  bounded_replacement_diff, bounded_operations, diff_modelfile_text,
}
use ollama_remote_control.Modelfile.Diff.Lcs.{lcs_operations}
use ollama_remote_control.Modelfile.Diff.Bounded.{prefix, suffix, nothing_between}

unfoldable pub shown_lines : List DiffHunk → ℕ
shown_lines [] = 0
shown_lines (hunk ∷ hunks) = length hunk.lines + shown_lines hunks

length-map {ℓ} : {A B : Type ℓ} (f : A → B) (xs : List A) → length (map f xs) ≡ length xs
length-map f [] = refl
length-map f (x ∷ xs) = omega (arith, length-map f xs)

emit_windows-shown :
    (ops : List DiffOp) (emitted : ℕ) (ws : List Window)
    → emitted ≤ max_diff_output_lines
    → emitted + shown_lines (emit_windows ops emitted ws).hunks ≤ max_diff_output_lines
unfolding emit_windows shown_lines
emit_windows-shown ops emitted [] h = omega (arith, h)
emit_windows-shown ops emitted (w ∷ ws) h =
    let selected = slice ops w.start w.end in
    let visible = take (max_diff_output_lines - emitted) selected in
    let size = length-take (max_diff_output_lines - emitted) selected in
    let lines = length-map line_from_op visible in
    let rest = emit_windows-shown ops (emitted + length visible) ws (omega (arith, size, h)) in
    elim (Bool-cases (leb max_diff_output_lines emitted)) [
      | inl e ↦ rw e (omega (arith, h))
      | inr e ↦ elim (Bool-cases (ltb (length visible) (length selected))) [
        | inl f ↦ rw (e, f) (omega (arith, size, lines, h))
        | inr f ↦ rw (e, f) (omega (arith, rest, lines))
      ]
    ]

bounded_replacement_diff-shown :
    (before after : List SourceLine)
    → shown_lines (bounded_replacement_diff before after).hunks ≤ max_diff_output_lines
unfolding bounded_replacement_diff shown_lines
bounded_replacement_diff-shown before after =
    let operations = bounded_operations before after (prefix before after) (suffix before after) in
    let visible = take max_diff_output_lines operations in
    elim (Bool-cases (nothing_between before after)) [
      | inl e ↦ rw e (omega arith)
      | inr e ↦ rw e (
          omega
            (arith, length-map line_from_op visible, length-take max_diff_output_lines operations))
    ]

-- All hunks of a difference have at most `MAX_DIFF_OUTPUT_LINES` lines together, for every two texts and by
-- either strategy.
pub diff_modelfile_text-shown :
    (before after : Text)
    → shown_lines (diff_modelfile_text before after).hunks ≤ max_diff_output_lines
unfolding diff_modelfile_text build_context_hunks
diff_modelfile_text-shown before after =
    let old = split_source_lines before in
    let new = split_source_lines after in
    elim (Bool-cases (ltb max_lcs_cells ((length old + 1) * (length new + 1)))) [
      | inl e ↦ rw e (bounded_replacement_diff-shown old new)
      | inr e ↦
          let operations = lcs_operations old new in
          let windows = windows_of (length operations) (changed_indexes 0 operations) [] in
          rw e (omega (arith, emit_windows-shown operations 0 windows (omega arith)))
    ]
