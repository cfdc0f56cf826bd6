-- ===== src/Modelfile/Diff/Tests.antt =====
-- Runs of the difference of two small files, and the theorems about them at these files.
use ollama_remote_control.Prelude.{
  length, ◌+◌, ◌*◌, ◌≤◌, ◌≡◌, ◌↔◌, refl, true, false, List, [], ◌∷◌, arith, drop, map, count_up,
  count_down, slice,
}
use ollama_remote_control.Modelfile.Chars.{Text, codes}
use ollama_remote_control.Modelfile.Diff.Source.{
  SourceLine, DiffOp, ends_lf, ends_crlf, ends_none, keep_line, remove_line, add_line, source_line,
  same_key, split_source_at, split_source_rest, split_source_lines, max_diff_output_lines,
  bounded_replacement,
}
use ollama_remote_control.Modelfile.Diff.Lcs.{
  store_cell, fill_cell, lcs_matrix, next_between, next_operation, walk, lcs_operations,
}
use ollama_remote_control.Modelfile.Diff.Hunks.{
  emit_windows, build_context_hunks, line_from_op, changed_indexes, push_window, windows_of,
  old_start_of, new_start_of, prefix_from, suffix_from, context_of_before, context_of_after,
  bounded_operations, bounded_replacement_diff, diff_modelfile_text,
}
use ollama_remote_control.Modelfile.Diff.Edits.{IsEdit, lcs_operations-IsEdit}
use ollama_remote_control.Modelfile.Diff.Matrix.{lcs, lcs_matrix-eq-lcs}
use ollama_remote_control.Modelfile.Diff.Optimal.{kept_lines, lcs_operations-optimal}
use ollama_remote_control.Modelfile.Diff.Changed.{diff_modelfile_text-changed}
use ollama_remote_control.Modelfile.Diff.Windows.{
  changed_lines, changes, build_context_hunks-changes,
}
use ollama_remote_control.Modelfile.Diff.Shown.{shown_lines, diff_modelfile_text-shown}

abbrev before_text : Text
before_text = codes "FROM a\nSYSTEM b\n"

abbrev after_text : Text
after_text = codes "FROM a\r\nSYSTEM b\nEND"

abbrev from_lf : SourceLine
from_lf = source_line 1 (codes "FROM a") ends_lf

abbrev from_crlf : SourceLine
from_crlf = source_line 1 (codes "FROM a") ends_crlf

abbrev system_line : SourceLine
system_line = source_line 2 (codes "SYSTEM b") ends_lf

abbrev end_line : SourceLine
end_line = source_line 3 (codes "END") ends_none

abbrev old_lines : List SourceLine
old_lines = from_lf ∷ system_line ∷ []

abbrev new_lines : List SourceLine
new_lines = from_crlf ∷ system_line ∷ end_line ∷ []

splits : (split_source_lines before_text ≡ old_lines) × (split_source_lines after_text ≡ new_lines)
unfolding split_source_lines split_source_rest split_source_at count_up slice
splits = (refl, refl)

operations :
    lcs_operations old_lines new_lines
    ≡ add_line from_crlf
      ∷ remove_line from_lf
      ∷ keep_line system_line system_line
      ∷ add_line end_line
      ∷ []
unfolding lcs_operations walk next_operation next_between lcs_matrix fill_cell store_cell same_key
    count_down
operations = refl

replaced_lines : bounded_replacement_diff old_lines new_lines ≡ record {
  changed = true;
  strategy = bounded_replacement;
  truncated = false;
  before_lines = 2;
  after_lines = 3;
  hunks =
      record {
        old_start = 1;
        new_start = 1;
        lines = map line_from_op (
            remove_line from_lf
            ∷ remove_line system_line
            ∷ add_line from_crlf
            ∷ add_line system_line
            ∷ add_line end_line
            ∷ []);
      }
      ∷ [];
}
unfolding bounded_replacement_diff bounded_operations prefix_from suffix_from same_key
    context_of_before context_of_after slice old_start_of new_start_of
replaced_lines = refl

windows :
    windows_of 30
      (changed_indexes 2
        (add_line end_line ∷ keep_line system_line system_line ∷ remove_line end_line ∷ []))
      []
    ≡ record { start = 0; end = 8 } ∷ []
unfolding windows_of changed_indexes push_window
windows = refl

-- A script that keeps nothing.
abbrev rewrite_all : List DiffOp
rewrite_all =
    remove_line from_lf
    ∷ remove_line system_line
    ∷ add_line from_crlf
    ∷ add_line system_line
    ∷ add_line end_line
    ∷ []

lcs_operations-IsEdit_example : IsEdit old_lines new_lines (lcs_operations old_lines new_lines)
lcs_operations-IsEdit_example = lcs_operations-IsEdit old_lines new_lines

lcs_operations-optimal_example :
    kept_lines rewrite_all ≤ kept_lines (lcs_operations old_lines new_lines)
lcs_operations-optimal_example =
    lcs_operations-optimal old_lines new_lines (omega arith) rewrite_all
      (record { of_before = refl; of_after = refl; same = tt })

lcs_matrix-eq-lcs_example :
    lcs_matrix old_lines new_lines (1 * (3 + 1) + 1) ≡ lcs (drop 1 old_lines) (drop 1 new_lines)
lcs_matrix-eq-lcs_example =
    lcs_matrix-eq-lcs old_lines new_lines (omega arith) 1 1 (omega arith) (omega arith)

diff_modelfile_text-changed_example :
    ((diff_modelfile_text before_text after_text).changed ≡ false) ↔ (before_text ≡ after_text)
diff_modelfile_text-changed_example = diff_modelfile_text-changed before_text after_text

diff_modelfile_text-shown_example :
    shown_lines (diff_modelfile_text before_text after_text).hunks ≤ max_diff_output_lines
diff_modelfile_text-shown_example = diff_modelfile_text-shown before_text after_text

-- Two changes, far from each other, make two hunks.
abbrev far_apart : List DiffOp
far_apart =
    add_line from_crlf
    ∷ keep_line system_line system_line
    ∷ keep_line system_line system_line
    ∷ keep_line system_line system_line
    ∷ keep_line system_line system_line
    ∷ keep_line system_line system_line
    ∷ keep_line system_line system_line
    ∷ keep_line system_line system_line
    ∷ keep_line system_line system_line
    ∷ remove_line end_line
    ∷ []

far_apart_hunks :
    (length (build_context_hunks far_apart).hunks ≡ 2)
    × ((build_context_hunks far_apart).truncated ≡ false)
unfolding build_context_hunks emit_windows windows_of changed_indexes push_window slice
far_apart_hunks = (refl, refl)

build_context_hunks-changes_example :
    changed_lines (build_context_hunks far_apart).hunks ≡ map line_from_op (changes far_apart)
build_context_hunks-changes_example = build_context_hunks-changes far_apart far_apart_hunks.1
