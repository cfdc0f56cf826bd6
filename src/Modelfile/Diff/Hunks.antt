-- ===== src/Modelfile/Diff/Hunks.antt =====
-- `buildContextHunks`, `boundedReplacementDiff` and `diffModelfileText` of
-- packages/core/src/modelfile-diff.ts.
use ollama_remote_control.Prelude.{
  ℕ, zero, suc, ◌+◌, ◌-◌, ◌*◌, min, Bool, true, false, ◌&&◌, Option, none, some, List, [], ◌∷◌,
  ◌++◌, map, ltb, leb, if◌then◌else◌, length, get_elem?, take, slice,
}
use ollama_remote_control.Modelfile.Chars.{Text}
use ollama_remote_control.Modelfile.Diff.Source.{
  DiffHunk, DiffLine, DiffOp, SourceLine, TextDiff, context_lines, larger, max_diff_output_lines,
  max_lcs_cells, same_key, split_source_lines, context, remove, add, by_lcs, bounded_replacement,
  keep_line, remove_line, add_line,
}
use ollama_remote_control.Modelfile.Diff.Lcs.{lcs_operations}

unfoldable pub line_from_op : DiffOp → DiffLine
line_from_op (keep_line before after) = record {
  kind = context;
  old_line = some before.number;
  new_line = some after.number;
  text = before.text;
  ending = before.ending;
}
line_from_op (remove_line before) = record {
  kind = remove;
  old_line = some before.number;
  new_line = none;
  text = before.text;
  ending = before.ending;
}
line_from_op (add_line after) = record {
  kind = add;
  old_line = none;
  new_line = some after.number;
  text = after.text;
  ending = after.ending;
}

pub record Window : Type 0 where
  pub start : ℕ
  pub end : ℕ

abbrev pub is_change : DiffOp → Bool
is_change (keep_line before after) = false
is_change (remove_line before) = true
is_change (add_line after) = true

-- `changedIndexes`, where the first operation has the index `index`.
unfoldable pub changed_indexes : ℕ → List DiffOp → List ℕ
changed_indexes index [] = []
changed_indexes index (op ∷ ops) =
    let rest = changed_indexes (index + 1) ops in if is_change op then index ∷ rest else rest

-- A window joins the last one where they touch, or stands behind it.
unfoldable pub push_window : Window → List Window → List Window
push_window w [] = w ∷ []
push_window w (last ∷ []) =
    if leb w.start last.end then record last { end = larger last.end w.end } ∷ [] else last ∷ w ∷ []
push_window w (first ∷ second ∷ rest) = first ∷ push_window w (second ∷ rest)

abbrev pub window_of : ℕ → ℕ → Window
window_of operations changed = record {
  start = changed - context_lines;
  end = min operations (changed + context_lines + 1);
}

unfoldable pub windows_of : ℕ → List ℕ → List Window → List Window
windows_of operations [] windows = windows
windows_of operations (changed ∷ rest) windows =
    windows_of operations rest (push_window (window_of operations changed) windows)

-- `first.before?.number ?? first.after?.number ?? 1` and its mirror image
unfoldable pub old_start_of : List DiffOp → ℕ
old_start_of [] = 1
old_start_of (keep_line before after ∷ ops) = before.number
old_start_of (remove_line before ∷ ops) = before.number
old_start_of (add_line after ∷ ops) = after.number

unfoldable pub new_start_of : List DiffOp → ℕ
new_start_of [] = 1
new_start_of (keep_line before after ∷ ops) = after.number
new_start_of (remove_line before ∷ ops) = before.number
new_start_of (add_line after ∷ ops) = after.number

abbrev pub hunk_of : List DiffOp → DiffHunk
hunk_of visible = record {
  old_start = old_start_of visible;
  new_start = new_start_of visible;
  lines = map line_from_op visible;
}

pub record Hunks : Type 0 where
  pub hunks : List DiffHunk
  pub truncated : Bool

-- The loop of `buildContextHunks` over the windows.
unfoldable pub emit_windows : List DiffOp → ℕ → List Window → Hunks
emit_windows operations emitted [] = record { hunks = []; truncated = false }
emit_windows operations emitted (w ∷ windows) =
    let selected = slice operations w.start w.end in
    let visible = take (max_diff_output_lines - emitted) selected in
    let rest = emit_windows operations (emitted + length visible) windows in
    if leb max_diff_output_lines emitted
    then record { hunks = []; truncated = true }
    else if ltb (length visible) (length selected)
    then record { hunks = hunk_of visible ∷ []; truncated = true }
    else record { hunks = hunk_of visible ∷ rest.hunks; truncated = rest.truncated }

unfoldable pub build_context_hunks : List DiffOp → Hunks
build_context_hunks operations =
    emit_windows operations 0 (windows_of (length operations) (changed_indexes 0 operations) [])

-- The first loop of `boundedReplacementDiff`, over at most as many lines as both texts have.
unfoldable pub prefix_from : (before after : List SourceLine) → ℕ → ℕ → ℕ
prefix_from before after zero prefix = prefix
prefix_from before after (suc rounds) prefix =
    let rest = prefix_from before after rounds (prefix + 1) in
    if same_key (get_elem? before prefix) (get_elem? after prefix) then rest else prefix

-- The second one, over the lines behind the prefix.
unfoldable pub suffix_from : (before after : List SourceLine) → ℕ → ℕ → ℕ
suffix_from before after zero suffix = suffix
suffix_from before after (suc rounds) suffix =
    let rest = suffix_from before after rounds (suffix + 1) in
    if same_key (get_elem? before (length before - suffix - 1))
      (get_elem? after (length after - suffix - 1))
    then rest
    else suffix

abbrev pub line_or : Option SourceLine → SourceLine → SourceLine
line_or (some found) line = found
line_or none line = line

-- The lines of one text as context, beside those of the other one from `index` on.
unfoldable pub context_of_before : (after : List SourceLine) → ℕ → List SourceLine → List DiffOp
context_of_before after index [] = []
context_of_before after index (line ∷ lines) =
    keep_line line (line_or (get_elem? after index) line)
    ∷ context_of_before after (index + 1) lines

unfoldable pub context_of_after : (before : List SourceLine) → ℕ → List SourceLine → List DiffOp
context_of_after before index [] = []
context_of_after before index (line ∷ lines) =
    keep_line (line_or (get_elem? before index) line) line
    ∷ context_of_after before (index + 1) lines

unfoldable pub bounded_operations : (before after : List SourceLine) → ℕ → ℕ → List DiffOp
bounded_operations before after prefix suffix =
    let n = length before in
    let m = length after in
    context_of_before after (prefix - context_lines) (slice before (prefix - context_lines) prefix)
    ++ map remove_line (slice before prefix (n - suffix))
    ++ map add_line (slice after prefix (m - suffix))
    ++ context_of_after before (n - suffix)
        (slice after (m - suffix) (min m (m - suffix + context_lines)))

abbrev pub is_empty : List SourceLine → Bool
is_empty [] = true
is_empty (line ∷ lines) = false

unfoldable pub bounded_replacement_diff : (before after : List SourceLine) → TextDiff
bounded_replacement_diff before after =
    let n = length before in
    let m = length after in
    let prefix = prefix_from before after (min n m) 0 in
    let suffix = suffix_from before after (min (n - prefix) (m - prefix)) 0 in
    let before_changed = slice before prefix (n - suffix) in
    let after_changed = slice after prefix (m - suffix) in
    let operations = bounded_operations before after prefix suffix in
    let visible = take max_diff_output_lines operations in
    if is_empty before_changed && is_empty after_changed
    then record {
      changed = false;
      strategy = bounded_replacement;
      truncated = false;
      before_lines = n;
      after_lines = m;
      hunks = [];
    }
    else record {
      changed = true;
      strategy = bounded_replacement;
      truncated = ltb (length visible) (length operations);
      before_lines = n;
      after_lines = m;
      hunks = hunk_of visible ∷ [];
    }

unfoldable pub diff_modelfile_text : (before_raw after_raw : Text) → TextDiff
diff_modelfile_text before_raw after_raw =
    let before = split_source_lines before_raw in
    let after = split_source_lines after_raw in
    let result = build_context_hunks (lcs_operations before after) in
    if ltb max_lcs_cells ((length before + 1) * (length after + 1))
    then bounded_replacement_diff before after
    else record {
      changed = ltb 0 (length result.hunks);
      strategy = by_lcs;
      truncated = result.truncated;
      before_lines = length before;
      after_lines = length after;
      hunks = result.hunks;
    }
