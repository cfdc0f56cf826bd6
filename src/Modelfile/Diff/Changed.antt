-- ===== src/Modelfile/Diff/Changed.antt =====
-- `diffModelfileText` reports a change exactly where the texts differ, by either strategy.
use ollama_remote_control.Prelude.{
  not, ℕ, ◌+◌, ◌*◌, ◌<◌, ◌≡◌, ◌↔◌, refl, sym, ap, ◌∙◌, inl, inr, Bool, true, false, ltb, Bool-cases,
  List, [], ◌∷◌, arith, length, text_eq, text_eq→eq, text_eq_self,
}
use ollama_remote_control.Modelfile.Chars.{Text}
use ollama_remote_control.Modelfile.Diff.Source.{
  SourceLine, DiffOp, keep_line, remove_line, add_line, split_source_lines, max_lcs_cells,
}
use ollama_remote_control.Modelfile.Diff.Lcs.{Cells, lcs_operations}
use ollama_remote_control.Modelfile.Diff.Hunks.{
  changed_indexes, window_of, windows_of, push_window, emit_windows, build_context_hunks, Window,
  bounded_replacement_diff, diff_modelfile_text,
}
use ollama_remote_control.Modelfile.Diff.Edits.{befores, afters, KeepsKeys, lcs_operations-IsEdit}
use ollama_remote_control.Modelfile.Diff.Walk.{
  Walked, ended, kept, added, removed, added_last, removed_last, lcs_operations-Walked,
}
use ollama_remote_control.Modelfile.Diff.Split.{keys, joined-keys, split_source_lines-joined}
use ollama_remote_control.Modelfile.Diff.Bounded.{
  nothing_between, nothing_between→keys, nothing_between_self,
}

true-not-false : ◌≡◌ {A = Bool} true false → ⊥
true-not-false h = absurd (cc h)

not-false : (b : Bool) → not b ≡ false → b ≡ true
not-false true h = refl
not-false false h = absurd (cc h)

-- Operations that change nothing keep lines with the same keys.
unchanged-keys :
    (index : ℕ) (ops : List DiffOp)
    → KeepsKeys ops
    → changed_indexes index ops ≡ []
    → keys (befores ops) ≡ keys (afters ops)
unfolding changed_indexes
unchanged-keys index [] h e = refl
unchanged-keys index (keep_line b a ∷ ops) h e =
    let same = text_eq→eq b.key a.key h.0 in let rest = unchanged-keys (index + 1) ops h.1 e in cc
unchanged-keys index (remove_line b ∷ ops) h e = absurd (cc e)
unchanged-keys index (add_line a ∷ ops) h e = absurd (cc e)

-- The first window is emitted.
abbrev has_hunks : List DiffOp → Bool
has_hunks ops = ltb 0 (length (build_context_hunks ops).hunks)

push_window-nonempty : (w : Window) (ws : List Window) → 0 < length (push_window w ws)
unfolding push_window
push_window-nonempty w [] = omega arith
push_window-nonempty w (last ∷ []) = ground arith
push_window-nonempty w (first ∷ second ∷ rest) = omega arith

windows_of-nonempty :
    (n : ℕ) (indexes : List ℕ) (ws : List Window)
    → 0 < length ws
    → 0 < length (windows_of n indexes ws)
unfolding windows_of
windows_of-nonempty n [] ws h = h
windows_of-nonempty n (i ∷ indexes) ws h =
    windows_of-nonempty n indexes (push_window (window_of n i) ws)
      (push_window-nonempty (window_of n i) ws)

emit_windows-some :
    (ops : List DiffOp) (ws : List Window)
    → 0 < length ws
    → 0 < length (emit_windows ops 0 ws).hunks
unfolding emit_windows
emit_windows-some ops [] h = absurd (omega (arith, h))
emit_windows-some ops (w ∷ ws) h = ground arith

has_hunks_iff : (ops : List DiffOp) → (has_hunks ops ≡ false) ↔ (changed_indexes 0 ops ≡ [])
unfolding build_context_hunks windows_of emit_windows
has_hunks_iff ops = go (changed_indexes 0 ops)
  where
    go :
        (indexes : List ℕ)
        → (ltb 0 (length (emit_windows ops 0 (windows_of (length ops) indexes [])).hunks) ≡ false)
          ↔ (indexes ≡ [])
    go [] = (λ h. refl, λ h. refl)
    go (i ∷ indexes) =
        let some_window =
          windows_of-nonempty (length ops) indexes (push_window (window_of (length ops) i) [])
            (push_window-nonempty (window_of (length ops) i) []) in
        let emitted = emit_windows-some ops _ some_window in
        (λ h. absurd (ground (arith, emitted, h)), λ h. absurd (cc h))

-- A text compared with itself is kept line by line.
Walked-same :
    (lines : List SourceLine) (matrix : Cells) (index : ℕ) {left right : ℕ} {ops : List DiffOp}
    → Walked lines lines matrix left right ops
    → left ≡ right
    → changed_indexes index ops ≡ []
unfolding changed_indexes
Walked-same lines matrix index (ended eb ea) e = refl
Walked-same lines matrix index (kept eb ea same rest) e =
    Walked-same lines matrix (index + 1) rest (omega (arith, e))
Walked-same lines matrix index (added {b} {a} eb ea apart f rest) e =
    let one : b ≡ a = cc (eb, ea, e) in
    absurd (true-not-false (sym (text_eq_self b.key) ∙ ap (λ x. text_eq b.key x.key) one ∙ apart))
Walked-same lines matrix index (removed {b} {a} eb ea apart f rest) e =
    let one : b ≡ a = cc (eb, ea, e) in
    absurd (true-not-false (sym (text_eq_self b.key) ∙ ap (λ x. text_eq b.key x.key) one ∙ apart))
Walked-same lines matrix index (added_last eb ea rest) e = absurd (cc (eb, ea, e))
Walked-same lines matrix index (removed_last eb ea rest) e = absurd (cc (eb, ea, e))

-- Texts whose lines have the same keys are the same.
same_texts :
    (before after : Text)
    → keys (split_source_lines before) ≡ keys (split_source_lines after)
    → before ≡ after
same_texts before after e =
    let b = split_source_lines-joined before in
    let a = split_source_lines-joined after in sym b.0 ∙ joined-keys _ _ b.1 a.1 e ∙ a.0

lcs-unchanged :
    (before after : Text)
    → (has_hunks (lcs_operations (split_source_lines before) (split_source_lines after)) ≡ false)
      ↔ (before ≡ after)
lcs-unchanged before after =
    let ops = lcs_operations (split_source_lines before) (split_source_lines after) in
    let edit = lcs_operations-IsEdit (split_source_lines before) (split_source_lines after) in
    let iff = has_hunks_iff ops in
    (
      λ h. same_texts before after (
          ap keys (sym edit.of_before)
          ∙ unchanged-keys 0 ops edit.same (iff.0 h)
          ∙ ap keys edit.of_after),
      λ e. iff.1 (
          rw (← e) (
            Walked-same (split_source_lines before) _ 0
              (lcs_operations-Walked (split_source_lines before) (split_source_lines before))
              refl)),
    )

bounded_replacement_diff-changed :
    (before after : List SourceLine)
    → (bounded_replacement_diff before after).changed ≡ not (nothing_between before after)
unfolding bounded_replacement_diff
bounded_replacement_diff-changed before after = elim (Bool-cases (nothing_between before after)) [
  | inl e ↦ rw e refl
  | inr e ↦ rw e refl
]

bounded-unchanged :
    (before after : Text)
    → ((bounded_replacement_diff (split_source_lines before) (split_source_lines after)).changed
        ≡ false)
      ↔ (before ≡ after)
bounded-unchanged before after =
    let old = split_source_lines before in
    let new = split_source_lines after in
    let is_changed = bounded_replacement_diff-changed old new in
    (
      λ h.
          same_texts before after (nothing_between→keys old new (not-false _ (sym is_changed ∙ h))),
      λ e. rw (← e) (bounded_replacement_diff-changed old old ∙ rw (nothing_between_self old) refl),
    )

-- `diffModelfileText` says that nothing has changed exactly where the two texts are the same, character
-- by character, line endings included, whichever strategy it takes.
pub diff_modelfile_text-changed :
    (before after : Text) → ((diff_modelfile_text before after).changed ≡ false) ↔ (before ≡ after)
unfolding diff_modelfile_text
diff_modelfile_text-changed before after =
    elim (Bool-cases (
      ltb max_lcs_cells
        ((length (split_source_lines before) + 1) * (length (split_source_lines after) + 1)))) [
          | inl e ↦ rw e (bounded-unchanged before after)
          | inr e ↦ rw e (lcs-unchanged before after)
        ]
