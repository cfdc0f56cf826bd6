-- ===== src/Modelfile/Diff/Windows.antt =====
-- The windows of `buildContextHunks` cover all changes, so that a difference that is not truncated shows
-- them all.
use native.Mathlib.Decide.{dec_le}
use ollama_remote_control.Prelude.{
  select-append, nil-left, slice_over, map-append, take_enough, slice_to_end, drop-slice, ℕ, ◌+◌,
  ◌-◌, ◌≤◌, ◌<◌, min, ◌≡◌, refl, sym, ap, ◌∙◌, inl, inr, Bool, true, false, Bool-cases, List, [],
  ◌∷◌, ◌++◌, map, arith, ltb, leb, length, length-take, take, drop, drop-add, slice, slice-append,
  slice_all, select,
}
use ollama_remote_control.Modelfile.Diff.Source.{
  DiffLine, context, DiffHunk, DiffOp, keep_line, remove_line, add_line, larger,
  max_diff_output_lines,
}
use ollama_remote_control.Modelfile.Diff.Hunks.{
  Window, line_from_op, is_change, changed_indexes, push_window, window_of, windows_of,
  emit_windows, build_context_hunks,
}

abbrev pub changes : List DiffOp → List DiffOp
changes = select is_change

abbrev pub is_changed_line : DiffLine → Bool
is_changed_line line = elim line.kind [ context ↦ false | _ ↦ true ]

-- The removed and the added lines of all hunks.
unfoldable pub changed_lines : List DiffHunk → List DiffLine
changed_lines [] = []
changed_lines (hunk ∷ hunks) = select is_changed_line hunk.lines ++ changed_lines hunks

changed_lines_of :
    (ops : List DiffOp)
    → select is_changed_line (map line_from_op ops) ≡ map line_from_op (changes ops)
unfolding line_from_op
changed_lines_of [] = refl
changed_lines_of (keep_line b a ∷ ops) = changed_lines_of ops
changed_lines_of (remove_line b ∷ ops) =
    ap (◌∷◌ (line_from_op (remove_line b))) (changed_lines_of ops)
changed_lines_of (add_line a ∷ ops) = ap (◌∷◌ (line_from_op (add_line a))) (changed_lines_of ops)

module _ (ops : List DiffOp) where
  -- From `a` to `b` all changes lie in the windows, which lie one behind the other.
  abbrev Upto : ℕ → List Window → ℕ → Type 0
  Upto a [] b = changes (slice ops a b) ≡ []
  Upto a (w ∷ ws) b =
      (a ≤ w.start) × (w.start ≤ w.end) × (changes (slice ops a w.start) ≡ []) × Upto w.end ws b

  -- A shorter range without changes.
  none_before : (a b c : ℕ) → b ≤ c → changes (slice ops a c) ≡ [] → changes (slice ops a b) ≡ []
  none_before a b c h none_there = elim (dec_le a b) [
    | yes p ↦ nil-left (changes (slice ops a b)) (changes (slice ops b c)) (
        sym (select-append is_change (slice ops a b) (slice ops b c))
        ∙ ap changes (slice-append ops a b c p h)
        ∙ none_there)
    | no p ↦ rw (slice_over ops a b (omega (arith, p))) refl
  ]

  none_over : (a b : ℕ) → b ≤ a → changes (slice ops a b) ≡ []
  none_over a b h = rw (slice_over ops a b h) refl

  push_window-Upto :
      (i n a : ℕ) (ws : List Window)
      → i < n
      → (ws ≡ [] → a ≡ 0)
      → Upto a ws i
      → Upto a (push_window (window_of n i) ws) (i + 1)
  unfolding push_window
  push_window-Upto i n a [] inside at_start upto = (
    omega (arith, at_start refl),
    omega (arith, inside),
    none_before a (i - 3) i (omega arith) upto,
    none_over (min n (i + 3 + 1)) (i + 1) (omega (arith, inside)),
  )
  push_window-Upto i n a (last ∷ []) inside at_start upto =
      elim (Bool-cases (leb (i - 3) last.end)) [
        | inl e ↦ rw e (
          upto.0,
          ground (arith, upto.1),
          upto.2,
          none_over (larger last.end (min n (i + 3 + 1))) (i + 1) (ground (arith, inside)),
        )
        | inr e ↦ rw e (
          upto.0,
          upto.1,
          upto.2,
          (
            ground (arith, e),
            omega (arith, inside),
            none_before last.end (i - 3) i (omega arith) upto.3,
            none_over (min n (i + 3 + 1)) (i + 1) (omega (arith, inside)),
          ),
        )
      ]
  push_window-Upto i n a (first ∷ second ∷ rest) inside at_start upto = (
    upto.0,
    upto.1,
    upto.2,
    push_window-Upto i n first.end (second ∷ rest) inside (λ h. absurd (cc h)) upto.3,
  )

  -- A range without changes may be one operation longer, where that is no change.
  none_behind :
      (a i : ℕ) {op : DiffOp} {rest : List DiffOp}
      → drop i ops ≡ op ∷ rest
      → is_change op ≡ false
      → changes (slice ops a i) ≡ []
      → changes (slice ops a (i + 1)) ≡ []
  unfolding slice
  none_behind a i {op} {rest} at_i same none_there = elim (dec_le a i) [
    | yes p ↦
        let one : slice ops i (i + 1) ≡ op ∷ [] =
          let e : i + 1 - i ≡ 1 = omega arith in rw (e, at_i) refl in
        ap changes (sym (slice-append ops a i (i + 1) p (omega arith)))
        ∙ select-append is_change (slice ops a i) (slice ops i (i + 1))
        ∙ rw (none_there, one) (rw (same, select) refl)
    | no p ↦ none_over a (i + 1) (omega (arith, p))
  ]

  Upto-behind :
      (a i : ℕ) (ws : List Window) {op : DiffOp} {rest : List DiffOp}
      → drop i ops ≡ op ∷ rest
      → is_change op ≡ false
      → Upto a ws i
      → Upto a ws (i + 1)
  Upto-behind a i [] at_i same upto = none_behind a i at_i same upto
  Upto-behind a i (w ∷ ws) at_i same upto =
      (upto.0, upto.1, upto.2, Upto-behind w.end i ws at_i same upto.3)

  drop_next :
      (i : ℕ) {op : DiffOp} {rest : List DiffOp} → drop i ops ≡ op ∷ rest → drop (i + 1) ops ≡ rest
  drop_next i at_i = drop-add i 1 ops ∙ rw at_i refl

  -- The windows of all changed indexes.
  windows_of-Upto :
      (left : List DiffOp) (i : ℕ) (ws : List Window)
      → drop i ops ≡ left
      → i + length left ≡ length ops
      → Upto 0 ws i
      → Upto 0 (windows_of (length ops) (changed_indexes i left) ws) (length ops)
  unfolding windows_of changed_indexes
  windows_of-Upto [] i ws at_i sum upto =
      let e : i ≡ length ops = omega (arith, sum) in rw (← e) upto
  windows_of-Upto (op ∷ left) i ws at_i sum upto = elim (Bool-cases (is_change op)) [
    | inl e ↦ rw e (
        windows_of-Upto left (i + 1) (push_window (window_of (length ops) i) ws) (drop_next i at_i)
          (omega (arith, sum))
          (push_window-Upto i (length ops) 0 ws (omega (arith, sum)) (λ h. refl) upto))
    | inr e ↦ rw e (
        windows_of-Upto left (i + 1) ws (drop_next i at_i) (omega (arith, sum))
          (Upto-behind 0 i ws at_i e upto))
  ]

  -- The changes from `a` on are those of the first window and those behind it.
  changes-split :
      (a start end : ℕ)
      → a ≤ start
      → start ≤ end
      → changes (slice ops a start) ≡ []
      → changes (slice ops a (length ops))
        ≡ changes (slice ops start end) ++ changes (slice ops end (length ops))
  changes-split a start end p q none_there =
      let whole : slice ops a (length ops)
          ≡ slice ops a start ++ (slice ops start end ++ slice ops end (length ops)) =
        slice_to_end ops a
        ∙ drop-slice ops a start p
        ∙ ap (λ t. slice ops a start ++ t)
            (drop-slice ops start end q
              ∙ ap (λ t. slice ops start end ++ t) (sym (slice_to_end ops end))) in
      ap changes whole
      ∙ select-append is_change (slice ops a start) _
      ∙ ap (λ t. t ++ changes (slice ops start end ++ slice ops end (length ops))) none_there
      ∙ select-append is_change (slice ops start end) (slice ops end (length ops))

  -- Not truncated, the windows show every change from `a` on.
  emit_windows-changes :
      (a emitted : ℕ) (ws : List Window)
      → Upto a ws (length ops)
      → (emit_windows ops emitted ws).truncated ≡ false
      → changed_lines (emit_windows ops emitted ws).hunks
        ≡ map line_from_op (changes (slice ops a (length ops)))
  unfolding emit_windows changed_lines
  emit_windows-changes a emitted [] upto whole = rw upto refl
  emit_windows-changes a emitted (w ∷ ws) upto whole =
      let selected = slice ops w.start w.end in
      let visible = take (max_diff_output_lines - emitted) selected in
      elim (Bool-cases (leb max_diff_output_lines emitted)) [
        | inl e ↦ absurd (cc (rw e at whole))
        | inr e ↦ elim (Bool-cases (ltb (length visible) (length selected))) [
          | inl f ↦ absurd (cc (rw (e, f) at whole))
          | inr f ↦
              let rest =
                emit_windows-changes w.end (emitted + length visible) ws upto.3
                  (rw (e, f) at whole) in
              let all : visible ≡ selected =
                take_enough _ selected
                  (ground (arith, f, length-take (max_diff_output_lines - emitted) selected)) in
              rw (e, f)
                (ap
                    (λ v.
                      select is_changed_line (map line_from_op v)
                      ++ changed_lines (emit_windows ops (emitted + length visible) ws).hunks)
                    all
                  ∙ ap (λ t. select is_changed_line (map line_from_op selected) ++ t) rest
                  ∙ ap (λ t. t ++ map line_from_op (changes (slice ops w.end (length ops))))
                      (changed_lines_of selected)
                  ∙ sym (
                      map-append line_from_op (changes selected)
                        (changes (slice ops w.end (length ops))))
                  ∙ ap (map line_from_op)
                      (sym (changes-split a w.start w.end upto.0 upto.1 upto.2)))
        ]
      ]

-- Hunks that are not truncated show all removed and all added lines of the operations, each once and in
-- their order.
pub build_context_hunks-changes :
    (ops : List DiffOp)
    → (build_context_hunks ops).truncated ≡ false
    → changed_lines (build_context_hunks ops).hunks ≡ map line_from_op (changes ops)
unfolding build_context_hunks
build_context_hunks-changes ops whole =
    let upto = windows_of-Upto ops ops 0 [] refl (omega arith) (none_over ops 0 0 (omega arith)) in
    emit_windows-changes ops 0 0 _ upto whole
    ∙ ap (λ t. map line_from_op (changes t)) (slice_all ops)
