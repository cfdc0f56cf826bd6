-- ===== src/Modelfile/Diff/Optimal.antt =====
-- No edit script keeps more lines than the operations of `lcsOperations`.
use native.Mathlib.Nat.{mul-le-mul_right}
use native.Mathlib.Decide.{dec_le}
use ollama_remote_control.Prelude.{
  drop-some, drop-none, get_elem?-some, false, some, get_elem?, ℕ, suc, ◌+◌, ◌*◌, ◌^◌, ◌≤◌, ◌<◌,
  min, ◌≡◌, refl, ◌∙◌, List, [], ◌∷◌, arith, length, drop, text_eq,
}
use ollama_remote_control.Modelfile.Diff.Source.{
  larger, SourceLine, DiffOp, keep_line, remove_line, add_line, max_lcs_cells,
}
use ollama_remote_control.Modelfile.Diff.Lcs.{lcs_matrix, lcs_operations}
use ollama_remote_control.Modelfile.Diff.Edits.{befores, afters, KeepsKeys, IsEdit}
use ollama_remote_control.Modelfile.Diff.Walk.{
  below, right_of, Walked, ended, kept, added, removed, added_last, removed_last,
  lcs_operations-Walked,
}
use ollama_remote_control.Modelfile.Diff.Matrix.{lcs, lcs_nil, lcs_matrix-eq-lcs}

-- The number of lines that the operations keep.
unfoldable pub kept_lines : List DiffOp → ℕ
kept_lines [] = 0
kept_lines (keep_line b a ∷ ops) = suc (kept_lines ops)
kept_lines (remove_line b ∷ ops) = kept_lines ops
kept_lines (add_line a ∷ ops) = kept_lines ops

-- A line more in one text makes the subsequence longer by one line at most, and never shorter.
lcs-grows_before :
    (b a : SourceLine) (before after : List SourceLine)
    → (lcs before after ≤ lcs (b ∷ before) after) × (lcs before (a ∷ after) ≤ lcs before after + 1)
unfolding lcs
lcs-grows_before b a [] [] = omega arith
lcs-grows_before b a [] (y ∷ after) = omega arith
lcs-grows_before b a (x ∷ before) [] =
    ground (arith, lcs-grows_before x a before [], lcs_nil before)
lcs-grows_before b a (x ∷ before) (y ∷ after) =
    ground (arith, lcs-grows_before b y (x ∷ before) after, lcs-grows_before x a before (y ∷ after))

lcs-grows_after :
    (b a : SourceLine) (before after : List SourceLine)
    → (lcs before after ≤ lcs before (a ∷ after)) × (lcs (b ∷ before) after ≤ lcs before after + 1)
unfolding lcs
lcs-grows_after b a [] [] = omega arith
lcs-grows_after b a [] (y ∷ after) = ground (arith, lcs-grows_after b y [] after)
lcs-grows_after b a (x ∷ before) [] = omega arith
lcs-grows_after b a (x ∷ before) (y ∷ after) =
    ground (arith, lcs-grows_after b y (x ∷ before) after, lcs-grows_after x a before (y ∷ after))

-- An edit script keeps no more lines than a longest common subsequence has.
kept_lines-le-lcs :
    (ops : List DiffOp) → KeepsKeys ops → kept_lines ops ≤ lcs (befores ops) (afters ops)
unfolding kept_lines lcs
kept_lines-le-lcs [] h = omega arith
kept_lines-le-lcs (keep_line b a ∷ ops) h = rw h.0 (omega (arith, kept_lines-le-lcs ops h.1))
kept_lines-le-lcs (remove_line b ∷ ops) h =
    omega (arith, kept_lines-le-lcs ops h, lcs-grows_before b b (befores ops) (afters ops))
kept_lines-le-lcs (add_line a ∷ ops) h =
    omega (arith, kept_lines-le-lcs ops h, lcs-grows_after a a (befores ops) (afters ops))

module _ (before after : List SourceLine)
    (small : min (length before) (length after) < 2 ^ 16) where
  -- Where the lines differ, the larger one of the two cells is what can be kept.
  lcs-differ :
      (left right : ℕ) {b a : SourceLine}
      → get_elem? before left ≡ some b
      → get_elem? after right ≡ some a
      → text_eq b.key a.key ≡ false
      → lcs (drop left before) (drop right after)
        ≡ larger
            (below (lcs_matrix before after) (length after + 1) left right)
            (right_of (lcs_matrix before after) (length after + 1) left right)
  unfolding lcs
  lcs-differ left right eb ea e =
      let inside = get_elem?-some before left eb in
      let within = get_elem?-some after right ea in
      let across =
        lcs_matrix-eq-lcs before after small left (right + 1) (omega (arith, inside))
          (omega (arith, within)) in
      let down =
        lcs_matrix-eq-lcs before after small (left + 1) right (omega (arith, inside))
          (omega (arith, within)) in
      rw (across, down, drop-some before left eb, drop-some after right ea, e) refl

  -- A walk over the matrix keeps as many lines as a longest common subsequence has.
  Walked-kept_lines :
      {left right : ℕ} {ops : List DiffOp}
      → Walked before after (lcs_matrix before after) left right ops
      → kept_lines ops ≡ lcs (drop left before) (drop right after)
  unfolding kept_lines lcs
  Walked-kept_lines (ended {left} {right} eb ea) = rw (drop-none before left eb) refl
  Walked-kept_lines (kept {left} {right} eb ea e rest) =
      rw (drop-some before left eb, drop-some after right ea, e, Walked-kept_lines rest)
        (omega arith)
  Walked-kept_lines (added {left} {right} eb ea e f rest) =
      let across =
        lcs_matrix-eq-lcs before after small left (right + 1)
          (omega (arith, get_elem?-some before left eb))
          (omega (arith, get_elem?-some after right ea)) in
      ground (arith, f, across, lcs-differ left right eb ea e, Walked-kept_lines rest)
  Walked-kept_lines (removed {left} {right} eb ea e f rest) =
      let down =
        lcs_matrix-eq-lcs before after small (left + 1) right
          (omega (arith, get_elem?-some before left eb))
          (omega (arith, get_elem?-some after right ea)) in
      ground (arith, f, down, lcs-differ left right eb ea e, Walked-kept_lines rest)
  Walked-kept_lines (added_last {left} {right} eb ea rest) =
      let now = Walked-kept_lines rest in
      rw (drop-none before left eb) (now ∙ rw (drop-none before left eb) refl)
  Walked-kept_lines (removed_last {left} {right} eb ea rest) =
      let now = Walked-kept_lines rest in
      rw (drop-none after right ea, lcs_nil (drop left before))
        (now ∙ rw (drop-none after right ea, lcs_nil (drop (left + 1) before)) refl)

  lcs_operations-kept : kept_lines (lcs_operations before after) ≡ lcs before after
  lcs_operations-kept = Walked-kept_lines (lcs_operations-Walked before after)

-- The bound on the cells keeps the shorter text under 2 ^ 16 lines.
few_cells : (n m : ℕ) → (n + 1) * (m + 1) ≤ max_lcs_cells → min n m < 2 ^ 16
few_cells n m h = elim (dec_le (2 ^ 16) (min n m)) [
  | no small ↦ omega (arith, small)
  | yes large ↦
      let wide : (2 ^ 16 + 1) * (m + 1) ≤ (n + 1) * (m + 1) =
        mul-le-mul_right (m + 1) (omega (arith, large)) in
      absurd (omega (arith, h, wide, large))
]

-- The operations of `lcsOperations` keep as many lines as any edit script between the texts can, where
-- the matrix has at most `MAX_LCS_CELLS` cells.
pub lcs_operations-optimal :
    (before after : List SourceLine)
    → (length before + 1) * (length after + 1) ≤ max_lcs_cells
    → (other : List DiffOp) → IsEdit before after other
    → kept_lines other ≤ kept_lines (lcs_operations before after)
lcs_operations-optimal before after few other edit =
    let most = kept_lines-le-lcs other edit.same in
    let at_most : kept_lines other ≤ lcs before after =
      rw (← edit.of_before, ← edit.of_after) most in
    omega (arith, at_most, lcs_operations-kept before after (few_cells _ _ few))
