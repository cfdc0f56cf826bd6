-- ===== src/Modelfile/Diff/Lcs.antt =====
-- `lcsOperations` of packages/core/src/modelfile-diff.ts.
use ollama_remote_control.Prelude.{
  ℕ, zero, suc, ◌+◌, ◌*◌, ◌%◌, ◌^◌, Option, none, some, List, [], ◌∷◌, leb, ◌==◌, if◌then◌else◌,
  length, get_elem?, text_eq, count_down,
}
use ollama_remote_control.Modelfile.Diff.Source.{
  DiffOp, SourceLine, larger, same_key, keep_line, remove_line, add_line,
}

-- The cells of a `Uint16Array`, by their index.
abbrev pub Cells : Type 0
Cells = ℕ → ℕ

unfoldable pub store_cell : ℕ → ℕ → Cells → Cells
store_cell index value cells i = if i == index then value % 2 ^ 16 else cells i

-- The body of the two loops of `lcsOperations` that fill the matrix.
unfoldable pub fill_cell : (before after : List SourceLine) → ℕ → ℕ → Cells → Cells
fill_cell before after left right matrix =
    let width = length after + 1 in
    store_cell (left * width + right)
      (if same_key (get_elem? before left) (get_elem? after right)
        then matrix ((left + 1) * width + (right + 1)) + 1
        else larger (matrix ((left + 1) * width + right)) (matrix (left * width + (right + 1))))
      matrix

unfoldable pub lcs_matrix : (before after : List SourceLine) → Cells
lcs_matrix before after =
    count_down (length before) (λ left. count_down (length after) (fill_cell before after left))
      (λ i. 0)

pub record WalkStep : Type 0 where
  pub operation : DiffOp
  pub next_left : ℕ
  pub next_right : ℕ

abbrev pub step_to : DiffOp → ℕ → ℕ → WalkStep
step_to operation left right = record {
  operation = operation;
  next_left = left;
  next_right = right;
}

-- One round of the loop of `lcsOperations` over the matrix, `none` where it ends. `up` and `down` are
-- the cells at the right of this one and below it, which the code reads where both lines are there.
unfoldable pub next_between :
    (up down left right : ℕ) → Option SourceLine → Option SourceLine → Option WalkStep
next_between up down left right (some b) (some a) =
    if text_eq b.key a.key
    then some (step_to (keep_line b a) (left + 1) (right + 1))
    else if leb down up
    then some (step_to (add_line a) left (right + 1))
    else some (step_to (remove_line b) (left + 1) right)
next_between up down left right none (some a) = some (step_to (add_line a) left (right + 1))
next_between up down left right (some b) none = some (step_to (remove_line b) (left + 1) right)
next_between up down left right none none = none

unfoldable pub next_operation : (before after : List SourceLine) → Cells → ℕ → ℕ → Option WalkStep
next_operation before after matrix left right =
    let width = length after + 1 in
    next_between (matrix (left * width + (right + 1))) (matrix ((left + 1) * width + right)) left
      right (get_elem? before left) (get_elem? after right)

-- A round takes a line of one text at least, so that as many rounds as there are lines are enough.
unfoldable pub walk : (before after : List SourceLine) → Cells → ℕ → ℕ → ℕ → List DiffOp
walk before after matrix zero left right = []
walk before after matrix (suc rounds) left right =
    elim (next_operation before after matrix left right) [
      | none ↦ []
      | some s ↦ s.operation ∷ walk before after matrix rounds s.next_left s.next_right
    ]

unfoldable pub lcs_operations : (before after : List SourceLine) → List DiffOp
lcs_operations before after =
    walk before after (lcs_matrix before after) (length before + length after) 0 0
