-- ===== src/Modelfile/Diff/Walk.antt =====
-- The walk of `lcsOperations` over the matrix, as a relation on where it stands and what it makes.
use ollama_remote_control.Prelude.{
  get_elem?-none, get_elem?-some, leb→le, ℕ, zero, suc, ◌+◌, ◌-◌, ◌*◌, ◌≤◌, ◌<◌, leb, false, ◌≡◌,
  refl, ◌∙◌, inl, inr, true, false, Bool-cases, Option-cases, Option, none, some, List, [], ◌∷◌,
  arith, length, get_elem?, text_eq,
}
use ollama_remote_control.Modelfile.Diff.Source.{
  SourceLine, DiffOp, keep_line, remove_line, add_line,
}
use ollama_remote_control.Modelfile.Diff.Lcs.{
  Cells, walk, next_operation, next_between, lcs_operations, lcs_matrix, step_to,
}

-- The two cells that the walk compares.
abbrev pub right_of : Cells → ℕ → ℕ → ℕ → ℕ
right_of matrix width left right = matrix (left * width + (right + 1))

abbrev pub below : Cells → ℕ → ℕ → ℕ → ℕ
below matrix width left right = matrix ((left + 1) * width + right)

-- The walk from a cell of the matrix on: what it finds at each cell, and the operation it makes of it.
pub data Walked (before after : List SourceLine) (matrix : Cells)
    : ℕ → ℕ → List DiffOp → Type 0 where
  ended :
      {left right : ℕ}
      → get_elem? before left ≡ none
      → get_elem? after right ≡ none
      → Walked before after matrix left right []
  kept :
      {left right : ℕ} {b a : SourceLine} {ops : List DiffOp}
      → get_elem? before left ≡ some b
      → get_elem? after right ≡ some a
      → text_eq b.key a.key ≡ true
      → Walked before after matrix (left + 1) (right + 1) ops
      → Walked before after matrix left right (keep_line b a ∷ ops)
  added :
      {left right : ℕ} {b a : SourceLine} {ops : List DiffOp}
      → get_elem? before left ≡ some b
      → get_elem? after right ≡ some a
      → text_eq b.key a.key ≡ false
      → below matrix (length after + 1) left right ≤ right_of matrix (length after + 1) left right
      → Walked before after matrix left (right + 1) ops
      → Walked before after matrix left right (add_line a ∷ ops)
  removed :
      {left right : ℕ} {b a : SourceLine} {ops : List DiffOp}
      → get_elem? before left ≡ some b
      → get_elem? after right ≡ some a
      → text_eq b.key a.key ≡ false
      → right_of matrix (length after + 1) left right < below matrix (length after + 1) left right
      → Walked before after matrix (left + 1) right ops
      → Walked before after matrix left right (remove_line b ∷ ops)
  added_last :
      {left right : ℕ} {a : SourceLine} {ops : List DiffOp}
      → get_elem? before left ≡ none
      → get_elem? after right ≡ some a
      → Walked before after matrix left (right + 1) ops
      → Walked before after matrix left right (add_line a ∷ ops)
  removed_last :
      {left right : ℕ} {b : SourceLine} {ops : List DiffOp}
      → get_elem? before left ≡ some b
      → get_elem? after right ≡ none
      → Walked before after matrix (left + 1) right ops
      → Walked before after matrix left right (remove_line b ∷ ops)

module _ (before after : List SourceLine) (matrix : Cells) where
  abbrev Continues : ℕ → ℕ → ℕ → Type 0
  Continues rounds left right =
      Walked before after matrix left right (walk before after matrix rounds left right)

  next_operation_at :
      (left right : ℕ) {ob oa : Option SourceLine}
      → get_elem? before left ≡ ob
      → get_elem? after right ≡ oa
      → next_operation before after matrix left right
        ≡ next_between
            (right_of matrix (length after + 1) left right)
            (below matrix (length after + 1) left right)
            left
            right
            ob
            oa
  unfolding next_operation
  next_operation_at left right eb ea = rw (← eb, ← ea) refl

  walk-goes :
      (rounds : ℕ) {left right : ℕ} (op : DiffOp) (l r : ℕ)
      → next_operation before after matrix left right ≡ some (step_to op l r)
      → Walked before after matrix left right (op ∷ walk before after matrix rounds l r)
      → Continues (suc rounds) left right
  unfolding walk
  walk-goes rounds op l r found walked = rw (found, walk) walked

  walk_both :
      (rounds left right : ℕ) (b a : SourceLine)
      → get_elem? before left ≡ some b
      → get_elem? after right ≡ some a
      → Continues rounds (left + 1) (right + 1)
      → Continues rounds left (right + 1)
      → Continues rounds (left + 1) right
      → Continues (suc rounds) left right
  unfolding next_between
  walk_both rounds left right b a eb ea diagonal across down =
      elim (Bool-cases (text_eq b.key a.key)) [
        | inl e ↦
            walk-goes rounds (keep_line b a) (left + 1) (right + 1)
              (next_operation_at left right eb ea ∙ rw e refl) (kept eb ea e diagonal)
        | inr e ↦
            elim (Bool-cases (
              leb (below matrix (length after + 1) left right)
                (right_of matrix (length after + 1) left right))) [
                  | inl f ↦
                      walk-goes rounds (add_line a) left (right + 1)
                        (next_operation_at left right eb ea ∙ rw (e, f) refl)
                        (added eb ea e (leb→le _ _ f) across)
                  | inr f ↦
                      walk-goes rounds (remove_line b) (left + 1) right
                        (next_operation_at left right eb ea ∙ rw (e, f) refl)
                        (removed eb ea e (ground (arith, f)) down)
                ]
      ]

  walk_without :
      (rounds left right : ℕ)
      → get_elem? before left ≡ none
      → (right < length after → Continues rounds left (right + 1))
      → Continues (suc rounds) left right
  unfolding walk next_between
  walk_without rounds left right eb rest = elim (Option-cases (get_elem? after right)) [
    | inl ea ↦ rw (next_operation_at left right eb ea, walk) (ended eb ea)
    | inr (a, ea) ↦
        walk-goes rounds (add_line a) left (right + 1) (next_operation_at left right eb ea)
          (added_last eb ea (rest (get_elem?-some after right ea)))
  ]

  walk_with :
      (rounds left right : ℕ) (b : SourceLine)
      → get_elem? before left ≡ some b
      → Continues rounds (left + 1) right
      → (right < length after
          → Continues rounds (left + 1) (right + 1) × Continues rounds left (right + 1))
      → Continues (suc rounds) left right
  unfolding next_between
  walk_with rounds left right b eb down rest = elim (Option-cases (get_elem? after right)) [
    | inl ea ↦
        walk-goes rounds (remove_line b) (left + 1) right (next_operation_at left right eb ea)
          (removed_last eb ea down)
    | inr (a, ea) ↦
        let both = rest (get_elem?-some after right ea) in
        walk_both rounds left right b a eb ea both.0 both.1 down
  ]

  -- As many rounds as there are lines left in both texts are enough.
  pub walk_on-Walked :
      (rounds left right : ℕ)
      → (length before - left) + (length after - right) ≤ rounds
      → Continues rounds left right
  unfolding walk
  walk_on-Walked zero left right enough =
      ended (get_elem?-none before left (omega (arith, enough)))
        (get_elem?-none after right (omega (arith, enough)))
  walk_on-Walked (suc rounds) left right enough = elim (Option-cases (get_elem? before left)) [
    | inl eb ↦
        walk_without rounds left right eb
          λ inside. walk_on-Walked rounds left (right + 1) (omega (arith, enough, inside))
    | inr (b, eb) ↦
        let within = get_elem?-some before left eb in
        walk_with rounds left right b eb
          (walk_on-Walked rounds (left + 1) right (omega (arith, enough, within)))
          λ inside. (
            walk_on-Walked rounds (left + 1) (right + 1) (omega (arith, enough, inside, within)),
            walk_on-Walked rounds left (right + 1) (omega (arith, enough, inside)),
          )
  ]

pub lcs_operations-Walked :
    (before after : List SourceLine)
    → Walked before after (lcs_matrix before after) 0 0 (lcs_operations before after)
unfolding lcs_operations
lcs_operations-Walked before after =
    walk_on-Walked before after (lcs_matrix before after) (length before + length after) 0 0
      (omega arith)
