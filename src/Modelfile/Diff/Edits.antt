-- ===== src/Modelfile/Diff/Edits.antt =====
-- The operations of `lcsOperations` turn the first text into the second one.
use ollama_remote_control.Prelude.{
  drop-some, drop-none, ℕ, ◌≡◌, refl, ap, true, List, [], ◌∷◌, drop, text_eq,
}
use ollama_remote_control.Modelfile.Diff.Source.{
  SourceLine, DiffOp, keep_line, remove_line, add_line,
}
use ollama_remote_control.Modelfile.Diff.Lcs.{Cells, lcs_operations, lcs_matrix}
use ollama_remote_control.Modelfile.Diff.Walk.{
  Walked, ended, kept, added, removed, added_last, removed_last, lcs_operations-Walked,
}

-- The lines of the first text that the operations keep or remove, and those of the second one that they
-- keep or add.
abbrev pub befores : List DiffOp → List SourceLine
befores [] = []
befores (keep_line b a ∷ ops) = b ∷ befores ops
befores (remove_line b ∷ ops) = b ∷ befores ops
befores (add_line a ∷ ops) = befores ops

abbrev pub afters : List DiffOp → List SourceLine
afters [] = []
afters (keep_line b a ∷ ops) = a ∷ afters ops
afters (remove_line b ∷ ops) = afters ops
afters (add_line a ∷ ops) = a ∷ afters ops

-- A line is kept for one with the same key.
abbrev pub KeepsKeys : List DiffOp → Type 0
KeepsKeys [] = Unit
KeepsKeys (keep_line b a ∷ ops) = (text_eq b.key a.key ≡ true) × KeepsKeys ops
KeepsKeys (remove_line b ∷ ops) = KeepsKeys ops
KeepsKeys (add_line a ∷ ops) = KeepsKeys ops

-- The operations are an edit script from one list of lines to the other.
pub record IsEdit (before after : List SourceLine) (ops : List DiffOp) : Type 0 where
  pub of_before : befores ops ≡ before
  pub of_after : afters ops ≡ after
  pub same : KeepsKeys ops

module _ {before after : List SourceLine} {ops : List DiffOp} where
  pub keep-IsEdit :
      {b a : SourceLine}
      → text_eq b.key a.key ≡ true
      → IsEdit before after ops
      → IsEdit (b ∷ before) (a ∷ after) (keep_line b a ∷ ops)
  keep-IsEdit {b} {a} e rest = record {
    of_before = ap (◌∷◌ b) rest.of_before;
    of_after = ap (◌∷◌ a) rest.of_after;
    same = (e, rest.same);
  }

  pub remove-IsEdit :
      {b : SourceLine} → IsEdit before after ops → IsEdit (b ∷ before) after (remove_line b ∷ ops)
  remove-IsEdit {b} rest = record {
    of_before = ap (◌∷◌ b) rest.of_before;
    of_after = rest.of_after;
    same = rest.same;
  }

  pub add-IsEdit :
      {a : SourceLine} → IsEdit before after ops → IsEdit before (a ∷ after) (add_line a ∷ ops)
  add-IsEdit {a} rest = record {
    of_before = rest.of_before;
    of_after = ap (◌∷◌ a) rest.of_after;
    same = rest.same;
  }

module _ (before after : List SourceLine) (matrix : Cells) where
  -- What a walk has made from a cell on is an edit script of the lines from there on.
  pub Walked-IsEdit :
      {left right : ℕ} {ops : List DiffOp}
      → Walked before after matrix left right ops
      → IsEdit (drop left before) (drop right after) ops
  Walked-IsEdit (ended {left} {right} eb ea) =
      rw (drop-none before left eb, drop-none after right ea)
        (record { of_before = refl; of_after = refl; same = tt })
  Walked-IsEdit (kept {left} {right} eb ea e rest) =
      rw (drop-some before left eb, drop-some after right ea) (keep-IsEdit e (Walked-IsEdit rest))
  Walked-IsEdit (added {right} eb ea e f rest) =
      rw (drop-some after right ea) (add-IsEdit (Walked-IsEdit rest))
  Walked-IsEdit (removed {left} eb ea e f rest) =
      rw (drop-some before left eb) (remove-IsEdit (Walked-IsEdit rest))
  Walked-IsEdit (added_last {right} eb ea rest) =
      rw (drop-some after right ea) (add-IsEdit (Walked-IsEdit rest))
  Walked-IsEdit (removed_last {left} eb ea rest) =
      rw (drop-some before left eb) (remove-IsEdit (Walked-IsEdit rest))

-- The operations of `lcsOperations` are an edit script from the first text to the second one: the lines
-- kept and removed are those of the first text in order, the lines kept and added those of the second
-- text in order, and a line is kept only for a line with the same key.
pub lcs_operations-IsEdit :
    (before after : List SourceLine) → IsEdit before after (lcs_operations before after)
lcs_operations-IsEdit before after =
    Walked-IsEdit before after (lcs_matrix before after) (lcs_operations-Walked before after)
