-- ===== src/Modelfile/Diff/Matrix.antt =====
-- The matrix of `lcsOperations` holds, at every cell, the length of a longest common subsequence of the
-- lines from there on.
use native.Mathlib.Nat.{suc-mul, add-mul}
use ollama_remote_control.Prelude.{
  drop-some, drop-all, nat-cases, get_elem?-inside, ℕ, suc, ◌+◌, ◌-◌, ◌*◌, ◌%◌, ◌^◌, ◌≤◌, ◌<◌, min,
  ◌≡◌, refl, ap, ◌∙◌, ◌⊎◌, inl, inr, List, [], ◌∷◌, arith, if◌then◌else◌, length, length-drop, drop,
  text_eq, count_down, count_down-keeps,
}
use ollama_remote_control.Modelfile.Diff.Source.{SourceLine, larger, same_key}
use ollama_remote_control.Modelfile.Diff.Lcs.{Cells, store_cell, fill_cell, lcs_matrix}

-- The length of a longest common subsequence, by recursion on both lists.
unfoldable pub lcs : (before after : List SourceLine) → ℕ
lcs [] after = 0
lcs (b ∷ before) [] = 0
lcs (b ∷ before) (a ∷ after) =
    if text_eq b.key a.key
    then lcs before after + 1
    else larger (lcs before (a ∷ after)) (lcs (b ∷ before) after)

pub lcs_nil : (before : List SourceLine) → lcs before [] ≡ 0
unfolding lcs
lcs_nil [] = refl
lcs_nil (b ∷ before) = refl

pub lcs_bounds :
    (before after : List SourceLine)
    → (lcs before after ≤ length before) × (lcs before after ≤ length after)
unfolding lcs
lcs_bounds [] after = omega arith
lcs_bounds (b ∷ before) [] = omega arith
lcs_bounds (b ∷ before) (a ∷ after) =
    ground
      (arith, lcs_bounds before after, lcs_bounds before (a ∷ after), lcs_bounds (b ∷ before) after)

-- The cells of a later row stand behind those of this row.
later_row : (w i k i' j' : ℕ) → k < w → i < i' → i * w + k < i' * w + j'
later_row w i k i' j' inside h =
    let e : i' ≡ suc i + (i' - suc i) = omega (arith, h) in
    let d : i' * w ≡ suc i * w + (i' - suc i) * w =
      ap (λ n. n * w) e ∙ add-mul (suc i) (i' - suc i) w in
    omega (arith, d, suc-mul i w, inside)

module _ (before after : List SourceLine)
    (small : min (length before) (length after) < 2 ^ 16) where
  abbrev value : ℕ → ℕ → ℕ
  value i j = lcs (drop i before) (drop j after)

  abbrev width : ℕ
  width = length after + 1

  -- The cells from `(i, k)` on are filled, and those before it hold 0.
  record IsFilled (i k : ℕ) (t : Cells) : Type 0 where
    zeros : (q : ℕ) → q < i * width + k → t q ≡ 0
    cells :
        (i' j' : ℕ)
        → i' ≤ length before
        → j' ≤ length after
        → (i < i') ⊎ ((i ≡ i') × (k ≤ j'))
        → t (i' * width + j') ≡ value i' j'

  zero_cells-IsFilled : IsFilled (length before) 0 (λ i. 0)
  unfolding lcs
  zero_cells-IsFilled = record {
    zeros = λ q h. refl;
    cells = λ i' j' inside within later.
        let e : length before ≤ i' = ground (arith, later) in rw (drop-all before i' e) refl;
  }

  -- The last cell of a row is never written.
  row_end-IsFilled : (i : ℕ) (t : Cells) → IsFilled (suc i) 0 t → IsFilled i (length after) t
  row_end-IsFilled i t filled = record {
    zeros = λ q h. filled.zeros q (omega (arith, h, suc-mul i width));
    cells = λ i' j' inside within later. elim later [
      | inl h ↦ filled.cells i' j' inside within (ground (arith, h))
      | inr h ↦
          let last : j' ≡ length after = omega (arith, h, within) in
          let zero_there : t (i' * width + j') ≡ 0 =
            filled.zeros (i' * width + j') (rw (← h.0) (omega (arith, last, suc-mul i width))) in
          zero_there ∙ rw (drop-all after j' (omega (arith, last)), lcs_nil (drop i' before)) refl
    ];
  }

  value_small : (i j : ℕ) → value i j % 2 ^ 16 ≡ value i j
  value_small i j =
      let bounds = lcs_bounds (drop i before) (drop j after) in
      omega (arith, small, bounds, length-drop i before, length-drop j after)

  -- What the body of the loops stores is the value of its cell.
  fill_cell-value :
      (i k : ℕ) (t : Cells)
      → i < length before
      → k < length after
      → IsFilled i (suc k) t
      → fill_cell before after i k t ≡ store_cell (i * width + k) (value i k) t
  unfolding fill_cell lcs same_key
  fill_cell-value i k t hi hk filled =
      let (b, eb) = get_elem?-inside before i hi in
      let (a, ea) = get_elem?-inside after k hk in
      let diagonal =
        filled.cells (i + 1) (k + 1) (omega (arith, hi)) (omega (arith, hk)) (inl (omega arith)) in
      let down =
        filled.cells (i + 1) k (omega (arith, hi)) (omega (arith, hk)) (inl (omega arith)) in
      let across =
        filled.cells i (k + 1) (omega (arith, hi)) (omega (arith, hk)) (inr (refl, omega arith)) in
      rw (eb, ea, diagonal, down, across, drop-some before i eb, drop-some after k ea) refl

  fill_cell-IsFilled :
      (i k : ℕ) (t : Cells)
      → i < length before
      → suc k ≤ length after
      → IsFilled i (suc k) t
      → IsFilled i k (fill_cell before after i k t)
  unfolding store_cell
  fill_cell-IsFilled i k t hi hk filled =
      rw (fill_cell-value i k t hi (omega (arith, hk)) filled) (record {
        zeros = λ q h. ground (arith, h, filled.zeros q (omega (arith, h)));
        cells = λ i' j' inside within later. elim later [
          | inl h ↦
              let apart = later_row width i k i' j' (omega (arith, hk)) h in
              ground (arith, apart, filled.cells i' j' inside within (inl h))
          | inr h ↦ in_row i' j' inside within h.0 h.1
        ];
      })
    where
      in_row :
          (i' j' : ℕ)
          → i' ≤ length before
          → j' ≤ length after
          → i ≡ i'
          → k ≤ j'
          → store_cell (i * width + k) (value i k) t (i' * width + j') ≡ value i' j'
      in_row i' j' inside within e h = elim (nat-cases k j' h) [
        | inl f ↦ rw (← e, ← f) (ground (arith, value_small i k))
        | inr f ↦
            rw (← e)
              (ground (arith, f, filled.cells i j' (omega (arith, hi)) within (inr (refl, f))))
      ]

  fill_row-IsFilled :
      (i : ℕ) (t : Cells)
      → suc i ≤ length before
      → IsFilled (suc i) 0 t
      → IsFilled i 0 (count_down (length after) (fill_cell before after i) t)
  fill_row-IsFilled i t hi filled =
      count_down-keeps (IsFilled i) (fill_cell before after i) (length after)
        (λ k s hk. fill_cell-IsFilled i k s hi hk) t (row_end-IsFilled i t filled)

  -- The cell of a row and a column of `lcsOperations` holds the length of a longest common
  -- subsequence of the lines of both texts from there on, where the shorter text has fewer than 2 ^ 16
  -- lines, so that no cell of the `Uint16Array` overflows.
  pub lcs_matrix-eq-lcs :
      (i j : ℕ)
      → i ≤ length before
      → j ≤ length after
      → lcs_matrix before after (i * width + j) ≡ lcs (drop i before) (drop j after)
  unfolding lcs_matrix
  lcs_matrix-eq-lcs i j hi hj =
      let filled =
        count_down-keeps (λ i. IsFilled i 0)
          (λ left. count_down (length after) (fill_cell before after left)) (length before)
          fill_row-IsFilled (λ i. 0) zero_cells-IsFilled in
      filled.cells i j hi hj (ground arith)
