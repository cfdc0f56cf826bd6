-- ===== src/Modelfile/Lines/Tiling.antt =====
-- The physical lines cover the text from its start to its end, in order and with no gap.
use ollama_remote_control.Prelude.{
  ℕ, zero, suc, ◌+◌, ◌≤◌, ◌<◌, ◌≡◌, refl, sym, ◌∙◌, inl, inr, true, List, [], ◌∷◌, ◌++◌, arith, ltb,
  Bool-cases, length, length-append, ltb→lt, get_elem?, slice, count_up-keeps,
}
use ollama_remote_control.Modelfile.Chars.{Text}
use ollama_remote_control.Modelfile.Lines.{
  PhysicalLine, physical_line, unit_is, Splitting, content_end_at, split_at, split_rest,
  split_physical_lines,
}

-- A line lies within the text, and its texts are those slices of it.
pub record IsLineOf (raw : Text) (l : PhysicalLine) : Type 0 where
  pub nonempty : l.start < l.end
  pub content_after_start : l.start ≤ l.content_end
  pub content_before_end : l.content_end ≤ l.end
  pub inside : l.end ≤ length raw
  pub raw_is : l.raw ≡ slice raw l.start l.end
  pub content_is : l.content ≡ slice raw l.start l.content_end

-- The lines are those of `raw` from offset `a` to offset `b`, numbered from `k`.
abbrev pub Tiles : Text → ℕ → ℕ → List PhysicalLine → ℕ → Type 0
Tiles raw a k [] b = a ≡ b
Tiles raw a k (l ∷ ls) b =
    (l.start ≡ a) × (l.line ≡ k) × IsLineOf raw l × Tiles raw l.end (k + 1) ls b

Tiles-concat :
    (raw : Text) (a k b k' : ℕ) (ls : List PhysicalLine) (l : PhysicalLine)
    → Tiles raw a k ls b
    → k + length ls ≡ k'
    → l.start ≡ b
    → l.line ≡ k'
    → IsLineOf raw l
    → Tiles raw a k (ls ++ l ∷ []) l.end
Tiles-concat raw a k b k' [] l t e s n h = (s ∙ sym t, n ∙ omega arith, h, refl)
Tiles-concat raw a k b k' (m ∷ ms) l t e s n h =
    (t.0, t.1, t.2, Tiles-concat raw m.end (k + 1) b k' ms l t.3 (omega arith) s n h)

unit_is→lt : (raw : Text) (i c : ℕ) → unit_is (get_elem? raw i) c ≡ true → i < length raw
unit_is→lt [] i c h = cc
unit_is→lt (x ∷ xs) zero c h = omega arith
unit_is→lt (x ∷ xs) (suc i) c h = omega (arith, unit_is→lt xs i c h)

content_end_at_bounds :
    (raw : Text) (start index : ℕ)
    → start ≤ index
    → (start ≤ content_end_at raw start index) × (content_end_at raw start index ≤ index)
unfolding content_end_at
content_end_at_bounds raw start index h = ground arith

physical_line-IsLineOf :
    (raw : Text) (start content_end end line : ℕ)
    → start < end
    → start ≤ content_end
    → content_end ≤ end
    → end ≤ length raw
    → IsLineOf raw (physical_line raw start content_end end line)
physical_line-IsLineOf raw start content_end end line p q r t = record {
  nonempty = p;
  content_after_start = q;
  content_before_end = r;
  inside = t;
  raw_is = refl;
  content_is = refl;
}

-- What the loop of `splitPhysicalLines` keeps.
record SplitInv (raw : Text) (i : ℕ) (s : Splitting) : Type 0 where
  started : s.start ≤ i
  numbered : 1 + length s.lines ≡ s.line
  tiled : Tiles raw 0 1 s.lines s.start

split_at-SplitInv :
    (raw : Text) (i : ℕ) (s : Splitting)
    → SplitInv raw i s
    → SplitInv raw (i + 1) (split_at raw i s)
unfolding split_at
split_at-SplitInv raw i s h = elim (Bool-cases (unit_is (get_elem? raw i) b'\n')) [
  | inl newline ↦
      let b = content_end_at_bounds raw s.start i h.started in
      rw newline (record {
        started = omega arith;
        numbered = omega (arith, h.numbered, length-append s.lines);
        tiled = Tiles-concat raw 0 1 s.start s.line s.lines _ h.tiled h.numbered refl refl (
            physical_line-IsLineOf raw s.start _ (i + 1) s.line (omega (arith, h.started)) b.0
              (omega (arith, b.1)) (omega (arith, unit_is→lt raw i b'\n' newline)));
      })
  | inr other ↦
      rw other
        (record { started = omega (arith, h.started); numbered = h.numbered; tiled = h.tiled })
]

split_rest-Tiles :
    (raw : Text) (s : Splitting)
    → SplitInv raw (length raw) s
    → Tiles raw 0 1 (split_rest raw s) (length raw)
unfolding split_rest
split_rest-Tiles raw s h = elim (Bool-cases (ltb s.start (length raw))) [
  | inl open_line ↦ rw open_line (
      Tiles-concat raw 0 1 s.start s.line s.lines _ h.tiled h.numbered refl refl (
        physical_line-IsLineOf raw s.start _ (length raw) s.line (ltb→lt _ _ open_line) h.started
          (omega arith) (omega arith)))
  | inr complete ↦
      let e : s.start ≡ length raw = ground (arith, h.started) in rw complete (rw e at h.tiled)
]

-- The physical lines of a text lie one behind the other from its start to its end, none empty,
-- numbered from 1, and each holds its own slices of the text.
pub split_physical_lines-Tiles :
    (raw : Text) → Tiles raw 0 1 (split_physical_lines raw) (length raw)
unfolding split_physical_lines
split_physical_lines-Tiles raw = split_rest-Tiles raw _ (
    count_up-keeps (SplitInv raw) (split_at raw) (split_at-SplitInv raw) (length raw) 0 (length raw)
      _ (omega arith) (record { started = omega arith; numbered = omega arith; tiled = refl }))
