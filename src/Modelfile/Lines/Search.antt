-- ===== src/Modelfile/Lines/Search.antt =====
-- The binary search of `positionAt` (packages/core/src/modelfile-parser.ts) over the lines of a text.
use ollama_remote_control.Prelude.{
  ℕ, zero, suc, ◌+◌, ◌-◌, ◌/◌, ◌≤◌, ◌<◌, ◌≡◌, ◌==◌, refl, ap, inl, inr, true, some, List, [], ◌∷◌,
  arith, ltb, ltb→lt, Bool-cases, length, get_elem?,
}
use ollama_remote_control.Modelfile.Chars.{Text}
use ollama_remote_control.Modelfile.Source.{SourcePosition}
use ollama_remote_control.Modelfile.Lines.{
  PhysicalLine, split_physical_lines, search_line, position_at,
}
use ollama_remote_control.Modelfile.Lines.Tiling.{Tiles, split_physical_lines-Tiles}

-- The line at index `j` of the list holds the offset, its two ends included.
pub record Holds (lines : List PhysicalLine) (offset j : ℕ) (l : PhysicalLine) : Type 0 where
  pub at_index : get_elem? lines j ≡ some l
  pub after_start : l.start ≤ offset
  pub before_end : offset ≤ l.end

get_elem?-lt : {A : Type 0} (xs : List A) (i : ℕ) {x : A} → get_elem? xs i ≡ some x → i < length xs
get_elem?-lt [] i h = cc
get_elem?-lt (y ∷ ys) zero h = omega arith
get_elem?-lt (y ∷ ys) (suc i) h = omega (arith, get_elem?-lt ys i h)

get_elem?-some :
    {A : Type 0} (xs : List A) (i : ℕ) → i < length xs → (x : A) × (get_elem? xs i ≡ some x)
get_elem?-some [] i h = absurd (omega arith)
get_elem?-some (y ∷ ys) zero h = (y, refl)
get_elem?-some (y ∷ ys) (suc i) h = get_elem?-some ys i (omega arith)

Tiles-bounds :
    (raw : Text) (a k b : ℕ) (ls : List PhysicalLine) (j : ℕ) {l : PhysicalLine}
    → Tiles raw a k ls b
    → get_elem? ls j ≡ some l
    → (a ≤ l.start) × (l.start < l.end) × (l.line ≡ k + j)
Tiles-bounds raw a k b [] j t h = cc
Tiles-bounds raw a k b (m ∷ ms) zero {l} t h =
    let same : m ≡ l = cc in rw (← same) (omega (arith, t.0), t.2.nonempty, omega (arith, t.1))
Tiles-bounds raw a k b (m ∷ ms) (suc j) t h =
    let (p, q, r) = Tiles-bounds raw m.end (k + 1) b ms j t.3 h in
    (omega (arith, p, t.0, t.2.nonempty), q, omega (arith, r))

-- Lines further on start where earlier ones end, or later.
Tiles-ordered :
    (raw : Text) (a k b : ℕ) (ls : List PhysicalLine) (i j : ℕ) {l m : PhysicalLine}
    → Tiles raw a k ls b
    → i < j
    → get_elem? ls i ≡ some l
    → get_elem? ls j ≡ some m
    → (l.end ≤ m.start) × (l.start < m.start) × (l.end < m.end)
Tiles-ordered raw a k b [] i j t lt p q = cc
Tiles-ordered raw a k b (x ∷ xs) i zero t lt p q = absurd (omega arith)
Tiles-ordered raw a k b (x ∷ xs) zero (suc j) {l} t lt p q =
    let same : x ≡ l = cc in
    let (s, e, _) = Tiles-bounds raw x.end (k + 1) b xs j t.3 q in
    rw (← same) (s, omega (arith, s, t.2.nonempty), omega (arith, s, e))
Tiles-ordered raw a k b (x ∷ xs) (suc i) (suc j) t lt p q =
    Tiles-ordered raw x.end (k + 1) b xs i j t.3 (omega arith) p q

Tiles-Holds :
    (raw : Text) (a k b : ℕ) (l : PhysicalLine) (ls : List PhysicalLine) (offset : ℕ)
    → Tiles raw a k (l ∷ ls) b
    → a ≤ offset
    → offset ≤ b
    → (j : ℕ) × (m : PhysicalLine) × Holds (l ∷ ls) offset j m
Tiles-Holds raw a k b l [] offset t p q = (
  0,
  l,
  record { at_index = refl; after_start = omega (arith, t.0); before_end = omega (arith, t.3) },
)
Tiles-Holds raw a k b l (m ∷ ms) offset t p q = elim (Bool-cases (ltb l.end offset)) [
  | inl later ↦
      let (j, x, h) =
        Tiles-Holds raw l.end (k + 1) b m ms offset t.3 (omega (arith, ltb→lt _ _ later)) q in
      (
        suc j,
        x,
        record { at_index = h.at_index; after_start = h.after_start; before_end = h.before_end },
      )
  | inr here ↦ (
    0,
    l,
    record { at_index = refl; after_start = omega (arith, t.0); before_end = ground arith },
  )
]

module _ (raw : Text) (lines : List PhysicalLine) (t : Tiles raw 0 1 lines (length raw))
    (offset : ℕ) where
  start_before_end : (i : ℕ) {l : PhysicalLine} → get_elem? lines i ≡ some l → l.start < l.end
  start_before_end i e = (Tiles-bounds raw 0 1 (length raw) lines i t e).1

  same_line :
      {i j : ℕ} {l m : PhysicalLine}
      → i ≡ j
      → get_elem? lines i ≡ some l
      → get_elem? lines j ≡ some m
      → l ≡ m
  same_line e p q = cc

  holder_before :
      (j middle : ℕ) {l m : PhysicalLine}
      → get_elem? lines middle ≡ some l
      → offset < l.start
      → Holds lines offset j m
      → j < middle
  holder_before j middle {l} {m} found left h = elim (Bool-cases (ltb middle j)) [
    | inl more ↦
        let (after, _, _) =
          Tiles-ordered raw 0 1 (length raw) lines middle j t (ltb→lt _ _ more) found h.at_index in
        absurd (omega (arith, h.after_start, start_before_end middle found))
    | inr less ↦ elim (Bool-cases (j == middle)) [
      | inl e ↦
          let same : j ≡ middle = ground arith in
          let one : m ≡ l = same_line same h.at_index found in
          absurd (omega (arith, h.after_start, ap (λ (x : PhysicalLine). x.start) one))
      | inr e ↦ ground arith
    ]
  ]

  holder_after :
      (j middle : ℕ) {l m : PhysicalLine}
      → get_elem? lines middle ≡ some l
      → l.end < offset
      → Holds lines offset j m
      → middle < j
  holder_after j middle {l} {m} found right h = elim (Bool-cases (ltb j middle)) [
    | inl less ↦
        let (before, _, _) =
          Tiles-ordered raw 0 1 (length raw) lines j middle t (ltb→lt _ _ less) h.at_index found in
        absurd (omega (arith, h.before_end, start_before_end middle found))
    | inr more ↦ elim (Bool-cases (j == middle)) [
      | inl e ↦
          let same : j ≡ middle = ground arith in
          let one : m ≡ l = same_line same h.at_index found in
          absurd (omega (arith, h.before_end, ap (λ (x : PhysicalLine). x.end) one))
      | inr e ↦ ground arith
    ]
  ]

  -- While some line between the two indices holds the offset, the search finds one that does.
  search_line-Holds :
      (fuel low above j : ℕ) (m : PhysicalLine)
      → above - low ≤ fuel
      → above ≤ length lines
      → low ≤ j
      → j < above
      → Holds lines offset j m
      → (i : ℕ) × (l : PhysicalLine) × (search_line lines offset fuel low above ≡ some l)
        × Holds lines offset i l
  unfolding search_line
  search_line-Holds zero low above j m f w p q h = absurd (omega arith)
  search_line-Holds (suc fuel) low above j m f w p q h =
      let middle = (low + (above - 1)) / 2 in
      let (l, found) = get_elem?-some lines middle (omega arith) in
      let inside : ltb low above ≡ true = ground arith in
      elim (Bool-cases (ltb offset l.start)) [
        | inl left ↦
            let (i, x, e, hx) =
              search_line-Holds fuel low middle j m (omega arith) (omega arith) p
                (holder_before j middle found (ltb→lt _ _ left) h) h in
            (i, x, rw (inside, found, left, search_line) e, hx)
        | inr other ↦ elim (Bool-cases (ltb l.end offset)) [
          | inl right ↦
              let (i, x, e, hx) =
                search_line-Holds fuel (middle + 1) above j m (omega arith) w
                  (omega (arith, holder_after j middle found (ltb→lt _ _ right) h)) q h in
              (i, x, rw (inside, found, other, right, search_line) e, hx)
          | inr here ↦ (
            middle,
            l,
            rw (inside, found, other, here, search_line),
            record { at_index = found; after_start = ground arith; before_end = ground arith },
          )
        ]
      ]

-- The position that the search gives to an offset.
pub record IsPosition (lines : List PhysicalLine) (offset : ℕ) (p : SourcePosition) : Type 0 where
  pub index : ℕ
  pub found : PhysicalLine
  pub holds : Holds lines offset index found
  pub offset_is : p.offset ≡ offset
  pub line_is : p.line ≡ index + 1
  pub column_is : found.start + p.column ≡ offset + 1

tiled-IsPosition :
    (raw : Text) (lines : List PhysicalLine) (offset : ℕ)
    → Tiles raw 0 1 lines (length raw)
    → 0 < length raw
    → offset ≤ length raw
    → IsPosition lines offset (position_at lines offset)
unfolding position_at
tiled-IsPosition raw [] offset t p q = absurd (omega arith)
tiled-IsPosition raw (l ∷ ls) offset t p q =
    let (j, m, h) = Tiles-Holds raw 0 1 (length raw) l ls offset t (omega arith) q in
    let (i, x, e, hx) =
      search_line-Holds raw (l ∷ ls) t offset (length (l ∷ ls)) 0 (length (l ∷ ls)) j m
        (omega arith) (omega arith) (omega arith) (get_elem?-lt (l ∷ ls) j h.at_index) h in
    rw (e, position_at)
      (record {
        index = i;
        found = x;
        holds = hx;
        offset_is = refl;
        line_is = omega (arith, (Tiles-bounds raw 0 1 (length raw) (l ∷ ls) i t hx.at_index).2);
        column_is = omega (arith, hx.after_start);
      })

only_holder :
    (raw : Text) (lines : List PhysicalLine) (offset i j : ℕ) {l m : PhysicalLine}
    → Tiles raw 0 1 lines (length raw)
    → Holds lines offset i m
    → get_elem? lines j ≡ some l
    → l.start < offset
    → offset < l.end
    → i ≡ j
only_holder raw lines offset i j t h e s f = elim (Bool-cases (ltb i j)) [
  | inl less ↦
      let o = Tiles-ordered raw 0 1 (length raw) lines i j t (ltb→lt i j less) h.at_index e in
      absurd (omega (arith, o.0, h.before_end))
  | inr not_less ↦ elim (Bool-cases (ltb j i)) [
    | inl more ↦
        let o = Tiles-ordered raw 0 1 (length raw) lines j i t (ltb→lt j i more) e h.at_index in
        absurd (omega (arith, o.0, h.after_start))
    | inr not_more ↦ ground arith
  ]
]

-- Every offset of a text that is not empty gets the number of a line that holds it, the line's two
-- ends included, and its column in that line; an offset strictly inside a line gets that line.
pub position_at-IsPosition :
    (raw : Text) (offset : ℕ)
    → 0 < length raw
    → offset ≤ length raw
    → let lines = split_physical_lines raw in
      (p : IsPosition lines offset (position_at lines offset)) × ((j : ℕ) (l : PhysicalLine)
        → get_elem? lines j ≡ some l
        → l.start < offset
        → offset < l.end
        → (position_at lines offset).line ≡ j + 1)
position_at-IsPosition raw offset p q =
    let t = split_physical_lines-Tiles raw in
    let pos = tiled-IsPosition raw (split_physical_lines raw) offset t p q in
    (
      pos,
      λ j l e s f. omega (
        arith,
        pos.line_is,
        only_holder raw (split_physical_lines raw) offset pos.index j t pos.holds e s f,
      ),
    )

-- The start of the second of two lines is reported as the position behind the end of the first.
pub position_at_second_line :
    (raw : Text) (l m : PhysicalLine)
    → split_physical_lines raw ≡ l ∷ m ∷ []
    → position_at (split_physical_lines raw) m.start
      ≡ record { offset = m.start; line = 1; column = m.start + 1 }
unfolding position_at search_line
position_at_second_line raw l m e =
    let t = rw e at (split_physical_lines-Tiles raw) in
    let s0 : l.start ≡ 0 = t.0 in
    let n : l.line ≡ 1 = t.1 in let met : m.start ≡ l.end = t.3.0 in rw e (ground arith)
