-- ===== src/Modelfile/Lines.antt =====
-- `splitPhysicalLines`, `detectedLineEnding`, `positionAt` and `range` of
-- packages/core/src/modelfile-parser.ts.
pub mod Tiling
pub mod Search
use ollama_remote_control.Prelude.{
  ℕ, zero, suc, ◌+◌, ◌-◌, ◌/◌, Bool, false, ◌&&◌, Option, none, some, List, [], ◌∷◌, ◌++◌, ltb,
  ◌==◌, if◌then◌else◌, length, get_elem?, slice, count_up,
}
use ollama_remote_control.Modelfile.Chars.{Text}
use ollama_remote_control.Modelfile.Source.{
  SourcePosition, SourceRange, LineEnding, lf, crlf, mixed, no_ending,
}

pub record PhysicalLine : Type 0 where
  pub start : ℕ
  pub content_end : ℕ
  pub end : ℕ
  pub line : ℕ
  pub raw : Text
  pub content : Text

-- `raw[index] === unit`
abbrev pub unit_is : Option ℕ → ℕ → Bool
unit_is none c = false
unit_is (some d) c = d == c

pub record Splitting : Type 0 where
  pub start : ℕ
  pub line : ℕ
  pub lines : List PhysicalLine

-- The record of the line from `start` to `end` whose content ends at `content_end`.
abbrev physical_line : Text → ℕ → ℕ → ℕ → ℕ → PhysicalLine
physical_line raw start content_end end line = record {
  start = start;
  content_end = content_end;
  end = end;
  line = line;
  raw = slice raw start end;
  content = slice raw start content_end;
}

unfoldable pub content_end_at : Text → ℕ → ℕ → ℕ
content_end_at raw start index =
    if ltb start index && unit_is (get_elem? raw (index - 1)) b'\r' then index - 1 else index

-- One round of the loop of `splitPhysicalLines`.
unfoldable pub split_at : Text → ℕ → Splitting → Splitting
unfolding content_end_at
split_at raw index s =
    if unit_is (get_elem? raw index) b'\n'
    then record {
      start = index + 1;
      line = s.line + 1;
      lines =
          s.lines
          ++ (physical_line raw s.start (content_end_at raw s.start index) (index + 1) s.line ∷ []);
    }
    else s

-- The last line, where the text does not end in a line feed.
unfoldable pub split_rest : Text → Splitting → List PhysicalLine
split_rest raw s =
    if ltb s.start (length raw)
    then s.lines ++ (physical_line raw s.start (length raw) (length raw) s.line ∷ [])
    else s.lines

unfoldable pub split_physical_lines : Text → List PhysicalLine
split_physical_lines raw =
    split_rest raw
      (count_up (length raw) 0 (split_at raw) (record { start = 0; line = 1; lines = [] }))

pub record EndingCounts : Type 0 where
  pub lf_count : ℕ
  pub crlf_count : ℕ

unfoldable pub count_ending : Text → ℕ → EndingCounts → EndingCounts
count_ending raw index c =
    if unit_is (get_elem? raw index) b'\n'
    then (if ltb 0 index && unit_is (get_elem? raw (index - 1)) b'\r'
        then record c { crlf_count = c.crlf_count + 1 }
        else record c { lf_count = c.lf_count + 1 })
    else c

unfoldable pub detected_line_ending : Text → LineEnding
detected_line_ending raw =
    let c = count_up (length raw) 0 (count_ending raw) (record { lf_count = 0; crlf_count = 0 }) in
    if ltb 0 c.lf_count && ltb 0 c.crlf_count
    then mixed
    else if ltb 0 c.crlf_count
    then crlf
    else if ltb 0 c.lf_count
    then lf
    else no_ending

-- The binary search of `positionAt`. `above` is `high + 1`, so that it stays at or over 0; the
-- fuel is the number of lines, which the half-open interval never exceeds.
unfoldable pub search_line : List PhysicalLine → ℕ → ℕ → ℕ → ℕ → Option PhysicalLine
search_line lines offset zero low above = none
search_line lines offset (suc fuel) low above =
    let middle = (low + (above - 1)) / 2 in
    let lower = search_line lines offset fuel low middle in
    let upper = search_line lines offset fuel (middle + 1) above in
    if ltb low above
    then elim (get_elem? lines middle) [
      | none ↦ none
      | some l ↦ if ltb offset l.start then lower else if ltb l.end offset then upper else some l
    ]
    else none

abbrev pub last_line : List PhysicalLine → PhysicalLine → PhysicalLine
last_line [] l = l
last_line (m ∷ ms) l = last_line ms m

abbrev pub position_in : ℕ → PhysicalLine → SourcePosition
position_in offset l = record { offset = offset; line = l.line; column = (offset - l.start) + 1 }

-- Past the last line `Math.max(1, offset - last.start + 1)` is what truncated subtraction gives.
unfoldable pub position_at : List PhysicalLine → ℕ → SourcePosition
position_at [] offset = record { offset = offset; line = 1; column = offset + 1 }
position_at (l ∷ ls) offset =
    elim (search_line (l ∷ ls) offset (length (l ∷ ls)) 0 (length (l ∷ ls))) [
      | some found ↦ position_in offset found
      | none ↦ position_in offset (last_line ls l)
    ]

unfoldable pub range : List PhysicalLine → ℕ → ℕ → SourceRange
range lines start end = record { start = position_at lines start; end = position_at lines end }
