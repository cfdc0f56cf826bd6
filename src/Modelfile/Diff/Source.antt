-- ===== src/Modelfile/Diff/Source.antt =====
-- The types of packages/core/src/modelfile-diff.ts, and `splitSourceLines`.
use ollama_remote_control.Prelude.{
  ℕ, ◌+◌, ◌-◌, Bool, false, ◌&&◌, Option, none, some, List, [], ◌∷◌, ◌++◌, ltb, if◌then◌else◌,
  length, get_elem?, slice, text_eq, count_up,
}
use ollama_remote_control.Modelfile.Chars.{Text}
use ollama_remote_control.Modelfile.Lines.{unit_is}

pub data DiffLineKind : Type 0 where
  context remove add : DiffLineKind

-- `ModelfileLineEnding`, the ending of one line
pub data EndingKind : Type 0 where
  ends_lf ends_crlf ends_none : EndingKind

pub record DiffLine : Type 0 where
  pub kind : DiffLineKind
  pub old_line : Option ℕ
  pub new_line : Option ℕ
  pub text : Text
  pub ending : EndingKind

pub record DiffHunk : Type 0 where
  pub old_start : ℕ
  pub new_start : ℕ
  pub lines : List DiffLine

pub data DiffStrategy : Type 0 where
  by_lcs bounded_replacement : DiffStrategy

pub record TextDiff : Type 0 where
  pub changed : Bool
  pub strategy : DiffStrategy
  pub truncated : Bool
  pub before_lines : ℕ
  pub after_lines : ℕ
  pub hunks : List DiffHunk

pub record SourceLine : Type 0 where
  pub number : ℕ
  pub text : Text
  pub ending : EndingKind
  pub key : Text

-- A `DiffOp` with the lines that its kind has; the other one is null in the code.
pub data DiffOp : Type 0 where
  keep_line : (before after : SourceLine) → DiffOp
  remove_line : (before : SourceLine) → DiffOp
  add_line : (after : SourceLine) → DiffOp

abbrev pub max_lcs_cells : ℕ
max_lcs_cells = 250000

abbrev pub max_diff_output_lines : ℕ
max_diff_output_lines = 2000

abbrev pub context_lines : ℕ
context_lines = 3

abbrev pub ending_name : EndingKind → Text
ending_name ends_lf = b'l' ∷ b'f' ∷ []
ending_name ends_crlf = b'c' ∷ b'r' ∷ b'l' ∷ b'f' ∷ []
ending_name ends_none = b'n' ∷ b'o' ∷ b'n' ∷ b'e' ∷ []

abbrev pub source_line : ℕ → Text → EndingKind → SourceLine
source_line number text ending = record {
  number = number;
  text = text;
  ending = ending;
  key = text ++ 0 ∷ ending_name ending;
}

pub record SourceSplitting : Type 0 where
  pub start : ℕ
  pub number : ℕ
  pub lines : List SourceLine

-- One round of the loop of `splitSourceLines`.
unfoldable pub split_source_at : Text → ℕ → SourceSplitting → SourceSplitting
split_source_at raw index s =
    let crlf = ltb s.start index && unit_is (get_elem? raw (index - 1)) b'\r' in
    let text_end = if crlf then index - 1 else index in
    let text = slice raw s.start text_end in
    let ending = if crlf then ends_crlf else ends_lf in
    if unit_is (get_elem? raw index) b'\n'
    then record {
      start = index + 1;
      number = s.number + 1;
      lines = s.lines ++ (source_line s.number text ending ∷ []);
    }
    else s

unfoldable pub split_source_rest : Text → SourceSplitting → List SourceLine
split_source_rest raw s =
    if ltb s.start (length raw)
    then s.lines ++ (source_line s.number (slice raw s.start (length raw)) ends_none ∷ [])
    else s.lines

unfoldable pub split_source_lines : Text → List SourceLine
split_source_lines raw =
    split_source_rest raw
      (count_up (length raw) 0 (split_source_at raw) (record { start = 0; number = 1; lines = [] }))

-- `before[left]!.key === after[right]!.key`, where both lines are there
unfoldable pub same_key : Option SourceLine → Option SourceLine → Bool
same_key (some b) (some a) = text_eq b.key a.key
same_key (some b) none = false
same_key none a = false

abbrev pub larger : ℕ → ℕ → ℕ
larger a b = if ltb a b then b else a
