-- ===== src/Modelfile/Chars.antt =====
-- JavaScript strings as sequences of UTF-16 code units, with the character classes, `trim`,
-- `toUpperCase` (on ASCII) and UTF-8 length that packages/core/src/modelfile-parser.ts uses.
use ollama_remote_control.Prelude.{
  ℕ, ◌+◌, ◌-◌, Bool, true, false, ◌&&◌, ◌||◌, List, [], ◌∷◌, map, reverse, String, code, ltb, leb,
  ◌==◌, if◌then◌else◌, drop_while, any,
}

abbrev pub Text : Type 0
Text = List ℕ

-- The code units of an ASCII literal.
abbrev pub codes : String → Text
codes String.[] = []
codes (String.◌∷◌ c s) = code c ∷ codes s

abbrev pub within : ℕ → ℕ → ℕ → Bool
within lo hi c = leb lo c && leb c hi

-- `\s` and what `trim` removes: the white space and the line terminators of ECMAScript.
unfoldable pub is_space : ℕ → Bool
is_space c =
    within 9 13 c
    || c == 32
    || c == 0xa0
    || c == 0x1680
    || within 0x2000 0x200a c
    || within 0x2028 0x2029 c
    || c == 0x202f
    || c == 0x205f
    || c == 0x3000
    || c == 0xfeff

-- What `.` does not match in a regular expression without the flag `s`.
unfoldable pub is_line_terminator : ℕ → Bool
is_line_terminator c = c == 10 || c == 13 || within 0x2028 0x2029 c

-- `[ \t]`
unfoldable pub is_blank : ℕ → Bool
is_blank c = c == 32 || c == 9

-- `[A-Za-z]`
unfoldable pub is_letter : ℕ → Bool
is_letter c = within b'A' b'Z' c || within b'a' b'z' c

-- `[A-Za-z0-9_-]`
unfoldable pub is_name_char : ℕ → Bool
unfolding is_letter
is_name_char c = is_letter c || within b'0' b'9' c || c == b'_' || c == b'-'

unfoldable pub trim_start : Text → Text
unfolding is_space
trim_start = drop_while is_space

unfoldable pub trim_end : Text → Text
unfolding is_space
trim_end s = reverse (drop_while is_space (reverse s))

unfoldable pub trim : Text → Text
unfolding trim_start trim_end
trim s = trim_end (trim_start s)

abbrev upper_unit : ℕ → ℕ
upper_unit c = if within b'a' b'z' c then c - 32 else c

-- `toUpperCase`, on the ASCII names that it is applied to.
unfoldable pub to_upper : Text → Text
to_upper = map upper_unit

abbrev pub is_empty : Text → Bool
is_empty [] = true
is_empty (c ∷ cs) = false

unfoldable pub includes_unit : ℕ → Text → Bool
unfolding any
includes_unit c = any (λ d. d == c)

-- The UTF-8 width of a code unit that is no part of a surrogate pair. `TextEncoder` writes a lone
-- surrogate as U+FFFD, three bytes.
abbrev unit_width : ℕ → ℕ
unit_width c = if ltb c 0x80 then 1 else if ltb c 0x800 then 2 else 3

abbrev is_pair : ℕ → ℕ → Bool
is_pair c d = within 0xd800 0xdbff c && within 0xdc00 0xdfff d

-- `new TextEncoder().encode(value).byteLength`
unfoldable pub utf8_bytes : Text → ℕ
utf8_bytes [] = 0
utf8_bytes (c ∷ []) = unit_width c
utf8_bytes (c ∷ d ∷ rest) = elim (is_pair c d) [
  | true ↦ 4 + utf8_bytes rest
  | false ↦ unit_width c + utf8_bytes (d ∷ rest)
]
