-- ===== src/Modelfile/Edit/Args.antt =====
-- `parseKeyValueArgument` and `parseTextArgument` of packages/core/src/modelfile-editor.ts.
use ollama_remote_control.Prelude.{
  ◌-◌, Bool, true, false, not, ◌&&◌, ◌||◌, Option, none, some, reverse, ◌==◌, text_eq,
  if◌then◌else◌, length, take, drop, slice, any, take_while, drop_while, suffix_while,
  before_suffix,
}
use ollama_remote_control.Modelfile.Chars.{
  Text, codes, is_space, is_line_terminator, is_blank, is_empty,
}

pub record KeyValueArgument : Type 0 where
  pub key : Text
  pub value : Text

pub record TextArgument : Type 0 where
  pub value : Text
  pub triple_quoted : Bool
  pub leading_whitespace : Text
  pub trailing_whitespace : Text

-- The groups of `/^(\s*)(\S+)([ \t]+)(.*?)([ \t]*)$/u`.
pub record KeyValueMatch : Type 0 where
  pub leading : Text
  pub key : Text
  pub separator : Text
  pub value : Text
  pub trailing : Text

-- The lazy group ends where only spaces and tabs follow, and it matches no line terminator.
unfoldable pub match_key_value : Text → Option KeyValueMatch
match_key_value argument =
    let word = drop_while is_space argument in
    let behind = drop_while (λ c. not (is_space c)) word in
    let rest = drop_while is_blank behind in
    let separator = take_while is_blank behind in
    let value = before_suffix is_blank rest in
    if not (is_empty word) && not (is_empty separator) && not (any is_line_terminator value)
    then some (record {
      leading = take_while is_space argument;
      key = take_while (λ c. not (is_space c)) word;
      separator = separator;
      value = value;
      trailing = suffix_while is_blank rest;
    })
    else none

-- `/[\r\n]/u.test(text)`
unfoldable pub has_newline : Text → Bool
has_newline = any (λ c. c == 10 || c == 13)

key_value_of : Option KeyValueMatch → Option KeyValueArgument
key_value_of none = none
key_value_of (some m) =
    if is_empty m.value then none else some (record { key = m.key; value = m.value })

unfoldable pub parse_key_value_argument : Text → Option KeyValueArgument
unfolding key_value_of
parse_key_value_argument argument =
    if has_newline argument then none else key_value_of (match_key_value argument)

abbrev pub triple_quote : Text
triple_quote = codes "\"\"\""

abbrev pub opens_with_quotes : Text → Bool
opens_with_quotes s = text_eq (take 3 s) triple_quote

-- `/^(\s*)"""([\s\S]*)"""(\s*)$/u`: a quote is no white space, so the closing quotes are the last
-- characters before the white space at the end.
unfoldable pub match_triple_quoted : Text → Option TextArgument
match_triple_quoted argument =
    let opened = drop_while is_space argument in
    let body = drop 3 opened in
    let closed = before_suffix is_space body in
    if opens_with_quotes opened && opens_with_quotes (reverse closed)
    then some (record {
      value = reverse (drop 3 (reverse closed));
      triple_quoted = true;
      leading_whitespace = take_while is_space argument;
      trailing_whitespace = suffix_while is_space body;
    })
    else none

unfoldable pub plain_text_argument : Text → TextArgument
plain_text_argument argument =
    let leading = take_while is_space argument in
    let trailing = suffix_while is_space argument in
    record {
      value = slice argument (length leading) (length argument - length trailing);
      triple_quoted = false;
      leading_whitespace = leading;
      trailing_whitespace = trailing;
    }

unfoldable pub text_argument_of : Option TextArgument → Text → TextArgument
text_argument_of (some t) argument = t
text_argument_of none argument = plain_text_argument argument

unfoldable pub parse_text_argument : Text → TextArgument
parse_text_argument argument = text_argument_of (match_triple_quoted argument) argument
