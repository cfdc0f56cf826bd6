-- ===== src/Modelfile/Edit/RoundTrip.antt =====
-- `parseTextArgument` of packages/core/src/modelfile-editor.ts against the text that it takes apart
-- and against the text that `replaceTextArgument` builds.
use mathlib.Core.Option.{some_inj}
use mathlib.Core.Path.{subst}
use ollama_remote_control.Prelude.{
  ℕ, ◌+◌, ◌-◌, ◌≤◌, ◌≡◌, ◌≢◌, refl, sym, ap, ◌∙◌, inl, inr, true, false, ◌&&◌, ◌||◌, some, [], ◌∷◌,
  ◌++◌, append_assoc, reverse, reverse-append, reverse-reverse, arith, Bool-cases, Option-cases,
  if◌then◌else◌, length, length-append, drop, slice, slice-append, slice_all, slice_prefix,
  slice_suffix, drop_while-head, take_while_of_drop_while, suffix_while_of_All, All, take_while,
  drop_while, suffix_while, before_suffix, take_while-append-drop_while,
  before_suffix-append-suffix_while, take_while-All, suffix_while-All, drop_while-stops,
  take_while-stops, before_suffix-stops, suffix_while-stops, length-suffix_while_le,
}
use ollama_remote_control.Modelfile.Chars.{Text, is_space, includes_unit}
use ollama_remote_control.Modelfile.Edit.Args.{
  TextArgument, triple_quote, opens_with_quotes, match_triple_quoted, plain_text_argument,
  text_argument_of, parse_text_argument,
}
use ollama_remote_control.Modelfile.Edit.Patch.{rebuilt_text}

-- The text that the parts of an argument were taken from.
abbrev pub render_text_argument : TextArgument → Text
render_text_argument t =
    if t.triple_quoted
    then t.leading_whitespace
      ++ (triple_quote ++ (t.value ++ (triple_quote ++ t.trailing_whitespace)))
    else t.leading_whitespace ++ (t.value ++ t.trailing_whitespace)

abbrev pub Blank : Text → Type 0
Blank = All (λ c. is_space c ≡ true)

quote-not-space : is_space 34 ≡ false
unfolding is_space
quote-not-space = refl

regroup :
    (value trailing : Text)
    → value ++ (triple_quote ++ trailing) ≡ (value ++ 34 ∷ 34 ∷ []) ++ 34 ∷ trailing
regroup value trailing = sym (append_assoc value (34 ∷ 34 ∷ []) (34 ∷ trailing))

before-closing :
    (value trailing : Text)
    → Blank trailing
    → before_suffix is_space (value ++ (triple_quote ++ trailing)) ≡ value ++ triple_quote
before-closing value trailing h =
    ap (before_suffix is_space) (regroup value trailing)
    ∙ before_suffix-stops is_space (value ++ 34 ∷ 34 ∷ []) 34 trailing quote-not-space h
    ∙ append_assoc value (34 ∷ 34 ∷ []) (34 ∷ [])

after-closing :
    (value trailing : Text)
    → Blank trailing
    → suffix_while is_space (value ++ (triple_quote ++ trailing)) ≡ trailing
after-closing value trailing h =
    ap (suffix_while is_space) (regroup value trailing)
    ∙ suffix_while-stops is_space (value ++ 34 ∷ 34 ∷ []) 34 trailing quote-not-space h

-- A quote is no white space, so quoted text with white space around it is taken apart at the
-- outermost quotes, whatever it holds.
match_triple_quoted-stops :
    (leading value trailing : Text)
    → Blank leading
    → Blank trailing
    → match_triple_quoted (leading ++ (triple_quote ++ (value ++ (triple_quote ++ trailing))))
      ≡ some (record {
        value = value;
        triple_quoted = true;
        leading_whitespace = leading;
        trailing_whitespace = trailing;
      })
unfolding match_triple_quoted
match_triple_quoted-stops leading value trailing hl ht =
    let body = value ++ (triple_quote ++ trailing) in
    rw (drop_while-stops is_space leading 34 (34 ∷ 34 ∷ body) hl quote-not-space) (
      rw (take_while-stops is_space leading 34 (34 ∷ 34 ∷ body) hl quote-not-space) (
        rw (before-closing value trailing ht) (
          rw (after-closing value trailing ht)
            (rw (reverse-append value triple_quote) (rw (reverse-reverse value))))))

-- `take 3` finds the quotes that stand in front.
opens_with_quotes→eq : (s : Text) → opens_with_quotes s ≡ true → s ≡ triple_quote ++ drop 3 s
opens_with_quotes→eq [] h = cc
opens_with_quotes→eq (a ∷ []) h = ground arith
opens_with_quotes→eq (a ∷ b ∷ []) h = ground arith
opens_with_quotes→eq (a ∷ b ∷ c ∷ rest) h = ground arith

opens_reversed→eq :
    (s : Text)
    → opens_with_quotes (reverse s) ≡ true
    → s ≡ reverse (drop 3 (reverse s)) ++ triple_quote
opens_reversed→eq s h =
    sym (reverse-reverse s)
    ∙ ap reverse (opens_with_quotes→eq (reverse s) h)
    ∙ reverse-append triple_quote (drop 3 (reverse s))

record IsTaken (a : Text) (t : TextArgument) : Type 0 where
  rendered : render_text_argument t ≡ a
  leading_blank : Blank t.leading_whitespace
  trailing_blank : Blank t.trailing_whitespace

match_triple_quoted-eq-some :
    (a : Text) {t : TextArgument} → match_triple_quoted a ≡ some t → IsTaken a t
unfolding match_triple_quoted
match_triple_quoted-eq-some a {t} h =
    let opened = drop_while is_space a in
    let closed = before_suffix is_space (drop 3 opened) in
    elim (Bool-cases (opens_with_quotes opened && opens_with_quotes (reverse closed))) [
      | inl quoted ↦
          let same = some_inj.0 (rw quoted at h) in
          let front = opens_with_quotes→eq opened (ground arith) in
          let back = opens_reversed→eq closed (ground arith) in
          let value = reverse (drop 3 (reverse closed)) in
          let trailing = suffix_while is_space (drop 3 opened) in
          let body : value ++ (triple_quote ++ trailing) ≡ drop 3 opened =
            sym (append_assoc value triple_quote trailing)
            ∙ ap (λ (x : Text). x ++ trailing) (sym back)
            ∙ before_suffix-append-suffix_while is_space (drop 3 opened) in
          subst (IsTaken a) same (record {
            rendered =
                ap (λ (x : Text). take_while is_space a ++ (triple_quote ++ x)) body
                ∙ ap (λ (x : Text). take_while is_space a ++ x) (sym front)
                ∙ take_while-append-drop_while is_space a;
            leading_blank = take_while-All is_space a;
            trailing_blank = suffix_while-All is_space (drop 3 opened);
          })
      | inr plain ↦ cc (rw plain at h)
    ]

-- White space at the two ends of a text that is not all white space does not overlap.
blank_ends :
    (a : Text) (c : ℕ) (rest : Text)
    → drop_while is_space a ≡ c ∷ rest
    → length (take_while is_space a) + length (suffix_while is_space a) ≤ length a
blank_ends a c rest h =
    let lead = take_while is_space a in
    let whole : a ≡ lead ++ c ∷ rest =
      sym (take_while-append-drop_while is_space a) ∙ ap (λ (x : Text). lead ++ x) h in
    let short : length (suffix_while is_space a) ≤ length rest =
      subst (λ x. length (suffix_while is_space x) ≤ length rest) (sym whole)
        (length-suffix_while_le is_space lead c rest (drop_while-head is_space a h)) in
    omega (arith, short, ap length whole, length-append lead (c ∷ rest))

plain-rendered :
    (a : Text) (c : ℕ) (rest : Text)
    → drop_while is_space a ≡ c ∷ rest
    → take_while is_space a
        ++ (slice a (length (take_while is_space a)) (length a - length (suffix_while is_space a))
            ++ suffix_while is_space a)
      ≡ a
plain-rendered a c rest h =
    let lead = take_while is_space a in
    let trail = suffix_while is_space a in
    let m = length a - length trail in
    let apart = blank_ends a c rest h in
    let before = before_suffix is_space a in
    let split = before_suffix-append-suffix_while is_space a in
    let m_is : m ≡ length before = omega (arith, ap length split, length-append before trail) in
    let first : slice a 0 (length lead) ≡ lead =
      subst (λ x. slice x 0 (length lead) ≡ lead) (take_while-append-drop_while is_space a)
        (slice_prefix lead (drop_while is_space a)) in
    let last : slice a m (length a) ≡ trail =
      rw m_is (
        subst (λ x. slice x (length before) (length x) ≡ trail) split
          (slice_suffix before trail)) in
    ap (λ (x : Text). x ++ (slice a (length lead) m ++ trail)) (sym first)
    ∙ ap (λ (x : Text). slice a 0 (length lead) ++ (slice a (length lead) m ++ x)) (sym last)
    ∙ ap (λ (x : Text). slice a 0 (length lead) ++ x)
        (slice-append a (length lead) m (length a) (omega (arith, apart)) (omega arith))
    ∙ slice-append a 0 (length lead) (length a) (omega arith) (omega (arith, apart))
    ∙ slice_all a

plain-IsTaken :
    (a : Text) (c : ℕ) (rest : Text)
    → drop_while is_space a ≡ c ∷ rest
    → IsTaken a (plain_text_argument a)
unfolding plain_text_argument
plain-IsTaken a c rest h = record {
  rendered = plain-rendered a c rest h;
  leading_blank = take_while-All is_space a;
  trailing_blank = suffix_while-All is_space a;
}

slice_reversed : (a : Text) (n : ℕ) → slice a n 0 ≡ []
unfolding slice
slice_reversed a n = let e : 0 - n ≡ 0 = omega arith in rw e

-- The parts that `parseTextArgument` takes an argument into make it up again, unless the argument is
-- nothing but white space.
pub parse_text_argument-render :
    (a : Text) → drop_while is_space a ≢ [] → render_text_argument (parse_text_argument a) ≡ a
unfolding parse_text_argument text_argument_of
parse_text_argument-render a h = elim (Option-cases (match_triple_quoted a)) [
  | inr (t, e) ↦ rw e (match_triple_quoted-eq-some a e).rendered
  | inl e ↦ rw e (by_head (drop_while is_space a) refl)
]
  where
    by_head :
        (s : Text) → drop_while is_space a ≡ s → render_text_argument (plain_text_argument a) ≡ a
    by_head [] e' = absurd (h e')
    by_head (c ∷ rest) e' = (plain-IsTaken a c rest e').rendered

-- An argument of white space alone comes back twice as long: it is both the white space in front and
-- the white space behind.
pub parse_text_argument-blank :
    (a : Text) → drop_while is_space a ≡ [] → render_text_argument (parse_text_argument a) ≡ a ++ a
unfolding parse_text_argument text_argument_of match_triple_quoted plain_text_argument
parse_text_argument-blank a h =
    let lead = take_while_of_drop_while is_space a h in
    let all_blank : Blank a = subst Blank lead (take_while-All is_space a) in
    let trail = suffix_while_of_All is_space a all_blank in
    let e : length a - length a ≡ 0 = omega arith in
    rw h (rw lead (rw trail (rw e (ap (λ x. a ++ (x ++ a)) (slice_reversed a (length a))))))

-- Every argument is taken apart with white space at both ends.
parse_text_argument-Blank :
    (a : Text)
    → Blank (parse_text_argument a).leading_whitespace
      × Blank (parse_text_argument a).trailing_whitespace
unfolding parse_text_argument text_argument_of plain_text_argument
parse_text_argument-Blank a = elim (Option-cases (match_triple_quoted a)) [
  | inr (t, e) ↦ let i = match_triple_quoted-eq-some a e in rw e (i.leading_blank, i.trailing_blank)
  | inl e ↦ rw e (take_while-All is_space a, suffix_while-All is_space a)
]

rebuilt_read :
    (t : TextArgument) (value : Text)
    → Blank t.leading_whitespace
    → Blank t.trailing_whitespace
    → (t.triple_quoted || includes_unit 10 value || includes_unit 13 value) ≡ true
    → parse_text_argument (rebuilt_text t value) ≡ record t { value = value; triple_quoted = true }
unfolding parse_text_argument text_argument_of rebuilt_text
rebuilt_read t value hl ht h =
    rw h (rw (match_triple_quoted-stops t.leading_whitespace value t.trailing_whitespace hl ht))

-- From a text that is built around a value with triple quotes, `parseTextArgument` reads that value.
pub parse_text_argument-rebuilt :
    (a value : Text)
    → let current = parse_text_argument a in
      (current.triple_quoted || includes_unit 10 value || includes_unit 13 value) ≡ true
      → parse_text_argument (rebuilt_text current value)
        ≡ record current { value = value; triple_quoted = true }
parse_text_argument-rebuilt a value =
    let (hl, ht) = parse_text_argument-Blank a in rebuilt_read (parse_text_argument a) value hl ht
