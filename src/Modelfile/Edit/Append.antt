-- ===== src/Modelfile/Edit/Append.antt =====
-- What `appendDirective` of packages/core/src/modelfile-editor.ts writes behind the text: a line of its own.
use ollama_remote_control.Prelude.{
  ◌≡◌, refl, sym, ap, ◌∙◌, ◌⊎◌, inl, inr, true, false, not, ◌&&◌, List, [], ◌∷◌, ◌++◌, append_assoc,
  Bool, reverse, reverse-append, reverse-reverse, get_elem?, arith, Bool-cases, ok, require,
  require-eq-ok, bind-eq-ok, if◌then◌else◌,
}
use ollama_remote_control.Modelfile.Chars.{Text, includes_unit, is_empty}
use ollama_remote_control.Modelfile.Source.{
  DirectiveName, LineEnding, Node, ParsedModelfile, lf, crlf, mixed, no_ending,
}
use ollama_remote_control.Modelfile.Lines.{unit_is}
use ollama_remote_control.Modelfile.Directive.{name_text}
use ollama_remote_control.Modelfile.Parse.{parse_modelfile}
use ollama_remote_control.Modelfile.Edit.Args.{has_newline}
use ollama_remote_control.Modelfile.Edit.Patch.{
  PatchResult, is_singleton, is_none_of, wants_single_line, appended_suffix, append_directive,
  directive_nodes, preferred_line_ending, ends_with_line_ending, last_ending_is_crlf,
}
use ollama_remote_control.Modelfile.Edit.Local.{reparse-eq-ok}

-- `\n` or `\r\n`.
abbrev pub IsLineEnding : Text → Type 0
IsLineEnding t = (t ≡ 10 ∷ []) ⊎ (t ≡ 13 ∷ 10 ∷ [])

-- A text at whose end a new line starts.
abbrev pub EndsLine : Text → Type 0
EndsLine t = (t ≡ []) ⊎ ((before : Text) × (t ≡ before ++ 10 ∷ []))

choice-IsLineEnding : (b : Bool) → IsLineEnding (if b then 13 ∷ 10 ∷ [] else 10 ∷ [])
choice-IsLineEnding true = inr refl
choice-IsLineEnding false = inl refl

preferred_line_ending-IsLineEnding :
    (parsed : ParsedModelfile) → IsLineEnding (preferred_line_ending parsed)
unfolding preferred_line_ending
preferred_line_ending-IsLineEnding parsed = by_ending parsed.line_ending
  where
    by_ending :
        (e : LineEnding)
        → IsLineEnding (elim e [
          | crlf ↦ 13 ∷ 10 ∷ []
          | lf ↦ 10 ∷ []
          | mixed ↦ if last_ending_is_crlf (reverse parsed.raw) then 13 ∷ 10 ∷ [] else 10 ∷ []
          | no_ending ↦ 10 ∷ []
        ])
    by_ending crlf = inr refl
    by_ending lf = inl refl
    by_ending mixed = choice-IsLineEnding (last_ending_is_crlf (reverse parsed.raw))
    by_ending no_ending = inl refl

line_feed_last :
    (reversed : Text)
    → unit_is (get_elem? reversed 0) 10 ≡ true
    → (before : Text) × (reverse reversed ≡ before ++ 10 ∷ [])
line_feed_last [] h = cc
line_feed_last (c ∷ cs) h =
    let feed : c ≡ 10 = ground arith in (reverse cs, rw feed (reverse-append (10 ∷ []) cs))

ends_with_line_ending-EndsLine : (raw : Text) → ends_with_line_ending raw ≡ true → EndsLine raw
unfolding ends_with_line_ending
ends_with_line_ending-EndsLine raw h =
    let (before, same) = line_feed_last (reverse raw) h in
    inr (before, sym (reverse-reverse raw) ∙ same)

ending-EndsLine : (front ending : Text) → IsLineEnding ending → EndsLine (front ++ ending)
ending-EndsLine front ending (inl e) = inr (front, ap (λ (x : Text). front ++ x) e)
ending-EndsLine front ending (inr e) = inr (
  front ++ 13 ∷ [],
  ap (λ (x : Text). front ++ x) e ∙ sym (append_assoc front (13 ∷ []) (10 ∷ [])),
)

is_empty→nil : (t : Text) → is_empty t ≡ true → t ≡ []
is_empty→nil [] h = refl
is_empty→nil (c ∷ cs) h = cc

line_ended :
    (raw : Text) → (not (is_empty raw) && not (ends_with_line_ending raw)) ≡ false → EndsLine raw
line_ended raw h = elim (Bool-cases (is_empty raw)) [
  | inl empty ↦ inl (is_empty→nil raw empty)
  | inr more ↦ ends_with_line_ending-EndsLine raw (ground arith)
]

no_line_ended :
    (raw : Text) → EndsLine raw → is_empty raw ≡ false → ends_with_line_ending raw ≡ false → ⊥
unfolding ends_with_line_ending
no_line_ended raw (inl empty) more h = cc (rw empty at more)
no_line_ended raw (inr (before, e)) more h =
    let last : reverse raw ≡ 10 ∷ reverse before =
      ap (λ (x : Text). reverse x) e ∙ reverse-append before (10 ∷ []) in
    cc (rw last at h)

-- The directive that is written stands on a line of its own behind the old text.
pub record Appended (raw result written ending : Text) : Type 0 where
  pub front : Text
  pub result_is : result ≡ front ++ (written ++ ending)
  pub front_is : ((front ≡ raw) × EndsLine raw) ⊎ ((front ≡ raw ++ ending) × (EndsLine raw → ⊥))
  pub starts_line : EndsLine front
  pub ends_line : IsLineEnding ending

appended_suffix-Appended :
    (parsed : ParsedModelfile) (name : DirectiveName) (argument : Text)
    → Appended parsed.raw
        (parsed.raw ++ appended_suffix parsed name argument)
        (name_text name ++ (32 ∷ argument))
        (preferred_line_ending parsed)
unfolding appended_suffix
appended_suffix-Appended parsed name argument =
    let ending = preferred_line_ending parsed in
    let good = preferred_line_ending-IsLineEnding parsed in
    let written : (name_text name ++ (32 ∷ argument)) ++ ending
        ≡ name_text name ++ (32 ∷ (argument ++ ending)) =
      append_assoc (name_text name) (32 ∷ argument) ending in
    elim (Bool-cases (not (is_empty parsed.raw) && not (ends_with_line_ending parsed.raw))) [
      | inl apart ↦ record {
        front = parsed.raw ++ ending;
        result_is = rw apart (rw written (sym (append_assoc parsed.raw ending _)));
        front_is = inr (refl, λ e. no_line_ended parsed.raw e (ground arith) (ground arith));
        starts_line = ending-EndsLine parsed.raw ending good;
        ends_line = good;
      }
      | inr ended ↦
          let starts = line_ended parsed.raw (ground arith) in
          record {
            front = parsed.raw;
            result_is = rw ended (rw written refl);
            front_is = inl (refl, starts);
            starts_line = starts;
            ends_line = good;
          }
    ]

is_none_of→nil : (ns : List Node) → is_none_of ns ≡ true → ns ≡ []
is_none_of→nil [] h = refl
is_none_of→nil (n ∷ ns) h = cc

-- A successful `appendDirective` writes the name, a space and the argument on a line of their own behind the
-- old text: the old text, behind which a line ending stands if it had none and was not empty, is kept in front,
-- and a line ending follows. A second singleton and a line break in a directive of one line have been refused,
-- and the result is the parse of the new text.
pub append_directive-extends :
    (parsed : ParsedModelfile) (name : DirectiveName) (argument : Text) {r : PatchResult}
    → append_directive parsed name argument ≡ ok r
    → Appended parsed.raw r.raw (name_text name ++ (32 ∷ argument)) (preferred_line_ending parsed)
      × (is_singleton name ≡ true → directive_nodes parsed name ≡ [])
      × (wants_single_line name ≡ true → has_newline argument ≡ false)
      × (parse_modelfile r.raw ≡ ok r.parsed)
unfolding append_directive
append_directive-extends parsed name argument h =
    let (_, _, h₁) = bind-eq-ok (require (not (includes_unit 0 argument)) _) _ h in
    let (_, single, h₂) =
      bind-eq-ok
        (require (not (is_singleton name && not (is_none_of (directive_nodes parsed name)))) _) _
        h₁ in
    let (_, one_line, h₃) =
      bind-eq-ok (require (not (wants_single_line name && has_newline argument)) _) _ h₂ in
    let (raw_is, reparsed) = reparse-eq-ok _ h₃ in
    (
      rw raw_is (appended_suffix-Appended parsed name argument),
      λ s. is_none_of→nil _ (ground (arith, require-eq-ok _ _ single)),
      λ s. ground (arith, require-eq-ok _ _ one_line),
      reparsed,
    )
