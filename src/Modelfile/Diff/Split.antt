-- ===== src/Modelfile/Diff/Split.antt =====
-- `splitSourceLines` loses nothing of the text, and the keys of two texts differ where the texts do.
use ollama_remote_control.Prelude.{
  drop-some, and-left, and-right, ℕ, ◌+◌, ◌-◌, ◌≤◌, ◌<◌, ◌≡◌, refl, sym, ap, ◌∙◌, inl, inr, true,
  ◌&&◌, Bool-cases, Option, none, some, List, [], ◌∷◌, ◌++◌, map, append-nil, append_assoc, reverse,
  reverse-append, reverse-reverse, arith, ltb, ltb→lt, length, get_elem?, slice, slice-append,
  slice_all, All, All-append, count_up, count_up-keeps,
}
use ollama_remote_control.Modelfile.Chars.{Text}
use ollama_remote_control.Modelfile.Lines.{unit_is}
use ollama_remote_control.Modelfile.Diff.Source.{
  SourceLine, SourceSplitting, EndingKind, ends_lf, ends_crlf, ends_none, ending_name, source_line,
  split_source_at, split_source_rest, split_source_lines,
}

abbrev pub ending_text : EndingKind → Text
ending_text ends_lf = b'\n' ∷ []
ending_text ends_crlf = b'\r' ∷ b'\n' ∷ []
ending_text ends_none = []

-- The text that the lines are of.
unfoldable pub joined : List SourceLine → Text
joined [] = []
joined (line ∷ lines) = line.text ++ ending_text line.ending ++ joined lines

-- The key of a line is its text and the name of its ending, behind a zero.
abbrev pub IsKeyed : SourceLine → Type 0
IsKeyed line = line.key ≡ line.text ++ 0 ∷ ending_name line.ending

joined-append :
    (front back : List SourceLine) → joined (front ++ back) ≡ joined front ++ joined back
unfolding joined
joined-append [] back = refl
joined-append (line ∷ front) back =
    rw (joined-append front back)
      (sym (append_assoc (line.text ++ ending_text line.ending) (joined front) (joined back)))

unit_is→some : (o : Option ℕ) (c : ℕ) → unit_is o c ≡ true → o ≡ some c
unit_is→some none c h = absurd (cc h)
unit_is→some (some d) c h = ap some (ground (arith, h))

slice_one : (raw : Text) (i : ℕ) {c : ℕ} → get_elem? raw i ≡ some c → slice raw i (i + 1) ≡ c ∷ []
unfolding slice
slice_one raw i h = let e : i + 1 - i ≡ 1 = omega arith in rw (e, drop-some raw i h) refl

module _ (raw : Text) where
  record Covered (index : ℕ) (s : SourceSplitting) : Type 0 where
    started : s.start ≤ index
    covers : joined s.lines ≡ slice raw 0 s.start
    keyed : All IsKeyed s.lines

  push-Covered :
      (index next : ℕ) (s : SourceSplitting) (text : Text) (ending : EndingKind)
      → s.start ≤ next
      → next ≤ index
      → text ++ ending_text ending ≡ slice raw s.start next
      → Covered index s
      → Covered index (record {
        start = next;
        number = s.number + 1;
        lines = s.lines ++ (source_line s.number text ending ∷ []);
      })
  unfolding joined
  push-Covered index next s text ending forward inside is_next split = record {
    started = inside;
    covers =
        joined-append s.lines (source_line s.number text ending ∷ [])
        ∙ rw (append-nil (text ++ ending_text ending), split.covers, is_next)
            (slice-append raw 0 s.start next (omega arith) forward);
    keyed = All-append IsKeyed s.lines _ split.keyed (refl, tt);
  }

  crlf_text :
      (start index : ℕ)
      → start < index
      → get_elem? raw (index - 1) ≡ some b'\r'
      → get_elem? raw index ≡ some b'\n'
      → slice raw start (index - 1) ++ (b'\r' ∷ b'\n' ∷ []) ≡ slice raw start (index + 1)
  crlf_text start index before er en =
      let e : index - 1 + 1 ≡ index = omega (arith, before) in
      let first = slice_one raw (index - 1) er in
      let last = slice_one raw index en in
      let two : slice raw (index - 1) (index + 1) ≡ b'\r' ∷ b'\n' ∷ [] =
        sym (slice-append raw (index - 1) index (index + 1) (omega arith) (omega arith))
        ∙ rw (last) (ap (λ t. t ++ b'\n' ∷ []) (ap (slice raw (index - 1)) (sym e) ∙ first)) in
      rw (← two)
        (slice-append raw start (index - 1) (index + 1) (omega (arith, before)) (omega arith))

  lf_text :
      (start index : ℕ)
      → start ≤ index
      → get_elem? raw index ≡ some b'\n'
      → slice raw start index ++ (b'\n' ∷ []) ≡ slice raw start (index + 1)
  lf_text start index before en =
      rw (← slice_one raw index en) (slice-append raw start index (index + 1) before (omega arith))

  split_source_at-Covered :
      (index : ℕ) (s : SourceSplitting)
      → Covered index s
      → Covered (index + 1) (split_source_at raw index s)
  unfolding split_source_at
  split_source_at-Covered index s split =
      let later : Covered (index + 1) s = record {
        started = omega (arith, split.started);
        covers = split.covers;
        keyed = split.keyed;
      } in
      elim (Bool-cases (unit_is (get_elem? raw index) b'\n')) [
        | inr e ↦ rw e later
        | inl e ↦
            elim (Bool-cases (ltb s.start index && unit_is (get_elem? raw (index - 1)) b'\r')) [
              | inl f ↦
                  rw (e, f)
                    (push-Covered (index + 1) (index + 1) s _ ends_crlf
                      (omega (arith, split.started)) (omega arith)
                      (crlf_text s.start index (ltb→lt _ _ (and-left _ _ f))
                        (unit_is→some _ _ (and-right _ _ f)) (unit_is→some _ _ e))
                      later)
              | inr f ↦
                  rw (e, f)
                    (push-Covered (index + 1) (index + 1) s _ ends_lf (omega (arith, split.started))
                      (omega arith) (lf_text s.start index split.started (unit_is→some _ _ e))
                      later)
            ]
      ]

  split_source_lines-Covered :
      Covered (length raw) (
        count_up
          (length raw)
          0
          (split_source_at raw)
          (record { start = 0; number = 1; lines = [] }))
  unfolding joined slice
  split_source_lines-Covered =
      count_up-keeps Covered (split_source_at raw) split_source_at-Covered (length raw) 0
        (length raw) _ (omega arith) (record { started = omega arith; covers = refl; keyed = tt })

  split_source_rest-covers :
      (s : SourceSplitting)
      → Covered (length raw) s
      → (joined (split_source_rest raw s) ≡ raw) × All IsKeyed (split_source_rest raw s)
  unfolding split_source_rest joined
  split_source_rest-covers s split = elim (Bool-cases (ltb s.start (length raw))) [
    | inl e ↦ rw e (
      joined-append s.lines (source_line s.number (slice raw s.start (length raw)) ends_none ∷ [])
          ∙ rw
              (
                append-nil (slice raw s.start (length raw) ++ []),
                append-nil (slice raw s.start (length raw)),
                split.covers,
              )
              (slice-append raw 0 s.start (length raw) (omega arith) split.started ∙ slice_all raw),
      All-append IsKeyed s.lines _ split.keyed (refl, tt),
    )
    | inr e ↦
        let over : s.start ≡ length raw = ground (arith, e, split.started) in
        rw e (split.covers ∙ rw over (slice_all raw), split.keyed)
  ]

  -- The lines of a text, with their endings, are the text again, and their keys are made of both.
  pub split_source_lines-joined :
      (joined (split_source_lines raw) ≡ raw) × All IsKeyed (split_source_lines raw)
  unfolding split_source_lines
  split_source_lines-joined = split_source_rest-covers _ split_source_lines-Covered

text_of_reverse : {s t : Text} → reverse s ≡ reverse t → s ≡ t
text_of_reverse {s} {t} h = sym (reverse-reverse s) ∙ ap reverse h ∙ reverse-reverse t

head_eq : {c d : ℕ} {s t : Text} → c ∷ s ≡ d ∷ t → c ≡ d
head_eq h = cc

-- A key tells the text of its line and the ending.
key-injective :
    (s t : Text) (e f : EndingKind)
    → s ++ 0 ∷ ending_name e ≡ t ++ 0 ∷ ending_name f
    → s ++ ending_text e ≡ t ++ ending_text f
key-injective s t e f h = go e f (
    sym (reverse-append s (0 ∷ ending_name e))
    ∙ ap reverse h
    ∙ reverse-append t (0 ∷ ending_name f))
  where
    go :
        (e f : EndingKind)
        → reverse (0 ∷ ending_name e) ++ reverse s ≡ reverse (0 ∷ ending_name f) ++ reverse t
        → s ++ ending_text e ≡ t ++ ending_text f
    go ends_lf ends_lf h = rw (text_of_reverse {s = s} {t = t} (cc h)) refl
    go ends_crlf ends_crlf h = rw (text_of_reverse {s = s} {t = t} (cc h)) refl
    go ends_none ends_none h = rw (text_of_reverse {s = s} {t = t} (cc h)) refl
    go ends_lf ends_crlf h = absurd (cc h)
    go ends_lf ends_none h = absurd (omega (arith, head_eq h))
    go ends_crlf ends_lf h = absurd (cc h)
    go ends_crlf ends_none h = absurd (omega (arith, head_eq h))
    go ends_none ends_lf h = absurd (omega (arith, head_eq h))
    go ends_none ends_crlf h = absurd (omega (arith, head_eq h))

abbrev pub keys : List SourceLine → List Text
keys lines = map (λ line. line.key) lines

-- Lines with the same keys are of the same text.
pub joined-keys :
    (before after : List SourceLine)
    → All IsKeyed before
    → All IsKeyed after
    → keys before ≡ keys after
    → joined before ≡ joined after
unfolding joined
joined-keys [] [] hb ha h = refl
joined-keys [] (a ∷ after) hb ha h = absurd (cc h)
joined-keys (b ∷ before) [] hb ha h = absurd (cc h)
joined-keys (b ∷ before) (a ∷ after) hb ha h =
    let first : b.key ≡ a.key = cc h in
    let rest : keys before ≡ keys after = cc h in
    rw
      (
        key-injective b.text a.text b.ending a.ending (sym hb.0 ∙ first ∙ ha.0),
        joined-keys before after hb.1 ha.1 rest,
      )
      refl
