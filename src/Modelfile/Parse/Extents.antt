-- ===== src/Modelfile/Parse/Extents.antt =====
-- How far a directive of packages/core/src/modelfile-parser.ts reaches, and where its argument lies.
use ollama_remote_control.Prelude.{
  ℕ, ◌+◌, ◌-◌, ◌≤◌, ◌≡◌, refl, inl, inr, Bool, true, false, some, List, [], ◌∷◌, arith, ◌==◌,
  Bool-cases, Option-cases, length, length-slice, slice, drop_while, length-take_while, ◌%◌,
}
use ollama_remote_control.Modelfile.Chars.{Text, is_space, is_name_char, is_blank}
use ollama_remote_control.Modelfile.Source.{SourceRange}
use ollama_remote_control.Modelfile.Lines.{PhysicalLine, search_line, position_at, range}
use ollama_remote_control.Modelfile.Lines.Tiling.{IsLineOf, Tiles}
use ollama_remote_control.Modelfile.Directive.{
  DirectiveMatch, match_directive, triple_quote_count, requires_multiline_continuation,
}
use ollama_remote_control.Modelfile.Parse.{Extent, continuation, directive_extent, argument_start}

-- The argument of a directive lies between the offsets `a` and `b`, and is that slice of the text.
pub record ArgumentInside (raw : Text) (a b : ℕ) (r : SourceRange) (argument : Text) : Type 0 where
  pub after_start : a ≤ r.start.offset
  pub ordered : r.start.offset ≤ r.end.offset
  pub before_end : r.end.offset ≤ b
  pub is_slice : argument ≡ slice raw r.start.offset r.end.offset

-- Where the lines taken by a directive end, the lines behind them go on.
pub record Stops (raw : Text) (first : PhysicalLine) (bound : ℕ) (x : Extent) : Type 0 where
  pub next : ℕ
  pub ends_after : first.end ≤ x.last.end
  pub content_after : first.content_end ≤ x.last.content_end
  pub last_line : IsLineOf raw x.last
  pub rest_tiled : Tiles raw x.last.end next x.rest (length raw)
  pub fewer : length x.rest ≤ bound

continuation-Stops :
    (raw : Text) (first last : PhysicalLine) (count k : ℕ) (m : Bool) (ls : List PhysicalLine)
    → first.end ≤ last.end
    → first.content_end ≤ last.content_end
    → first.content_end ≤ first.end
    → IsLineOf raw last
    → Tiles raw last.end k ls (length raw)
    → Stops raw first (length ls) (continuation count last m ls)
unfolding continuation
continuation-Stops raw first last count k m [] p q c h t = record {
  next = k;
  ends_after = p;
  content_after = q;
  last_line = h;
  rest_tiled = t;
  fewer = omega arith;
}
continuation-Stops raw first last count k m (l ∷ ls) p q c h t =
    let past : first.end ≤ l.end = omega (arith, t.0, t.2.nonempty) in
    let further : first.content_end ≤ l.content_end =
      omega (arith, t.0, t.2.content_after_start, h.content_before_end) in
    elim (Bool-cases ((count + triple_quote_count l.content) % 2 == 0)) [
      | inl even ↦
          rw (even, continuation)
            (record {
              next = k + 1;
              ends_after = past;
              content_after = further;
              last_line = t.2;
              rest_tiled = t.3;
              fewer = omega arith;
            })
      | inr odd ↦
          let r =
            continuation-Stops raw first l (count + triple_quote_count l.content) (k + 1) true ls
              past further c t.2 t.3 in
          rw (odd, continuation)
            (record {
              next = r.next;
              ends_after = r.ends_after;
              content_after = r.content_after;
              last_line = r.last_line;
              rest_tiled = r.rest_tiled;
              fewer = omega (arith, r.fewer);
            })
    ]

pub directive_extent-Stops :
    (raw argument : Text) (first : PhysicalLine) (k : ℕ) (ls : List PhysicalLine)
    → IsLineOf raw first
    → Tiles raw first.end k ls (length raw)
    → Stops raw first (length ls) (directive_extent argument first ls)
unfolding directive_extent
directive_extent-Stops raw argument first k ls h t =
    elim (Bool-cases (requires_multiline_continuation argument)) [
      | inl goes_on ↦ rw goes_on (
          continuation-Stops raw first first (triple_quote_count argument) k false ls (omega arith)
            (omega arith) h.content_before_end h t)
      | inr single ↦ rw single (record {
        next = k;
        ends_after = omega arith;
        content_after = omega arith;
        last_line = h;
        rest_tiled = t;
        fewer = omega arith;
      })
    ]

position_at-offset : (lines : List PhysicalLine) (k : ℕ) → (position_at lines k).offset ≡ k
unfolding position_at
position_at-offset [] k = refl
position_at-offset (l ∷ ls) k =
    elim (Option-cases (search_line (l ∷ ls) k (length (l ∷ ls)) 0 (length (l ∷ ls)))) [
      | inl absent ↦ rw (absent, position_at)
      | inr (found, e) ↦ rw (e, position_at)
    ]

pub range_offsets :
    (lines : List PhysicalLine) (a b : ℕ)
    → ((range lines a b).start.offset ≡ a) × ((range lines a b).end.offset ≡ b)
unfolding range
range_offsets lines a b = (position_at-offset lines a, position_at-offset lines b)

-- The three groups before the argument are a prefix of the line.
match_directive-length :
    (content : Text) (m : DirectiveMatch)
    → match_directive content ≡ some m
    → length m.leading + length m.original_name + length m.separator ≤ length content
unfolding match_directive
match_directive-length content m h =
    let named = drop_while is_space content in
    ground (
      arith,
      length-take_while is_space content,
      length-take_while is_name_char named,
      length-take_while is_blank (drop_while is_name_char named),
    )

pub argument-inside :
    (raw : Text) (lines : List PhysicalLine) (first : PhysicalLine) (m : DirectiveMatch)
    (x : Extent)
    → IsLineOf raw first
    → first.content_end ≤ x.last.content_end
    → IsLineOf raw x.last
    → match_directive first.content ≡ some m
    → ArgumentInside raw first.start x.last.end
        (range lines (argument_start first m) x.last.content_end)
        (slice raw (argument_start first m) x.last.content_end)
argument-inside raw lines first m x h c l e =
    let (s, t) = range_offsets lines (argument_start first m) x.last.content_end in
    let n = match_directive-length first.content m e in
    let w : length first.content ≡ first.content_end - first.start = rw h.content_is (
      length-slice raw _ _ h.content_after_start (omega (arith, h.content_before_end, h.inside))) in
    record {
      after_start = rw s (omega arith);
      ordered = rw (s, t) (omega (arith, n, w, h.content_after_start));
      before_end = rw t (l.content_before_end);
      is_slice = rw (s, t);
    }
