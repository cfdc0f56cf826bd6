-- ===== src/Modelfile/Parse/Loop.antt =====
-- The rule for the loop of `parseModelfile` (packages/core/src/modelfile-parser.ts), and what a
-- successful parse went through.
use ollama_remote_control.Prelude.{
  ℕ, zero, suc, ◌≤◌, ◌≡◌, sym, inl, inr, false, not, List, [], ◌∷◌, arith, leb, Bool-cases, leb→le,
  require-eq-ok, length, ok, ok-injective, bind-eq-ok, require,
}
use ollama_remote_control.Modelfile.Chars.{Text, includes_unit, utf8_bytes}
use ollama_remote_control.Modelfile.Source.{ParsedModelfile}
use ollama_remote_control.Modelfile.Lines.{PhysicalLine, split_physical_lines}
use ollama_remote_control.Modelfile.Directive.{max_nodes, max_raw_bytes}
use ollama_remote_control.Modelfile.Parse.{
  Parsing, parse_line, parse_lines, start_parsing, finish_parsing, parse_modelfile,
}

-- What each round of the loop keeps holds of its result.
pub parse_lines-keeps {ℓ} :
    (raw : Text) (lines : List PhysicalLine) (P : Parsing → List PhysicalLine → Type ℓ)
    → ((first : PhysicalLine) (rest : List PhysicalLine) (p : Parsing)
        → P p (first ∷ rest)
        → leb max_nodes (length p.nodes) ≡ false
        → P (parse_line raw lines first rest p).0 (parse_line raw lines first rest p).1)
    → (fuel : ℕ) (rest : List PhysicalLine) (p : Parsing) {q : Parsing} → P p rest
    → parse_lines raw lines fuel rest p ≡ ok q
    → P q []
unfolding parse_lines
parse_lines-keeps raw lines P keep fuel [] p {q} h e =
    let same : p ≡ q = ok-injective e in rw (← same) h
parse_lines-keeps raw lines P keep zero (first ∷ rest) p h e = cc
parse_lines-keeps raw lines P keep (suc fuel) (first ∷ rest) p {q} h e =
    elim (Bool-cases (leb max_nodes (length p.nodes))) [
      | inl full ↦ cc (rw (full, parse_lines) at e)
      | inr room ↦
          parse_lines-keeps raw lines P keep fuel _ _ (keep first rest p h room)
            (rw (room, parse_lines) at e)
    ]

-- The guards that a parsed text has passed, and the end of the loop over its lines.
pub record ParseRun (raw : Text) (parsed : ParsedModelfile) : Type 0 where
  pub nul_free : includes_unit 0 raw ≡ false
  pub small : utf8_bytes raw ≤ max_raw_bytes
  pub end_state : Parsing
  pub looped :
      let lines = split_physical_lines raw in
      parse_lines raw lines (length lines) lines start_parsing ≡ ok end_state
  pub finished : parsed ≡ finish_parsing raw (split_physical_lines raw) end_state

pub parse_modelfile-ParseRun :
    (raw : Text) {parsed : ParsedModelfile} → parse_modelfile raw ≡ ok parsed → ParseRun raw parsed
unfolding parse_modelfile
parse_modelfile-ParseRun raw e =
    let (_, free, e₁) = bind-eq-ok (require (not (includes_unit 0 raw)) _) _ e in
    let (_, fits, e₂) = bind-eq-ok (require (leb (utf8_bytes raw) max_raw_bytes) _) _ e₁ in
    let (q, looped, e₃) = bind-eq-ok (parse_lines raw _ _ _ start_parsing) _ e₂ in
    record {
      nul_free = ground arith;
      small = leb→le _ _ (require-eq-ok _ _ fits);
      end_state = q;
      looped = looped;
      finished = sym (ok-injective e₃);
    }
