-- ===== src/Modelfile/Parse/Sound.antt =====
-- What holds of every file that packages/core/src/modelfile-parser.ts parses, of one with no error
-- diagnostic, and of one that passes the first two tests of packages/core/src/modelfile-deploy.ts.
use ollama_remote_control.Prelude.{
  ◌≤◌, ◌<◌, ◌≡◌, refl, sym, ◌∙◌, false, List, [], ◌∷◌, arith, length, All, ok,
}
use ollama_remote_control.Modelfile.Chars.{Text, includes_unit, utf8_bytes}
use ollama_remote_control.Modelfile.Source.{Diagnostic, Node, ParsedModelfile}
use ollama_remote_control.Modelfile.Lines.{PhysicalLine, split_physical_lines}
use ollama_remote_control.Modelfile.Parse.{
  from_nodes, report_duplicates, check_from, parse_modelfile,
}
use ollama_remote_control.Modelfile.Parse.Loop.{
  parse_lines-keeps, ParseRun, parse_modelfile-ParseRun,
}
use ollama_remote_control.Modelfile.Parse.Diagnostics.{
  has_error, IsClear, IsClear-before, not-IsClear_error, ErrorsOnly, Reports, Reports-refl,
  Reports-trans, diagnostic-Reports,
}
use ollama_remote_control.Modelfile.Parse.Gate.{
  Usable, has_opaque, ParsingInv, ParsingInv-Adds, parse_line-Adds,
}

end-ParsingInv :
    (raw : Text) {parsed : ParsedModelfile} (run : ParseRun raw parsed) → ParsingInv run.end_state
end-ParsingInv raw run =
    parse_lines-keeps raw (split_physical_lines raw) (λ p rest. ParsingInv p)
      (λ first rest p h room. ParsingInv-Adds p _ (parse_line-Adds raw _ first p rest) room h) _ _ _
      (record {
        nodes_capped = omega arith;
        diagnostics_capped = omega arith;
        flag_is = refl;
        clear_usable = λ c. tt;
        errors_only = λ e. tt;
      })
      run.looped

report_duplicates-Reports :
    (ns : List Node) (ds : List Diagnostic) → Reports ds (report_duplicates ns ds)
unfolding report_duplicates
report_duplicates-Reports [] ds = Reports-refl ds
report_duplicates-Reports (n ∷ ns) ds =
    Reports-trans (diagnostic-Reports ds _ _) (report_duplicates-Reports ns _)

check_from-Reports :
    (lines : List PhysicalLine) (ns : List Node) (ds : List Diagnostic)
    → Reports ds (check_from lines ns ds)
unfolding check_from
check_from-Reports lines [] ds = diagnostic-Reports ds _ _
check_from-Reports lines (n ∷ ns) ds = report_duplicates-Reports ns ds

check_from-clear :
    (lines : List PhysicalLine) (ns : List Node) (ds : List Diagnostic)
    → IsClear (check_from lines ns ds)
    → length ns ≡ 1
unfolding check_from report_duplicates
check_from-clear lines [] ds c = absurd (not-IsClear_error ds _ _ c)
check_from-clear lines (n ∷ []) ds c = omega arith
check_from-clear lines (n ∷ m ∷ ns) ds c =
    absurd (not-IsClear_error ds _ _ (IsClear-before (report_duplicates-Reports ns _).extends c))

-- A file that parses holds no NUL and at most 512 KiB of UTF-8; it has at most 20000 nodes and 256
-- diagnostics, and its opaque flag says whether one of its nodes is opaque.
pub parse_modelfile-bounds :
    (raw : Text) {parsed : ParsedModelfile}
    → parse_modelfile raw ≡ ok parsed
    → (includes_unit 0 raw ≡ false)
      × (utf8_bytes raw ≤ 524288)
      × (length parsed.nodes ≤ 20000)
      × (length parsed.diagnostics ≤ 256)
      × (parsed.has_opaque_syntax ≡ has_opaque parsed.nodes)
parse_modelfile-bounds raw e =
    let run = parse_modelfile-ParseRun raw e in
    let h = end-ParsingInv raw run in
    (
      run.nul_free,
      run.small,
      rw run.finished h.nodes_capped,
      rw run.finished ((check_from-Reports _ _ _).extends.capped h.diagnostics_capped),
      rw run.finished h.flag_is,
    )

-- A file with no error among fewer than 256 diagnostics has exactly one FROM, and each of its
-- known directives has an argument, a value where it needs one, and can be edited in place.
pub parse_modelfile-gate :
    (raw : Text) {parsed : ParsedModelfile}
    → parse_modelfile raw ≡ ok parsed
    → length parsed.diagnostics < 256
    → has_error parsed.diagnostics ≡ false
    → (length (from_nodes parsed.nodes) ≡ 1) × All Usable parsed.nodes
parse_modelfile-gate raw {parsed} e room none_wrong =
    let run = parse_modelfile-ParseRun raw e in
    let h = end-ParsingInv raw run in
    let given : IsClear parsed.diagnostics = (room, none_wrong) in
    let c = rw run.finished at given in
    (
      rw run.finished (check_from-clear _ _ _ c),
      rw run.finished (h.clear_usable (IsClear-before (check_from-Reports _ _ _).extends c)),
    )

no-ErrorsOnly : (ds : List Diagnostic) → ErrorsOnly ds → has_error ds ≡ false → ds ≡ []
no-ErrorsOnly [] h e = refl
no-ErrorsOnly (d ∷ ds) h e = ground arith

-- A file that parses with no error diagnostic and without the opaque flag has no diagnostics at all, exactly
-- one FROM, and usable directives only. The limit of diagnostics plays no part.
pub parse_modelfile-deployable :
    (raw : Text) {parsed : ParsedModelfile}
    → parse_modelfile raw ≡ ok parsed
    → has_error parsed.diagnostics ≡ false
    → parsed.has_opaque_syntax ≡ false
    → (parsed.diagnostics ≡ [])
      × (length (from_nodes parsed.nodes) ≡ 1)
      × (has_opaque parsed.nodes ≡ false)
      × All Usable parsed.nodes
parse_modelfile-deployable raw {parsed} e none_wrong plain =
    let run = parse_modelfile-ParseRun raw e in
    let h = end-ParsingInv raw run in
    let only : ErrorsOnly parsed.diagnostics =
      rw run.finished
        ((check_from-Reports _ _ _).errors_only (h.errors_only (rw run.finished at plain))) in
    let nothing = no-ErrorsOnly parsed.diagnostics only none_wrong in
    let room : length parsed.diagnostics < 256 = rw nothing (omega arith) in
    let (one_from, usable) = parse_modelfile-gate raw e room none_wrong in
    (nothing, one_from, sym (parse_modelfile-bounds raw e).4 ∙ plain, usable)
