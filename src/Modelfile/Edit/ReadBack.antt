-- ===== src/Modelfile/Edit/ReadBack.antt =====
-- What `replaceTextArgument` of packages/core/src/modelfile-editor.ts writes into a file, read by
-- `parseTextArgument` again.
use mathlib.Core.Path.{fun_ext, subst}
use ollama_remote_control.Prelude.{
  ◌≡◌, refl, sym, ap, ◌∙◌, ◌⊎◌, inl, inr, true, false, not, ◌||◌, some, ◌++◌, arith, Bool-cases,
  and-left, text_eq, text_eq→eq, find, ok, require, bind-eq-ok, ok-injective, Option, none,
}
use ollama_remote_control.Modelfile.Chars.{Text, includes_unit}
use ollama_remote_control.Modelfile.Source.{
  NodeId, DirectiveNode, Node, node_base, directive, opaque_directive, blank, comment, opaque_text,
  ParsedModelfile,
}
use ollama_remote_control.Modelfile.Parse.{parse_modelfile}
use ollama_remote_control.Modelfile.Parse.Loop.{parse_modelfile-ParseRun}
use ollama_remote_control.Modelfile.Edit.Args.{parse_text_argument}
use ollama_remote_control.Modelfile.Edit.Patch.{
  PatchResult, find_node, same_id, kind_text, text_directive, rebuilt_text, replace_text_argument,
}
use ollama_remote_control.Modelfile.Edit.Local.{
  Replaced, replace_directive_argument-Replaced, find-true,
}
use ollama_remote_control.Modelfile.Edit.RoundTrip.{parse_text_argument-rebuilt}

text_directive-eq-ok :
    (o : Option Node) {d : DirectiveNode} → text_directive o ≡ ok d → o ≡ some (directive d)
unfolding text_directive
text_directive-eq-ok none h = cc
text_directive-eq-ok (some (directive c)) h = ground arith
text_directive-eq-ok (some (blank b)) h = cc
text_directive-eq-ok (some (comment b)) h = cc
text_directive-eq-ok (some (opaque_directive b)) h = cc
text_directive-eq-ok (some (opaque_text b)) h = cc

same_id-congruent : (a b n : NodeId) → same_id a b ≡ true → same_id n a ≡ same_id n b
same_id-congruent a b n h =
    let kind : kind_text a.kind ≡ kind_text b.kind =
      text_eq→eq _ _ (and-left _ _ (and-left _ _ h)) in
    let from : a.from_offset ≡ b.from_offset = ground arith in
    let to : a.to_offset ≡ b.to_offset = ground arith in rw (kind, from, to) refl

-- A node is found by its own id where it is found by another one.
found_by_own_id :
    (parsed : ParsedModelfile) (id : NodeId) (d : DirectiveNode)
    → find_node parsed id ≡ some (directive d)
    → find_node parsed d.base.id ≡ some (directive d)
found_by_own_id parsed id d found =
    let same = find-true (λ n. same_id (node_base n).id id) parsed.nodes found in
    ap (λ p. find p parsed.nodes)
      (fun_ext (λ n. same_id-congruent d.base.id id (node_base n).id same))
    ∙ found

directive-injective :
    (c d : DirectiveNode) → ◌≡◌ {A = Option Node} (some (directive c)) (some (directive d)) → c ≡ d
directive-injective c d h = cc

written_argument :
    (a value : Text)
    → let current = parse_text_argument a in
      let quoted = current.triple_quoted || includes_unit 10 value || includes_unit 13 value in
      ((quoted ≡ true)
        × (parse_text_argument (rebuilt_text current value)
            ≡ record current { value = value; triple_quoted = true }))
      ⊎ ((quoted ≡ false)
          × (rebuilt_text current value
              ≡ current.leading_whitespace ++ (value ++ current.trailing_whitespace)))
unfolding rebuilt_text
written_argument a value =
    let current = parse_text_argument a in
    elim (Bool-cases (current.triple_quoted || includes_unit 10 value || includes_unit 13 value)) [
      | inl quoted ↦ inl (quoted, parse_text_argument-rebuilt a value quoted)
      | inr plain ↦ inr (plain, rw plain refl)
    ]

-- A successful `replaceTextArgument` on a parsed text has found the named directive. Either the value of its
-- argument is the new one already and the text stays as it was, or the argument is replaced and nothing outside
-- it. Where the old argument stood between triple quotes, or the new value has a line break,
-- `parseTextArgument` reads the new value from the argument that is written, with the old white space around
-- it; otherwise the value is written between that white space.
pub replace_text_argument-reads_back :
    (raw value : Text) (id : NodeId) {parsed : ParsedModelfile} {r : PatchResult}
    → parse_modelfile raw ≡ ok parsed
    → replace_text_argument parsed id value ≡ ok r
    → (d : DirectiveNode) × (find_node parsed id ≡ some (directive d))
      × (let current = parse_text_argument d.argument in
          let quoted = current.triple_quoted || includes_unit 10 value || includes_unit 13 value in
          ((current.value ≡ value) × (r.raw ≡ raw))
          ⊎ ((written : Text) × Replaced raw parsed d.base.id written r d
              × (((quoted ≡ true)
                    × (parse_text_argument written
                        ≡ record current { value = value; triple_quoted = true }))
                  ⊎ ((quoted ≡ false)
                      × (written
                          ≡ current.leading_whitespace
                            ++ (value ++ current.trailing_whitespace))))))
unfolding replace_text_argument
replace_text_argument-reads_back raw value id {parsed} e h =
    let (_, _, h₁) = bind-eq-ok (require (not (includes_unit 0 value)) _) _ h in
    let (d, chosen, h₂) = bind-eq-ok (text_directive (find_node parsed id)) _ h₁ in
    let found = text_directive-eq-ok (find_node parsed id) chosen in
    let here : parsed.raw ≡ raw =
      ap (λ (x : ParsedModelfile). x.raw) (parse_modelfile-ParseRun raw e).finished in
    let current = parse_text_argument d.argument in
    (
      d,
      found,
      elim (Bool-cases (text_eq current.value value)) [
        | inl same ↦
            let kept = ok-injective (rw same at h₂) in
            inl (text_eq→eq current.value value same, rw (← kept) here)
        | inr changed ↦
            let (c, replaced) =
              replace_directive_argument-Replaced raw (rebuilt_text current value) d.base.id e
                (rw changed at h₂) in
            let c_is : c ≡ d =
              directive-injective c d (sym replaced.found ∙ found_by_own_id parsed id d found) in
            inr (
              rebuilt_text current value,
              subst (Replaced raw parsed d.base.id (rebuilt_text current value) _) c_is replaced,
              written_argument d.argument value,
            )
      ],
    )
