-- ===== src/Update/Execute/Binding.antt =====
-- What the target is bound to when `execute` (apps/api/src/update-orchestrator.ts) has ended.
use mathlib.Core.Option.{some_inj}
use ollama_remote_control.Prelude.{
  ◌≡◌, refl, sym, ap, ◌∙◌, inl, inr, Bool, true, false, not, ◌||◌, Option, none, some, List, [],
  ◌∷◌, arith, text_eq, text_eq→eq, text_eq_self, any, find, Bool-cases, if◌then◌else◌, ◌==◌,
}
use ollama_remote_control.Modelfile.Chars.{Text, is_empty}
use ollama_remote_control.Update.Effects.{World, pure, StoredTarget}
use ollama_remote_control.Update.Stores.{
  Supply, Thrown, rebind_container, swap_binding, find_target, is_bound, bind_to, count_bound,
  distinct_containers, update_bindings,
}
use ollama_remote_control.Update.Triples.{
  Triple, bind, Triple-if, Triple-gets, Triple-pure, Triple-throw, Triple-modify,
}
use ollama_remote_control.Update.Orchestrator.{
  RemoteOperations, PreparedUpdate, rebind_known, rebind_current,
}

-- The target is bound to the container `c`.
abbrev pub BoundTo : {R : Type 0} → Text → Text → World R → Type 0
BoundTo target c w =
    (t : StoredTarget) × (find_target target w.targets ≡ some t) × (t.selected_container_id ≡ c)

find-update_bindings :
    (target expected next now : Text) (ts : List StoredTarget)
    → find_target target (update_bindings target expected next now ts)
      ≡ elim (find_target target ts) [
        | some t ↦ some (if is_bound target expected t then bind_to next now t else t)
        | none ↦ none
      ]
unfolding update_bindings
find-update_bindings target expected next now [] = refl
find-update_bindings target expected next now (u ∷ us) =
    ground (arith, find-update_bindings target expected next now us)

find_target-id :
    (target : Text) (ts : List StoredTarget) (t : StoredTarget)
    → find_target target ts ≡ some t
    → text_eq t.id target ≡ true
find_target-id target [] t h = cc
find_target-id target (u ∷ us) t h = elim (Bool-cases (text_eq u.id target)) [
  | inl own ↦
      let same : some u ≡ some t = rw (own, find) at h in
      ap (λ k. text_eq k.id target) (sym (some_inj.0 same)) ∙ own
  | inr other ↦ find_target-id target us t (rw (other, find) at h)
]

module _ {R : Type 0} where
  -- What an action that answers a test has done, where it answers `true`.
  abbrev pub Binds : Text → Text → Bool → World R → Type 0
  Binds target next done w = done ≡ true → BoundTo target next w

  abbrev pub Anything : Thrown → World R → Type 0
  Anything e w = Unit {0}

  refused :
      {P : World R → Type 0} (target next : Text)
      → Triple P (pure false) (Binds target next) Anything
  refused target next = Triple-pure false (λ w h e. absurd (cc e))

  module _ (target next : Text) (t : StoredTarget) where
    abbrev Found : World R → Type 0
    Found w = find_target target w.targets ≡ some t

    bound_rows :
        (expected now : Text) (ts : List StoredTarget) (v : World R)
        → t.selected_container_id ≡ expected
        → find_target target ts ≡ some t
        → BoundTo target next (record v { targets = update_bindings target expected next now ts })
    bound_rows expected now ts v at found =
        let selected : text_eq t.selected_container_id expected ≡ true =
          rw at (text_eq_self expected) in
        (
          bind_to next now t,
          find-update_bindings target expected next now ts
              ∙ rw (found, find_target-id target ts t found, selected) refl,
          refl,
        )

    -- The compare-and-swap binds the target, if it answers that it has.
    swap_binding-BoundTo :
        (expected now : Text)
        → t.selected_container_id ≡ expected
        → Triple Found (swap_binding target expected next now) (Binds target next) Anything
    unfolding swap_binding
    swap_binding-BoundTo expected now at =
        bind {Q = λ ts _. find_target target ts ≡ some t} (Triple-gets _ (λ w h. h)) λ ts.
          Triple-if (not (distinct_containers (update_bindings target expected next now ts))) _ _
            (λ _. refused target next)
            λ _.
              Triple-if (not (count_bound target expected ts == 1)) _ _ (λ _. refused target next)
                λ _.
                  bind (Triple-modify _ (λ v h. bound_rows expected now ts v at h))
                    λ _. Triple-pure true (λ v h _. h)

    rebind_container-BoundTo :
        (now : Text)
        → Triple Found
            (rebind_container target t.selected_container_id next now)
            (Binds target next)
            Anything
    unfolding rebind_container
    rebind_container-BoundTo now =
        Triple-if
          (is_empty target || is_empty t.selected_container_id || is_empty next || is_empty now) _ _
          (λ _. Triple-throw _ (λ w h. tt))
          λ _.
            Triple-if (text_eq t.selected_container_id next) _ _ (λ _. refused target next)
              λ _. swap_binding-BoundTo t.selected_container_id now refl

  module _ (s : Supply) (remote : RemoteOperations R) (p : PreparedUpdate) (actor : Text) where
    rebind_current-BoundTo :
        (allowed : List Text) (next : Text) (t : StoredTarget)
        → Triple
            (Found p.target_id next t)
            (rebind_current s remote p actor allowed next (some t))
            (Binds p.target_id next)
            Anything
    rebind_current-BoundTo allowed next t =
        Triple-if (not t.enabled) _ _ (λ _. refused p.target_id next)
          λ _.
            Triple-if (text_eq t.selected_container_id next) _ _
              (λ same.
                Triple-pure true (λ w h _. (t, h, text_eq→eq t.selected_container_id next same)))
              λ _.
                Triple-if (not (any (text_eq t.selected_container_id) allowed)) _ _
                  (λ _. refused p.target_id next)
                  λ _.
                    bind (Triple-gets _ (λ w h. h))
                      λ now. rebind_container-BoundTo p.target_id next t now

    -- `rebindKnown` answers `true` only where the target is bound to the container.
    pub rebind_known-BoundTo :
        (allowed : List Text) (next : Text)
        → Triple
            (λ _. Unit {0})
            (rebind_known s remote p actor allowed next)
            (Binds p.target_id next)
            Anything
    unfolding rebind_known
    rebind_known-BoundTo allowed next =
        bind {Q = λ o w. find_target p.target_id w.targets ≡ o} (Triple-gets _ (λ w h. refl)) go
      where
        go :
            (o : Option StoredTarget)
            → Triple
                (λ w. find_target p.target_id w.targets ≡ o)
                (rebind_current s remote p actor allowed next o)
                (Binds p.target_id next)
                Anything
        go none = refused p.target_id next
        go (some t) = rebind_current-BoundTo allowed next t
