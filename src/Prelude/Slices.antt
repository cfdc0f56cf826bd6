-- ===== src/Prelude/Slices.antt =====
-- Slices from an index to the end, and selections of lists.
use Prim.Native.Nat.{ℕ, zero, suc, ◌+◌, ◌-◌, ◌≤◌}
use mathlib.Core.Path.{◌≡◌, refl, sym, ap, ◌∙◌}
use mathlib.Core.Bool.{Bool}
use mathlib.Core.Logic.{inl, inr}
use mathlib.Core.List.{List, [], ◌∷◌, ◌++◌, map}
use native.Mathlib.Omega.{arith}
use ollama_remote_control.Prelude.Lists.{length, take, drop, slice, select, drop-add, length-drop}
use ollama_remote_control.Prelude.Tests.{Bool-cases}

pub select-append {ℓ} :
    {A : Type ℓ} (p : A → Bool) (xs ys : List A) → select p (xs ++ ys) ≡ select p xs ++ select p ys
select-append p [] ys = refl
select-append p (x ∷ xs) ys = elim (Bool-cases (p x)) [
  | inl e ↦ rw (e, select) (ap (◌∷◌ x) (select-append p xs ys))
  | inr e ↦ rw (e, select) (select-append p xs ys)
]

pub nil-left {ℓ} : {A : Type ℓ} (xs ys : List A) → xs ++ ys ≡ [] → xs ≡ []
nil-left [] ys h = refl
nil-left (x ∷ xs) ys h = absurd (cc h)

pub slice_over {ℓ} : {A : Type ℓ} (xs : List A) (a b : ℕ) → b ≤ a → slice xs a b ≡ []
unfolding slice
slice_over xs a b h = let e : b - a ≡ 0 = omega (arith, h) in rw e refl

pub map-append {ℓ} :
    {A B : Type ℓ} (f : A → B) (xs ys : List A) → map f (xs ++ ys) ≡ map f xs ++ map f ys
map-append f [] ys = refl
map-append f (x ∷ xs) ys = ap (◌∷◌ (f x)) (map-append f xs ys)

pub take_enough {ℓ} : {A : Type ℓ} (n : ℕ) (xs : List A) → length xs ≤ n → take n xs ≡ xs
take_enough zero [] h = refl
take_enough zero (x ∷ xs) h = absurd (omega (arith, h))
take_enough (suc n) [] h = refl
take_enough (suc n) (x ∷ xs) h = ap (◌∷◌ x) (take_enough n xs (omega (arith, h)))

pub take-drop {ℓ} : {A : Type ℓ} (n : ℕ) (xs : List A) → take n xs ++ drop n xs ≡ xs
take-drop zero xs = refl
take-drop (suc n) [] = refl
take-drop (suc n) (x ∷ xs) = ap (◌∷◌ x) (take-drop n xs)

pub slice_to_end {ℓ} : {A : Type ℓ} (xs : List A) (a : ℕ) → slice xs a (length xs) ≡ drop a xs
unfolding slice
slice_to_end xs a = take_enough (length xs - a) (drop a xs) (omega (arith, length-drop a xs))

pub drop-slice {ℓ} :
    {A : Type ℓ} (xs : List A) (a b : ℕ) → a ≤ b → drop a xs ≡ slice xs a b ++ drop b xs
unfolding slice
drop-slice xs a b h =
    let e : b ≡ a + (b - a) = omega (arith, h) in
    sym (take-drop (b - a) (drop a xs))
    ∙ ap (λ t. take (b - a) (drop a xs) ++ t)
        (sym (drop-add a (b - a) xs) ∙ ap (λ n. drop n xs) (sym e))
