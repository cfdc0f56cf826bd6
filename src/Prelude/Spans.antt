-- ===== src/Prelude/Spans.antt =====
-- Splitting a list where a test first fails, from the front and from the back.
use Prim.Native.Nat.{◌≤◌}
use mathlib.Core.Path.{◌≡◌, refl, sym, ap, ◌∙◌}
use mathlib.Core.Bool.{Bool, true, false}
use mathlib.Core.Logic.{inl, inr}
use mathlib.Core.List.{
  List, [], ◌∷◌, ◌++◌, reverse, append-nil, append_assoc, reverse-append, reverse-cons,
  reverse-reverse,
}
use native.Mathlib.Omega.{arith}
use ollama_remote_control.Prelude.Lists.{
  length, length-append, take_while, drop_while, All, All-append,
}
use ollama_remote_control.Prelude.Tests.{Bool-cases}

module _ {ℓ} {A : Type ℓ} where
  -- The longest suffix that passes the test, and what stands before it.
  unfoldable pub suffix_while : (A → Bool) → List A → List A
  suffix_while p s = reverse (take_while p (reverse s))

  unfoldable pub before_suffix : (A → Bool) → List A → List A
  before_suffix p s = reverse (drop_while p (reverse s))

  pub take_while-append-drop_while :
      (p : A → Bool) (xs : List A) → take_while p xs ++ drop_while p xs ≡ xs
  take_while-append-drop_while p [] = refl
  take_while-append-drop_while p (x ∷ xs) = ground (arith, take_while-append-drop_while p xs)

  pub before_suffix-append-suffix_while :
      (p : A → Bool) (xs : List A) → before_suffix p xs ++ suffix_while p xs ≡ xs
  unfolding before_suffix suffix_while
  before_suffix-append-suffix_while p xs =
      sym (reverse-append (take_while p (reverse xs)) (drop_while p (reverse xs)))
      ∙ ap reverse (take_while-append-drop_while p (reverse xs))
      ∙ reverse-reverse xs

  pub take_while-All : (p : A → Bool) (xs : List A) → All (λ x. p x ≡ true) (take_while p xs)
  take_while-All p [] = tt
  take_while-All p (x ∷ xs) = elim (Bool-cases (p x)) [
    | inl e ↦ rw (e, take_while) (e, take_while-All p xs)
    | inr e ↦ rw (e, take_while) tt
  ]

  pub All-reverse {κ} : (P : A → Type κ) (xs : List A) → All P xs → All P (reverse xs)
  All-reverse P [] h = tt
  All-reverse P (x ∷ xs) h =
      rw (reverse-cons x xs) (All-append P (reverse xs) (x ∷ []) (All-reverse P xs h.1) (h.0, tt))

  pub drop_while-stops :
      (p : A → Bool) (xs : List A) (y : A) (ys : List A)
      → All (λ x. p x ≡ true) xs
      → p y ≡ false
      → drop_while p (xs ++ y ∷ ys) ≡ y ∷ ys
  drop_while-stops p [] y ys h e = ground arith
  drop_while-stops p (x ∷ xs) y ys h e = ground (arith, drop_while-stops p xs y ys h.1)

  pub take_while-stops :
      (p : A → Bool) (xs : List A) (y : A) (ys : List A)
      → All (λ x. p x ≡ true) xs
      → p y ≡ false
      → take_while p (xs ++ y ∷ ys) ≡ xs
  take_while-stops p [] y ys h e = ground arith
  take_while-stops p (x ∷ xs) y ys h e = ground (arith, take_while-stops p xs y ys h.1)

  pub length-take_while_le :
      (p : A → Bool) (xs : List A) (y : A) (ys : List A)
      → p y ≡ false
      → length (take_while p (xs ++ y ∷ ys)) ≤ length xs
  length-take_while_le p [] y ys e = ground arith
  length-take_while_le p (x ∷ xs) y ys e = ground (arith, length-take_while_le p xs y ys e)

  pub length-reverse : (xs : List A) → length (reverse xs) ≡ length xs
  length-reverse [] = refl
  length-reverse (x ∷ xs) =
      rw (reverse-cons x xs) (omega (arith, length-append (reverse xs) (x ∷ []), length-reverse xs))

module _ {ℓ} {A : Type ℓ} where
  pub suffix_while-All : (p : A → Bool) (xs : List A) → All (λ x. p x ≡ true) (suffix_while p xs)
  unfolding suffix_while
  suffix_while-All p xs = All-reverse _ _ (take_while-All p (reverse xs))

  reverse-snoc-append :
      (xs : List A) (y : A) (ys : List A) → reverse (xs ++ y ∷ ys) ≡ reverse ys ++ y ∷ reverse xs
  reverse-snoc-append xs y ys =
      reverse-append xs (y ∷ ys)
      ∙ rw (reverse-cons y ys) (append_assoc (reverse ys) (y ∷ []) (reverse xs))

  -- A suffix that passes the test behind an element that does not.
  pub before_suffix-stops :
      (p : A → Bool) (xs : List A) (y : A) (ys : List A)
      → p y ≡ false
      → All (λ x. p x ≡ true) ys
      → before_suffix p (xs ++ y ∷ ys) ≡ xs ++ y ∷ []
  unfolding before_suffix
  before_suffix-stops p xs y ys e h = rw (reverse-snoc-append xs y ys) (
      rw (drop_while-stops p (reverse ys) y (reverse xs) (All-reverse _ ys h) e)
        (reverse-cons y (reverse xs) ∙ rw (reverse-reverse xs)))

  pub suffix_while-stops :
      (p : A → Bool) (xs : List A) (y : A) (ys : List A)
      → p y ≡ false
      → All (λ x. p x ≡ true) ys
      → suffix_while p (xs ++ y ∷ ys) ≡ ys
  unfolding suffix_while
  suffix_while-stops p xs y ys e h = rw (reverse-snoc-append xs y ys) (
      rw (take_while-stops p (reverse ys) y (reverse xs) (All-reverse _ ys h) e)
        (reverse-reverse ys))

  pub length-suffix_while_le :
      (p : A → Bool) (xs : List A) (y : A) (ys : List A)
      → p y ≡ false
      → length (suffix_while p (xs ++ y ∷ ys)) ≤ length ys
  unfolding suffix_while
  length-suffix_while_le p xs y ys e = rw (reverse-snoc-append xs y ys) (
      omega (
        arith,
        length-reverse (take_while p (reverse ys ++ y ∷ reverse xs)),
        length-take_while_le p (reverse ys) y (reverse xs) e,
        length-reverse ys,
      ))

  pub drop_while-head :
      (p : A → Bool) (xs : List A) {y : A} {ys : List A} → drop_while p xs ≡ y ∷ ys → p y ≡ false
  drop_while-head p [] h = cc
  drop_while-head p (x ∷ xs) {y} h = elim (Bool-cases (p x)) [
    | inl e ↦ drop_while-head p xs (rw (e, drop_while) at h)
    | inr e ↦ let same : x ≡ y = cc (rw (e, drop_while) at h) in rw (← same) e
  ]

  pub take_while_of_All :
      (p : A → Bool) (xs : List A) → All (λ x. p x ≡ true) xs → take_while p xs ≡ xs
  take_while_of_All p [] h = refl
  take_while_of_All p (x ∷ xs) h = ground (arith, take_while_of_All p xs h.1)

  pub suffix_while_of_All :
      (p : A → Bool) (xs : List A) → All (λ x. p x ≡ true) xs → suffix_while p xs ≡ xs
  unfolding suffix_while
  suffix_while_of_All p xs h =
      rw (take_while_of_All p (reverse xs) (All-reverse _ xs h)) (reverse-reverse xs)

  pub take_while_of_drop_while :
      (p : A → Bool) (xs : List A) → drop_while p xs ≡ [] → take_while p xs ≡ xs
  take_while_of_drop_while p xs h =
      sym (append-nil (take_while p xs))
      ∙ ap (λ (x : List A). take_while p xs ++ x) (sym h)
      ∙ take_while-append-drop_while p xs
