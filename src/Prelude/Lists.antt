-- ===== src/Prelude/Lists.antt =====
-- Lists measured, cut and searched by native numbers, under the library's names.
use Prim.Native.Nat.{ℕ, zero, suc, ◌+◌, ◌-◌, ◌≤◌, ◌<◌, min}
use mathlib.Core.Path.{◌≡◌, refl, ap, ◌∙◌}
use mathlib.Core.Bool.{Bool, true, false, ◌||◌}
use mathlib.Core.Option.{Option, none, some}
use mathlib.Core.List.{List, [], ◌∷◌, ◌++◌}
use native.Mathlib.Omega.{arith}

module _ {ℓ} {A : Type ℓ} where
  abbrev pub length : List A → ℕ
  length [] = 0
  length (x ∷ xs) = suc (length xs)

  abbrev pub get_elem? : List A → ℕ → Option A
  get_elem? [] i = none
  get_elem? (x ∷ xs) zero = some x
  get_elem? (x ∷ xs) (suc i) = get_elem? xs i

  abbrev pub take : ℕ → List A → List A
  take zero xs = []
  take (suc n) [] = []
  take (suc n) (x ∷ xs) = x ∷ take n xs

  abbrev pub drop : ℕ → List A → List A
  drop zero xs = xs
  drop (suc n) [] = []
  drop (suc n) (x ∷ xs) = drop n xs

  -- `value.slice(start, end)` for `start` and `end` that are not negative.
  unfoldable pub slice : List A → ℕ → ℕ → List A
  slice xs start end = take (end - start) (drop start xs)

  pub length-append : (xs ys : List A) → length (xs ++ ys) ≡ length xs + length ys
  length-append [] ys = omega arith
  length-append (x ∷ xs) ys = omega (arith, length-append xs ys)

  pub length-take : (n : ℕ) (xs : List A) → length (take n xs) ≡ min n (length xs)
  length-take zero xs = omega arith
  length-take (suc n) [] = omega arith
  length-take (suc n) (x ∷ xs) = omega (arith, length-take n xs)

  pub length-drop : (n : ℕ) (xs : List A) → length (drop n xs) ≡ length xs - n
  length-drop zero xs = omega arith
  length-drop (suc n) [] = omega arith
  length-drop (suc n) (x ∷ xs) = omega (arith, length-drop n xs)

  pub take_all : (xs : List A) → take (length xs) xs ≡ xs
  take_all [] = refl
  take_all (x ∷ xs) = rw (take_all xs)

  -- A cut at `b` of the first `b + c` elements.
  pub take-add : (b c : ℕ) (xs : List A) → take (b + c) xs ≡ take b xs ++ take c (drop b xs)
  take-add zero c xs = let e : 0 + c ≡ c = omega arith in rw e
  take-add (suc b) zero [] = let e : suc b + 0 ≡ suc b = omega arith in rw e
  take-add (suc b) (suc c) [] = let e : suc b + suc c ≡ suc (b + suc c) = omega arith in rw e
  take-add (suc b) c (x ∷ xs) =
      let e : suc b + c ≡ suc (b + c) = omega arith in rw e (ap (◌∷◌ x) (take-add b c xs))

  pub drop-add : (a b : ℕ) (xs : List A) → drop (a + b) xs ≡ drop b (drop a xs)
  drop-add zero b xs = let e : 0 + b ≡ b = omega arith in rw e
  drop-add (suc a) zero [] = let e : suc a + 0 ≡ suc a = omega arith in rw e
  drop-add (suc a) (suc b) [] = let e : suc a + suc b ≡ suc (a + suc b) = omega arith in rw e
  drop-add (suc a) b (x ∷ xs) =
      let e : suc a + b ≡ suc (a + b) = omega arith in rw e (drop-add a b xs)

module _ {ℓ} {A : Type ℓ} where
  -- Two slices that meet make one.
  pub slice-append :
      (xs : List A) (a b c : ℕ) → a ≤ b → b ≤ c → slice xs a b ++ slice xs b c ≡ slice xs a c
  unfolding slice
  slice-append xs a b c p q =
      let e : c - a ≡ (b - a) + (c - b) = omega arith in
      let d : b ≡ a + (b - a) = omega arith in
      rw e (
        rw (take-add (b - a) (c - b) (drop a xs)) (
          ap (λ t. take (b - a) (drop a xs) ++ take (c - b) t)
            (ap (λ n. drop n xs) d ∙ drop-add a (b - a) xs)))

  pub slice_nil : (xs : List A) (a : ℕ) → slice xs a a ≡ []
  unfolding slice
  slice_nil xs a = let e : a - a ≡ 0 = omega arith in rw e

  pub slice_all : (xs : List A) → slice xs 0 (length xs) ≡ xs
  unfolding slice
  slice_all xs = let e : length xs - 0 ≡ length xs = omega arith in rw e (take_all xs)

  take_prefix : (xs ys : List A) → take (length xs) (xs ++ ys) ≡ xs
  take_prefix [] ys = refl
  take_prefix (x ∷ xs) ys = ap (◌∷◌ x) (take_prefix xs ys)

  drop_prefix : (xs ys : List A) → drop (length xs) (xs ++ ys) ≡ ys
  drop_prefix [] ys = refl
  drop_prefix (x ∷ xs) ys = drop_prefix xs ys

  pub slice_prefix : (xs ys : List A) → slice (xs ++ ys) 0 (length xs) ≡ xs
  unfolding slice
  slice_prefix xs ys = let e : length xs - 0 ≡ length xs = omega arith in rw e (take_prefix xs ys)

  pub slice_suffix : (xs ys : List A) → slice (xs ++ ys) (length xs) (length (xs ++ ys)) ≡ ys
  unfolding slice
  slice_suffix xs ys =
      let e : length (xs ++ ys) - length xs ≡ length ys = omega (arith, length-append xs ys) in
      rw (e, drop_prefix xs ys) (take_all ys)

  pub length-slice : (xs : List A) (a b : ℕ) → a ≤ b → b ≤ length xs → length (slice xs a b) ≡ b - a
  unfolding slice
  length-slice xs a b p q = omega (arith, length-take (b - a) (drop a xs), length-drop a xs)

module _ {ℓ} {A : Type ℓ} where
  -- `values.some(test)`, `values.filter(test)` and `values.find(test)`.
  unfoldable pub any : (A → Bool) → List A → Bool
  any p [] = false
  any p (x ∷ xs) = p x || any p xs

  abbrev pub select : (A → Bool) → List A → List A
  select p [] = []
  select p (x ∷ xs) = elim (p x) [ true ↦ x ∷ select p xs | false ↦ select p xs ]

  abbrev pub find : (A → Bool) → List A → Option A
  find p [] = none
  find p (x ∷ xs) = elim (p x) [ true ↦ some x | false ↦ find p xs ]

  abbrev pub take_while : (A → Bool) → List A → List A
  take_while p [] = []
  take_while p (x ∷ xs) = elim (p x) [ true ↦ x ∷ take_while p xs | false ↦ [] ]

  abbrev pub drop_while : (A → Bool) → List A → List A
  drop_while p [] = []
  drop_while p (x ∷ xs) = elim (p x) [ true ↦ drop_while p xs | false ↦ x ∷ xs ]

module _ {ℓ} {A : Type ℓ} where
  pub length-take_while :
      (p : A → Bool) (xs : List A) → length (take_while p xs) + length (drop_while p xs) ≡ length xs
  length-take_while p [] = omega arith
  length-take_while p (x ∷ xs) = ground (arith, length-take_while p xs)

abbrev pub All {ℓ κ} : {A : Type ℓ} → (A → Type κ) → List A → Type κ
All Holds (first ∷ rest) = Holds first × All Holds rest
All Holds [] = Unit

pub All-append {ℓ κ} :
    {A : Type ℓ} (Holds : A → Type κ) (front back : List A)
    → All Holds front
    → All Holds back
    → All Holds (front ++ back)
All-append Holds (x ∷ front) back h later =
    let rest = All-append Holds front back h.1 later in (h.0, rest)
All-append Holds [] back h later = later

-- What an index finds, and what is left from there on.
pub drop-some {ℓ} :
    {A : Type ℓ} (xs : List A) (i : ℕ) {x : A}
    → get_elem? xs i ≡ some x
    → drop i xs ≡ x ∷ drop (i + 1) xs
drop-some [] i h = absurd (cc h)
drop-some (x ∷ xs) zero h = cc
drop-some (x ∷ xs) (suc i) h =
    let e : suc i + 1 ≡ suc (i + 1) = omega arith in rw e (drop-some xs i h)

pub drop-none {ℓ} : {A : Type ℓ} (xs : List A) (i : ℕ) → get_elem? xs i ≡ none → drop i xs ≡ []
drop-none [] zero h = refl
drop-none [] (suc i) h = refl
drop-none (x ∷ xs) zero h = absurd (cc h)
drop-none (x ∷ xs) (suc i) h = drop-none xs i h

pub get_elem?-none {ℓ} : {A : Type ℓ} (xs : List A) (i : ℕ) → length xs ≤ i → get_elem? xs i ≡ none
get_elem?-none [] i h = refl
get_elem?-none (x ∷ xs) zero h = absurd (omega (arith, h))
get_elem?-none (x ∷ xs) (suc i) h = get_elem?-none xs i (omega (arith, h))

pub get_elem?-some {ℓ} :
    {A : Type ℓ} (xs : List A) (i : ℕ) {x : A} → get_elem? xs i ≡ some x → i < length xs
get_elem?-some [] i h = absurd (cc h)
get_elem?-some (x ∷ xs) zero h = omega arith
get_elem?-some (x ∷ xs) (suc i) h = omega (arith, get_elem?-some xs i h)

pub drop-all {ℓ} : {A : Type ℓ} (xs : List A) (i : ℕ) → length xs ≤ i → drop i xs ≡ []
drop-all [] zero h = refl
drop-all [] (suc i) h = refl
drop-all (x ∷ xs) zero h = absurd (omega (arith, h))
drop-all (x ∷ xs) (suc i) h = drop-all xs i (omega (arith, h))

pub get_elem?-inside {ℓ} :
    {A : Type ℓ} (xs : List A) (i : ℕ) → i < length xs → (x : A) × (get_elem? xs i ≡ some x)
get_elem?-inside [] i h = absurd (omega (arith, h))
get_elem?-inside (x ∷ xs) zero h = (x, refl)
get_elem?-inside (x ∷ xs) (suc i) h = get_elem?-inside xs i (omega (arith, h))
