-- ===== src/Modelfile/Diff/Bounded.antt =====
-- The prefix and the suffix that `boundedReplacementDiff` takes to be the same are, and they cover the
-- texts exactly where all lines have the same keys.
use native.Mathlib.Decide.{dec_le}
use ollama_remote_control.Prelude.{
  slice_over, nat-cases, get_elem?-inside, ℕ, zero, suc, ◌+◌, ◌-◌, ◌≤◌, ◌<◌, min, ◌≡◌, refl, sym,
  ap, ◌∙◌, inl, inr, Bool, true, ◌&&◌, Bool-cases, List, [], ◌∷◌, arith, length, get_elem?, slice,
  and-left, and-right, text_eq→eq, text_eq_self, length-slice,
}
use ollama_remote_control.Modelfile.Diff.Source.{SourceLine, same_key}
use ollama_remote_control.Modelfile.Diff.Hunks.{prefix_from, suffix_from, is_empty}
use ollama_remote_control.Modelfile.Diff.Split.{keys}

abbrev SameAt : (before after : List SourceLine) → ℕ → ℕ → Type 0
SameAt before after i j = same_key (get_elem? before i) (get_elem? after j) ≡ true

-- The prefix is at least the one found so far, at most what the rounds allow, and all of it is the same.
prefix_from-same :
    (before after : List SourceLine) (rounds k : ℕ)
    → (k ≤ prefix_from before after rounds k)
      × (prefix_from before after rounds k ≤ k + rounds)
      × ((i : ℕ) → k ≤ i → i < prefix_from before after rounds k → SameAt before after i i)
unfolding prefix_from
prefix_from-same before after zero k =
    (omega arith, omega arith, λ i lo hi. absurd (omega (arith, lo, hi)))
prefix_from-same before after (suc rounds) k =
    let rest = prefix_from-same before after rounds (k + 1) in
    elim (Bool-cases (same_key (get_elem? before k) (get_elem? after k))) [
      | inl e ↦ rw e (
        omega (arith, rest.0),
        omega (arith, rest.1),
        λ i lo hi. elim (nat-cases k i lo) [
          | inl here ↦ rw (← here) e
          | inr later ↦ rest.2 i (omega (arith, later)) hi
        ],
      )
      | inr e ↦ rw e (omega arith, omega arith, λ i lo hi. absurd (omega (arith, lo, hi)))
    ]

suffix_from-same :
    (before after : List SourceLine) (rounds k : ℕ)
    → (k ≤ suffix_from before after rounds k)
      × (suffix_from before after rounds k ≤ k + rounds)
      × ((i : ℕ)
          → k ≤ i
          → i < suffix_from before after rounds k
          → SameAt before after (length before - i - 1) (length after - i - 1))
unfolding suffix_from
suffix_from-same before after zero k =
    (omega arith, omega arith, λ i lo hi. absurd (omega (arith, lo, hi)))
suffix_from-same before after (suc rounds) k =
    let rest = suffix_from-same before after rounds (k + 1) in
    elim (Bool-cases (
      same_key (get_elem? before (length before - k - 1))
        (get_elem? after (length after - k - 1)))) [
          | inl e ↦ rw e (
            omega (arith, rest.0),
            omega (arith, rest.1),
            λ i lo hi. elim (nat-cases k i lo) [
              | inl here ↦ rw (← here) e
              | inr later ↦ rest.2 i (omega (arith, later)) hi
            ],
          )
          | inr e ↦ rw e (omega arith, omega arith, λ i lo hi. absurd (omega (arith, lo, hi)))
        ]

keys_of_same :
    (before after : List SourceLine)
    → length before ≡ length after
    → ((i : ℕ) → i < length before → SameAt before after i i)
    → keys before ≡ keys after
unfolding same_key
keys_of_same [] [] sizes same = refl
keys_of_same [] (a ∷ after) sizes same = absurd (omega (arith, sizes))
keys_of_same (b ∷ before) [] sizes same = absurd (omega (arith, sizes))
keys_of_same (b ∷ before) (a ∷ after) sizes same =
    let first = text_eq→eq b.key a.key (same 0 (omega arith)) in
    let rest =
      keys_of_same before after (omega (arith, sizes)) λ i h. same (suc i) (omega (arith, h)) in
    cc (first, rest)

is_empty→length : (lines : List SourceLine) → is_empty lines ≡ true → length lines ≡ 0
is_empty→length [] h = refl
is_empty→length (line ∷ lines) h = absurd (cc h)

covered :
    (lines : List SourceLine) (front back : ℕ)
    → is_empty (slice lines front (length lines - back)) ≡ true
    → front ≤ length lines
    → back ≤ length lines - front
    → length lines ≡ front + back
covered lines front back h inside within =
    let size =
      length-slice lines front (length lines - back) (omega (arith, inside, within))
        (omega arith) in
    omega (arith, size, is_empty→length _ h, inside, within)

module _ (before after : List SourceLine) where
  abbrev pub prefix : ℕ
  prefix = prefix_from before after (min (length before) (length after)) 0

  abbrev pub suffix : ℕ
  suffix = suffix_from before after (min (length before - prefix) (length after - prefix)) 0

  -- No line is left between the prefix and the suffix of either text.
  abbrev pub nothing_between : Bool
  nothing_between =
      is_empty (slice before prefix (length before - suffix))
      && is_empty (slice after prefix (length after - suffix))

  sizes :
      (prefix ≤ length before)
      × (prefix ≤ length after)
      × (suffix ≤ length before - prefix)
      × (suffix ≤ length after - prefix)
  sizes =
      let first = prefix_from-same before after (min (length before) (length after)) 0 in
      let last =
        suffix_from-same before after (min (length before - prefix) (length after - prefix)) 0 in
      omega (arith, first.1, last.1)

  -- Where nothing is between them, the keys of the texts are the same.
  pub nothing_between→keys : nothing_between ≡ true → keys before ≡ keys after
  nothing_between→keys h =
      let first = prefix_from-same before after (min (length before) (length after)) 0 in
      let last =
        suffix_from-same before after (min (length before - prefix) (length after - prefix)) 0 in
      let left = covered before prefix suffix (and-left _ _ h) sizes.0 sizes.2 in
      let right = covered after prefix suffix (and-right _ _ h) sizes.1 sizes.3 in
      keys_of_same before after (omega (arith, left, right)) λ i inside.
        elim (dec_le (suc i) prefix) [
          | yes front ↦ first.2 i (omega arith) front
          | no back ↦
              let k = length before - i - 1 in
              let here : length before - k - 1 ≡ i = omega (arith, inside) in
              let there : length after - k - 1 ≡ i = omega (arith, inside, left, right) in
              let same = last.2 k (omega arith) (omega (arith, inside, back, left)) in
              ap (λ j. same_key (get_elem? before j) (get_elem? after i)) (sym here)
              ∙ ap (λ j. same_key (get_elem? before (length before - k - 1)) (get_elem? after j))
                  (sym there)
              ∙ same
        ]

prefix_from_self :
    (lines : List SourceLine) (rounds k : ℕ)
    → k + rounds ≤ length lines
    → prefix_from lines lines rounds k ≡ k + rounds
unfolding prefix_from same_key
prefix_from_self lines zero k h = omega arith
prefix_from_self lines (suc rounds) k h =
    let (line, e) = get_elem?-inside lines k (omega (arith, h)) in
    rw (e, text_eq_self line.key)
      (omega (arith, prefix_from_self lines rounds (k + 1) (omega (arith, h))))

-- In a text compared with itself nothing is between them.
pub nothing_between_self : (lines : List SourceLine) → nothing_between lines lines ≡ true
nothing_between_self lines =
    let all : prefix lines lines ≡ length lines =
      prefix_from_self lines (min (length lines) (length lines)) 0 (omega arith) ∙ omega arith in
    let gone : slice lines (prefix lines lines) (length lines - suffix lines lines) ≡ [] =
      slice_over lines _ _ (omega (arith, all)) in
    rw gone refl
