-- ===== src/Prelude/Flow.antt =====
-- Results that may be errors, and counted loops.
use Prim.Native.Nat.{ℕ, zero, suc, ◌+◌, ◌≤◌}
use mathlib.Core.Path.{◌≡◌, refl}
use mathlib.Core.Bool.{Bool, true, false}
use native.Mathlib.Omega.{arith}

pub data Result {ℓ} (E : Type ℓ) (A : Type ℓ) : Type ℓ where
  ok : A → Result E A
  err : E → Result E A

infixl 5 ◌>>=◌ ◌>>◌
abbrev pub ◌>>=◌ {ℓ} : {E A B : Type ℓ} → Result E A → (A → Result E B) → Result E B
ok a >>= f = f a
err e >>= f = err e

abbrev pub ◌>>◌ : {E B : Type 0} → Result E (Unit {0}) → Result E B → Result E B
m >> k = m >>= λ _. k

-- `if (!test) throw e`
abbrev pub require {ℓ} : {E : Type ℓ} → Bool → E → Result E (Unit {ℓ})
require true e = ok tt
require false e = err e

pub ok-injective {ℓ} : {E A : Type ℓ} {a b : A} → ◌≡◌ {A = Result E A} (ok a) (ok b) → a ≡ b
ok-injective h = cc

pub bind-eq-ok {ℓ} :
    {E A B : Type ℓ} (first : Result E A) (rest : A → Result E B) {last : B}
    → (first >>= rest) ≡ ok last
    → (x : A) × (first ≡ ok x) × (rest x ≡ ok last)
bind-eq-ok (err e) rest failed = absurd (cc failed)
bind-eq-ok (ok x) rest done = (x, refl, done)

pub require-eq-ok : {E : Type 0} (b : Bool) (e : E) → require b e ≡ ok tt → b ≡ true
require-eq-ok true e h = refl
require-eq-ok false e h = cc

-- `for (index = i; index < i + rounds; index += 1) s = body index s`
unfoldable pub count_up {ℓ} : {S : Type ℓ} → ℕ → ℕ → (ℕ → S → S) → S → S
count_up zero i body s = s
count_up (suc rounds) i body s = count_up rounds (i + 1) body (body i s)

-- An invariant that a round carries from its index to the next one holds behind the last round.
pub count_up-keeps {ℓ κ} :
    {S : Type ℓ} (Inv : ℕ → S → Type κ) (round : ℕ → S → S)
    → ((k : ℕ) (state : S) → Inv k state → Inv (k + 1) (round k state))
    → (left k end : ℕ) (state : S) → k + left ≡ end
    → Inv k state
    → Inv end (count_up left k round state)
unfolding count_up
count_up-keeps Inv round carry (suc left) k end state sum now =
    let next = carry k state now in
    count_up-keeps Inv round carry left (k + 1) end (round k state) (omega arith) next
count_up-keeps Inv round carry zero k end state sum now =
    let over : end ≡ k = omega arith in rw over now

-- `for (index = n - 1; index >= 0; index -= 1) s = body index s`
unfoldable pub count_down {ℓ} : {S : Type ℓ} → ℕ → (ℕ → S → S) → S → S
count_down zero body s = s
count_down (suc n) body s = count_down n body (body n s)

-- An invariant that a round carries from its index on to its index holds at 0.
pub count_down-keeps {ℓ κ} :
    {S : Type ℓ} (Inv : ℕ → S → Type κ) (round : ℕ → S → S) (n : ℕ)
    → ((k : ℕ) (state : S) → suc k ≤ n → Inv (suc k) state → Inv k (round k state))
    → (state : S) → Inv n state
    → Inv 0 (count_down n round state)
unfolding count_down
count_down-keeps Inv round zero carry state now = now
count_down-keeps Inv round (suc n) carry state now =
    count_down-keeps Inv round n (λ k t below inv. carry k t (omega (arith, below)) inv)
      (round n state) (carry n state (omega arith) now)
