-- ===== src/Update/Triples.antt =====
-- Conditions before and after an action, on both of its endings, with a rule for each combinator.
use ollama_remote_control.Prelude.{Bool, true, false, ◌≡◌, refl, if◌then◌else◌}
use ollama_remote_control.Update.Effects.{
  World, Outcome, returned, thrown, Action, pure, throw, gets, modify, ◌>>=◌, catch, quietly,
  with_progress, assert, continue, recover_from,
}

-- `Q` holds of a value that is returned, and `X` of an error that is thrown.
abbrev pub Meets :
    {R E A : Type 0}
    → (A → World R → Type 0)
    → (E → World R → Type 0)
    → Outcome E A × World R
    → Type 0
Meets Q X (returned a, w) = Q a w
Meets Q X (thrown e, w) = X e w

pub record Triple {R E A : Type 0} (P : World R → Type 0) (m : Action R E A)
    (Q : A → World R → Type 0) (X : E → World R → Type 0) : Type 0 where
  pub at : (w : World R) → P w → Meets Q X (m w)

-- `m` keeps `K`, whichever way it ends.
abbrev pub Keeps : {R E A : Type 0} → (World R → Type 0) → Action R E A → Type 0
Keeps K m = Triple K m (λ _. K) (λ _. K)

module _ {R E A : Type 0} {P : World R → Type 0} {Q : A → World R → Type 0}
    {X : E → World R → Type 0} where
  pub Triple-pure : (a : A) → ((w : World R) → P w → Q a w) → Triple P (pure a) Q X
  unfolding pure
  Triple-pure a h = record { at = h }

  pub Triple-throw : (e : E) → ((w : World R) → P w → X e w) → Triple P (throw e) Q X
  unfolding throw
  Triple-throw e h = record { at = h }

  pub Triple-gets : (f : World R → A) → ((w : World R) → P w → Q (f w) w) → Triple P (gets f) Q X
  unfolding gets
  Triple-gets f h = record { at = h }

  pub Triple-if :
      (b : Bool) (m n : Action R E A)
      → (b ≡ true → Triple P m Q X)
      → (b ≡ false → Triple P n Q X)
      → Triple P (if b then m else n) Q X
  Triple-if true m n on_true on_false = on_true refl
  Triple-if false m n on_true on_false = on_false refl

  pub weaken :
      {P' : World R → Type 0} {Q' : A → World R → Type 0} {X' : E → World R → Type 0}
      {m : Action R E A}
      → Triple P m Q X
      → ((w : World R) → P' w → P w)
      → ((a : A) (w : World R) → Q a w → Q' a w)
      → ((e : E) (w : World R) → X e w → X' e w)
      → Triple P' m Q' X'
  weaken {Q'} {X'} {m} t before on_value on_error = record {
    at = λ w h. go (m w) (t.at w (before w h));
  }
    where
      go : (r : Outcome E A × World R) → Meets Q X r → Meets Q' X' r
      go (returned a, v) k = on_value a v k
      go (thrown e, v) k = on_error e v k

pub Triple-modify :
    {R E : Type 0} {P : World R → Type 0} {Q : Unit {0} → World R → Type 0}
    {X : E → World R → Type 0} (f : World R → World R)
    → ((w : World R) → P w → Q tt (f w))
    → Triple P (modify f) Q X
unfolding modify
Triple-modify f h = record { at = h }

-- Every action, where nothing is asked of it.
pub Triple-trivial :
    {R E A : Type 0} {P : World R → Type 0} (m : Action R E A)
    → Triple P m (λ _ _. Unit {0}) (λ _ _. Unit {0})
Triple-trivial {R} {E} {A} m = record { at = λ w h. go (m w) }
  where
    go : (r : Outcome E A × World R) → Meets (λ _ _. Unit {0}) (λ _ _. Unit {0}) r
    go (returned a, v) = tt
    go (thrown e, v) = tt

-- What a check lets through.
pub Triple-assert :
    {R E : Type 0} {P K : World R → Type 0} {X : E → World R → Type 0} (b : Bool) (e : E)
    → ((w : World R) → P w → b ≡ true → K w)
    → ((w : World R) → P w → X e w)
    → Triple P (assert b e) (λ _. K) X
unfolding assert
Triple-assert true e on_true on_false = Triple-pure tt (λ w h. on_true w h refl)
Triple-assert false e on_true on_false = Triple-throw e on_false

-- A part of the precondition that is not about the world.
pub Triple-given :
    {R E A C : Type 0} {P : World R → Type 0} {Q : A → World R → Type 0} {X : E → World R → Type 0}
    {m : Action R E A}
    → (C → Triple P m Q X)
    → Triple (λ w. C × P w) m Q X
Triple-given t = record { at = λ w h. (t h.0).at w h.1 }

module _ {R E A B : Type 0} {P : World R → Type 0} {Q : A → World R → Type 0}
    {Q' : B → World R → Type 0} {X : E → World R → Type 0} where
  pub bind :
      {m : Action R E A} {f : A → Action R E B}
      → Triple P m Q X
      → ((a : A) → Triple (Q a) (f a) Q' X)
      → Triple P (m >>= f) Q' X
  unfolding ◌>>=◌
  bind {m} {f} first next = record { at = λ w h. go (m w) (first.at w h) }
    where
      go : (r : Outcome E A × World R) → Meets Q X r → Meets Q' X (continue f r)
      go (returned a, v) k = (next a).at v k
      go (thrown e, v) k = k

module _ {R E F A : Type 0} {P : World R → Type 0} {Q : A → World R → Type 0}
    {X : E → World R → Type 0} {Y : F → World R → Type 0} where
  pub Triple-catch :
      {m : Action R E A} {handler : E → Action R F A}
      → Triple P m Q X
      → ((e : E) → Triple (X e) (handler e) Q Y)
      → Triple P (catch m handler) Q Y
  unfolding catch
  Triple-catch {m} {handler} first next = record { at = λ w h. go (m w) (first.at w h) }
    where
      go : (r : Outcome E A × World R) → Meets Q X r → Meets Q Y (recover_from handler r)
      go (returned a, v) k = k
      go (thrown e, v) k = (next e).at v k

module _ {R E A V : Type 0} {P : World R → Type 0} {Q : A → World R → Type 0}
    {X : E × V → World R → Type 0} where
  pub Triple-with_progress :
      {m : Action R E A} (v : V) → Triple P m Q (λ e. X (e, v)) → Triple P (with_progress v m) Q X
  unfolding with_progress
  Triple-with_progress v t = Triple-catch t (λ e. Triple-throw (e, v) (λ w h. h))

module _ {R : Type 0} {K : World R → Type 0} where
  pub Keeps-assert : {E : Type 0} (b : Bool) (e : E) → Keeps K (assert b e)
  unfolding assert
  Keeps-assert true e = Triple-pure tt (λ w h. h)
  Keeps-assert false e = Triple-throw e (λ w h. h)

  pub Keeps-pure : {E A : Type 0} (a : A) → Keeps {E = E} K (pure a)
  Keeps-pure a = Triple-pure a (λ w h. h)

  pub Keeps-throw : {E A : Type 0} (e : E) → Keeps {A = A} K (throw e)
  Keeps-throw e = Triple-throw e (λ w h. h)

  pub Keeps-gets : {E A : Type 0} (f : World R → A) → Keeps {E = E} K (gets f)
  Keeps-gets f = Triple-gets f (λ w h. h)

  pub Keeps-modify :
      {E : Type 0} (f : World R → World R)
      → ((w : World R) → K w → K (f w))
      → Keeps {E = E} K (modify f)
  unfolding modify
  Keeps-modify f h = record { at = h }

  pub Keeps-bind :
      {E A B : Type 0} {m : Action R E A} {f : A → Action R E B}
      → Keeps K m
      → ((a : A) → Keeps K (f a))
      → Keeps K (m >>= f)
  Keeps-bind first next = bind first next

  pub Keeps-catch :
      {E F A : Type 0} {m : Action R E A} {handler : E → Action R F A}
      → Keeps K m
      → ((e : E) → Keeps K (handler e))
      → Keeps K (catch m handler)
  Keeps-catch first next = Triple-catch first next

  -- An action whose errors are passed over.
  pub Triple-quietly :
      {E F A : Type 0} {X : F → World R → Type 0} {P : World R → Type 0} {m : Action R E A}
      → Triple P m (λ _. K) (λ _. K)
      → Triple P (quietly m) (λ _. K) X
  unfolding quietly
  Triple-quietly t =
      Triple-catch (bind t (λ a. Triple-pure tt (λ w h. h))) (λ e. Triple-pure tt (λ w h. h))

pub ruleset keeps_rules = (
  Triple-if, Keeps-assert, Keeps-pure, Keeps-throw, Keeps-gets, Keeps-bind, Keeps-catch,
  Triple-quietly,
)

-- What `m` throws meets `H`.
abbrev pub Throws : {R E A : Type 0} → (E → Type 0) → Action R E A → Type 0
Throws H m = Triple (λ _. Unit {0}) m (λ _ _. Unit {0}) (λ e _. H e)

module _ {R : Type 0} where
  pub Throws-pure : {E A : Type 0} {H : E → Type 0} (a : A) → Throws {R = R} H (pure a)
  Throws-pure a = Triple-pure a (λ w h. tt)

  pub Throws-throw :
      {E A : Type 0} {H : E → Type 0} (e : E) → H e → Throws {R = R} {A = A} H (throw e)
  Throws-throw e h = Triple-throw e (λ w _. h)

  pub Throws-gets : {E A : Type 0} {H : E → Type 0} (f : World R → A) → Throws H (gets f)
  Throws-gets f = Triple-gets f (λ w h. tt)

  pub Throws-modify : {E : Type 0} {H : E → Type 0} (f : World R → World R) → Throws H (modify f)
  unfolding modify
  Throws-modify f = record { at = λ w h. tt }

  pub Throws-assert :
      {E : Type 0} {H : E → Type 0} (b : Bool) (e : E) → H e → Throws {R = R} H (assert b e)
  unfolding assert
  Throws-assert true e h = Throws-pure tt
  Throws-assert false e h = Throws-throw e h

  pub Throws-bind :
      {E A B : Type 0} {H : E → Type 0} {m : Action R E A} {f : A → Action R E B}
      → Throws H m
      → ((a : A) → Throws H (f a))
      → Throws H (m >>= f)
  Throws-bind first next = bind first next

-- Two triples of one action.
pub both :
    {R E A : Type 0} {P P' : World R → Type 0} {Q Q' : A → World R → Type 0}
    {X X' : E → World R → Type 0} {m : Action R E A}
    → Triple P m Q X
    → Triple P' m Q' X'
    → Triple (λ w. P w × P' w) m (λ a w. Q a w × Q' a w) (λ e w. X e w × X' e w)
both {R} {E} {A} {Q} {Q'} {X} {X'} {m} t t' = record {
  at = λ w h. go (m w) (t.at w h.0) (t'.at w h.1);
}
  where
    go :
        (r : Outcome E A × World R)
        → Meets Q X r
        → Meets Q' X' r
        → Meets (λ a w. Q a w × Q' a w) (λ e w. X e w × X' e w) r
    go (returned a, v) k k' = (k, k')
    go (thrown e, v) k k' = (k, k')
