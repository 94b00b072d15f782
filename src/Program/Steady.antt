-- ===== src/Program/Steady.antt =====
-- Programs against a world that gives every call the same answer whenever it is made, as the outside
-- world does while nothing but the request changes it.
use ethera_bundler.Base.{◌≡◌, refl, sym, ◌∙◌, ◌∷◌, Result, ok, err, panic, ◌⊎◌, inl, inr}
use ethera_bundler.Program.{
  Call, Answer, Program, done, ask, bind, continue, ◌>>=◌, answered, World, Log, run,
}

module _ (answers : (c : Call) → Answer c) where
  abbrev pub steady : World
  steady log c = answers c

  -- The result of a program against this world.
  abbrev pub outcome : {A : Type 0} → Program A → A
  outcome (done a) = a
  outcome (ask c k) = outcome (k (answers c))

  pub run-steady : {A : Type 0} (p : Program A) (log : Log) → (run steady p log).0 ≡ outcome p
  run-steady (done a) log = refl
  run-steady (ask c k) log = run-steady (k (answers c)) ((c, answers c) ∷ log)

  pub outcome-bind :
      {A B : Type 0} (p : Program A) (f : A → Program B)
      → outcome (bind p f) ≡ outcome (f (outcome p))
  outcome-bind (done a) f = refl
  outcome-bind (ask c k) f = outcome-bind (k (answers c)) f

  -- A program that goes on after a step that may fail succeeds exactly if both parts do.
  pub outcome-continue :
      {E A B : Type 0} (f : A → Program (Result E B)) (r : Result E A) (x : B)
      → outcome (continue f r) ≡ ok x
      → (a : A) × (r ≡ ok a) × (outcome (f a) ≡ ok x)
  outcome-continue f (ok a) x h = (a, refl, h)
  outcome-continue f (err e) x h = cc
  outcome-continue f (panic m) x h = cc

  pub outcome_after :
      {E A B : Type 0} (f : A → Program (Result E B)) (r : Result E A) (x : B) (a : A)
      → r ≡ ok a
      → outcome (continue f r) ≡ ok x
      → outcome (f a) ≡ ok x
  outcome_after f (ok b) x a e h = let same : b ≡ a = cc in rw (sym same) h
  outcome_after f (err e') x a e h = cc
  outcome_after f (panic m) x a e h = cc

  -- After a step that gives a value, and after one that ends in an error.
  pub outcome-continue_ok :
      {E A B : Type 0} (f : A → Program (Result E B)) (r : Result E A) (a : A) (y : Result E B)
      → r ≡ ok a
      → outcome (f a) ≡ y
      → outcome (continue f r) ≡ y
  outcome-continue_ok f (ok b) a y e h = let same : b ≡ a = cc in rw same h
  outcome-continue_ok f (err e') a y e h = cc
  outcome-continue_ok f (panic m) a y e h = cc

  pub outcome-continue_err :
      {E A B : Type 0} (f : A → Program (Result E B)) (r : Result E A) (e : E)
      → r ≡ err e
      → outcome (continue f r) ≡ err e
  outcome-continue_err f (ok b) e h = cc
  outcome-continue_err f (err e') e h = cc
  outcome-continue_err f (panic m) e h = cc

  pub outcome-then_ok :
      {E A B : Type 0} (p : Program (Result E A)) (f : A → Program (Result E B)) (a : A)
      (y : Result E B)
      → outcome p ≡ ok a
      → outcome (f a) ≡ y
      → outcome (p >>= f) ≡ y
  outcome-then_ok p f a y e h =
      outcome-bind p (continue f) ∙ outcome-continue_ok f (outcome p) a y e h

  pub outcome-then_err :
      {E A B : Type 0} (p : Program (Result E A)) (f : A → Program (Result E B)) (e : E)
      → outcome p ≡ err e
      → outcome (p >>= f) ≡ err e
  outcome-then_err p f e h = outcome-bind p (continue f) ∙ outcome-continue_err f (outcome p) e h

  pub continue-eq-ok :
      {E A B : Type 0} (f : A → Program (Result E B)) (r : Result E A) (x : B) (a : A)
      → r ≡ ok a
      → outcome (f a) ≡ ok x
      → outcome (continue f r) ≡ ok x
  continue-eq-ok f r x a e h = outcome-continue_ok f r a (ok x) e h

  pub outcome-eq-ok :
      {E A B : Type 0} (p : Program (Result E A)) (f : A → Program (Result E B)) (x : B)
      → outcome (p >>= f) ≡ ok x
      → (a : A) × (outcome p ≡ ok a) × (outcome (f a) ≡ ok x)
  outcome-eq-ok p f x h = outcome-continue f (outcome p) x (sym (outcome-bind p (continue f)) ∙ h)

  pub bind-eq-ok :
      {E A B : Type 0} (p : Program (Result E A)) (f : A → Program (Result E B)) (x : B) (a : A)
      → outcome p ≡ ok a
      → outcome (f a) ≡ ok x
      → outcome (p >>= f) ≡ ok x
  bind-eq-ok p f x a e h = outcome-then_ok p f a (ok x) e h

pub answered-eq-ok :
    {E F A : Type 0} (convert : F → E) (r : A ⊎ F) (a : A) → answered convert r ≡ ok a → r ≡ inl a
answered-eq-ok convert (inl b) a h = cc
answered-eq-ok convert (inr e) a h = cc
