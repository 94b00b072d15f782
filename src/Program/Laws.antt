-- ===== src/Program/Laws.antt =====
-- Reasoning about programs: a condition on every call that a program makes, and on its result,
-- whatever is answered. The conditions are about a state that follows the calls and answers.
use ethera_bundler.Base.{
  ◌≤◌, ◌<◌, length, arith, ◌≡◌, refl, [], ◌∷◌, Result, ok, err, panic, inl, inr, String,
}
use ethera_bundler.Provider.{ProviderError, Query, Reply}
use ethera_bundler.Program.{
  Call, query, Answer, Program, done, ask, bind, continue, ◌>>=◌, World, Log, run, call,
}

-- What may be called in a state, which answers a call can have (those of its Rust type), and the
-- state after an answer.
pub record Protocol (S : Type 0) : Type 1 where
  pub allowed : S → Call → Type 0
  pub possible : (c : Call) → Answer c → Type 0
  pub after : S → (c : Call) → Answer c → S

-- A run only adds to the log.
pub run_grows :
    {A : Type 0} (world : World) (p : Program A) (log : Log)
    → length log ≤ length (run world p log).1
run_grows world (done a) log = omega arith
run_grows world (ask c k) log =
    let r = world log c in omega (arith, run_grows world (k r) ((c, r) ∷ log))

-- A program that begins with a call.
abbrev pub Begins : {A : Type 0} → Program A → Type 0
Begins (done a) = ⊥
Begins (ask c k) = Unit

pub run-Begins :
    {A : Type 0} (world : World) (p : Program A) (log : Log)
    → Begins p
    → length log < length (run world p log).1
run-Begins world (done a) log h = elim h [ ]
run-Begins world (ask c k) log h =
    let r = world log c in omega (arith, run_grows world (k r) ((c, r) ∷ log))

-- Every answer of the log is that of the world.
abbrev pub Answered : World → Log → Type 0
Answered world [] = Unit
Answered world ((c, r) ∷ log) = (r ≡ world log c) × Answered world log

pub run-Answered :
    {A : Type 0} (world : World) (p : Program A) (log : Log)
    → Answered world log
    → Answered world (run world p log).1
run-Answered world (done a) log h = h
run-Answered world (ask c k) log h =
    run-Answered world (k (world log c)) ((c, world log c) ∷ log) (refl, h)

module _ {S : Type 0} (P : Protocol S) where
  -- From the state `s` every call of the program is allowed when it is made, and `Q` holds of the
  -- last state and the result, whatever the possible answers are.
  abbrev pub Safe : {A : Type 0} → S → Program A → (S → A → Type 0) → Type 0
  Safe s (done a) Q = Q s a
  Safe s (ask c k) Q =
      P.allowed s c × ((r : Answer c) → P.possible c r → Safe (P.after s c r) (k r) Q)

  pub Safe-bind :
      {A B : Type 0} (Q : S → B → Type 0) (s : S) (p : Program A) (f : A → Program B)
      → Safe s p (λ t a. Safe t (f a) Q)
      → Safe s (bind p f) Q
  Safe-bind Q s (done a) f h = h
  Safe-bind Q s (ask c k) f h = (h.0, λ r p. Safe-bind Q (P.after s c r) (k r) f (h.1 r p))

  pub Safe_weaken :
      {A : Type 0} (Q R : S → A → Type 0) (s : S) (p : Program A)
      → Safe s p Q
      → ((t : S) (a : A) → Q t a → R t a)
      → Safe s p R
  Safe_weaken Q R s (done a) h w = w s a h
  Safe_weaken Q R s (ask c k) h w = (h.0, λ r p. Safe_weaken Q R (P.after s c r) (k r) (h.1 r p) w)

  -- The state after all calls of a log, from `s`.
  abbrev pub replay : S → Log → S
  replay s [] = s
  replay s ((c, r) ∷ log) = P.after (replay s log) c r

  -- Every call of the log was allowed when it was made.
  abbrev pub Obeyed : S → Log → Type 0
  Obeyed s [] = Unit
  Obeyed s ((c, r) ∷ log) = P.allowed (replay s log) c × Obeyed s log

  -- Every answer of the world is one that its call can have.
  abbrev pub IsTyped : World → Type 0
  IsTyped world = (log : Log) (c : Call) → P.possible c (world log c)

  -- In every such world, a safe program makes allowed calls only, and its result is as promised.
  pub run-Safe :
      {A : Type 0} (Q : S → A → Type 0) (world : World) (s : S) (p : Program A) (log : Log)
      → IsTyped world
      → Obeyed s log
      → Safe (replay s log) p Q
      → let (a, log') = run world p log in Obeyed s log' × Q (replay s log') a
  run-Safe Q world s (done a) log w o h = (o, h)
  run-Safe Q world s (ask c k) log w o h =
      let r = world log c in run-Safe Q world s (k r) ((c, r) ∷ log) w (h.0, o) (h.1 r (w log c))

  module _ {E A B : Type 0} (Q : S → Result E B → Type 0) (s : S)
      (f : A → Program (Result E B)) where
    -- After a step that may fail: its error and its panic end the program.
    pub Safe-continue :
        (r : Result E A)
        → ((e : E) → r ≡ err e → Q s (err e))
        → ((m : String) → r ≡ panic m → Q s (panic m))
        → ((a : A) → r ≡ ok a → Safe s (f a) Q)
        → Safe s (continue f r) Q
    Safe-continue (ok a) he hp ha = ha a refl
    Safe-continue (err e) he hp ha = he e refl
    Safe-continue (panic m) he hp ha = hp m refl

  -- A query and the code that uses its reply.
  pub Safe-call :
      {E B : Type 0} (Q : S → Result E B → Type 0) (s : S) (convert : ProviderError → E) (q : Query)
      (f : Reply q → Program (Result E B))
      → P.allowed s (query q)
      → ((e : ProviderError) → Q (P.after s (query q) (inr e)) (err (convert e)))
      → ((a : Reply q) → P.possible (query q) (inl a) → Safe (P.after s (query q) (inl a)) (f a) Q)
      → Safe s (call convert q >>= f) Q
  Safe-call Q s convert q f al he ha = (al, elim [ inl a ↦ λ p. ha a p | inr e ↦ λ p. he e ])
