-- ===== src/Program.antt =====
-- Asynchronous code as programs: a call of the outside world with the code that waits for its
-- answer. `Call` holds every effect of the bundler: the provider, the clock, the signer, the lock.
-- A program is run against a world that answers by the calls made so far, so that a statement for
-- every world holds whatever the node, the clock and the signer answer, and however they change.
pub mod Laws
pub mod Steady
use ethera_bundler.Base.{
  ℕ, Bool, Option, String, List, [], ◌∷◌, ◌⊎◌, inl, inr, Result, ok, err, panic,
}
use ethera_bundler.Provider.{ProviderError, Query, Reply}
use ethera_bundler.Signer.{SignerError, TxEip1559, TxEnvelope}

-- `lock` and `unlock` are those of `submit_lock`; `warn` is `tracing::warn!`.
pub data Call : Type 0 where
  query : Query → Call
  unix_now : Call
  sign_eip1559 : TxEip1559 → Call
  lock : Call
  unlock : Call
  warn : String → Call

abbrev pub Answer : Call → Type 0
Answer (query q) = Reply q ⊎ ProviderError
Answer unix_now = ℕ
Answer (sign_eip1559 tx) = TxEnvelope ⊎ SignerError
Answer lock = Unit {0}
Answer unlock = Unit {0}
Answer (warn s) = Unit {0}

pub data Program (A : Type 0) : Type 0 where
  done : A → Program A
  ask : (c : Call) → (Answer c → Program A) → Program A

abbrev pub bind : {A B : Type 0} → Program A → (A → Program B) → Program B
bind (done a) f = f a
bind (ask c k) f = ask c (λ r. bind (k r) f)

-- `?`: an error or a panic ends the program.
abbrev pub continue :
    {E A B : Type 0} → (A → Program (Result E B)) → Result E A → Program (Result E B)
continue f (ok a) = f a
continue f (err e) = done (err e)
continue f (panic s) = done (panic s)

infixl 5 ◌>>=◌ ◌>>◌
abbrev pub ◌>>=◌ :
    {E A B : Type 0} → Program (Result E A) → (A → Program (Result E B)) → Program (Result E B)
p >>= f = bind p (continue f)

abbrev pub ◌>>◌ :
    {E B : Type 0} → Program (Result E (Unit {0})) → Program (Result E B) → Program (Result E B)
p >> q = p >>= λ _. q

-- A call that may fail, its error converted by `?`.
abbrev pub answered : {E F A : Type 0} → (F → E) → A ⊎ F → Result E A
answered convert (inl a) = ok a
answered convert (inr e) = err (convert e)

abbrev pub call : {E : Type 0} → (ProviderError → E) → (q : Query) → Program (Result E (Reply q))
call convert q = ask (query q) (λ r. done (answered convert r))

-- A call with its answer, and the calls so far, the latest first.
abbrev pub Event : Type 0
Event = (c : Call) × Answer c

abbrev pub Log : Type 0
Log = List Event

-- What answers the calls: anything that may depend on all calls so far.
abbrev pub World : Type 0
World = Log → (c : Call) → Answer c

abbrev pub run : {A : Type 0} → World → Program A → Log → A × Log
run world (done a) log = (a, log)
run world (ask c k) log = let r = world log c in run world (k r) ((c, r) ∷ log)
