-- ===== src/Bundler/Pipeline/Shutdown.antt =====
-- crates/bundler/src/bundler.rs: `build_signed_user_ops_tx`, a request whose future the shutdown
-- signal may drop.
use ethera_bundler.Base.{ℕ, zero, suc, Bool, true, false, List, Option, none, some, Result, err}
use ethera_bundler.Alloy.{Uint}
use ethera_bundler.Contracts.{Abi}
use ethera_bundler.Types.{UserOpV07, BuildOpts, SignedTxResp}
use ethera_bundler.Program.{
  Program, Call, query, warn, done, ask, unix_now, sign_eip1559, lock, unlock,
}
use ethera_bundler.Errors.{Format, BundlerError, cancelled}
use ethera_bundler.Bundler.Pipeline.{Bundler, build_inner}

-- Whether the lock is held after a call.
abbrev pub holds_after : Bool → Call → Bool
holds_after held lock = true
holds_after held unlock = false
holds_after held c = held

-- The end of a dropped future: its guard, if it holds one, frees the lock.
abbrev pub drop_future : {A : Type 0} → Bool → Program (Result BundlerError A)
drop_future true = ask unlock (λ _. done (err cancelled))
drop_future false = done (err cancelled)

-- The calls that are awaited, at which a future can be dropped.
abbrev pub awaits : Call → Bool
awaits (query q) = true
awaits (sign_eip1559 tx) = true
awaits lock = true
awaits unix_now = false
awaits unlock = false
awaits (warn s) = false

-- The number of awaited calls that are still to be answered after this one, if it is made at all.
abbrev pub remaining : Bool → ℕ → Option ℕ
remaining false n = some n
remaining true zero = none
remaining true (suc n) = some n

-- A future that is dropped after `n` answers, while the next call is awaited. A call in flight when
-- it is dropped counts as not made, or as made with its answer unused: both are among the `n`.
abbrev pub interrupt :
    {A : Type 0} → ℕ → Bool → Program (Result BundlerError A) → Program (Result BundlerError A)
interrupt n held (done r) = done r
interrupt n held (ask c k) = elim (remaining (awaits c) n) [
  | none ↦ drop_future held
  | some m ↦ ask c (λ r. interrupt m (holds_after held c) (k r))
]

-- `build_signed_user_ops_tx`: the shutdown signal never comes, has come before the start, or comes
-- after a number of calls. `select!` is biased: it looks at the signal first.
unfoldable pub build_signed_user_ops_tx :
    ⦃u : Uint⦄
    → ⦃f : Format⦄ → ⦃abi : Abi⦄ → Bundler
    → Option ℕ
    → List UserOpV07
    → BuildOpts
    → Program (Result BundlerError SignedTxResp)
build_signed_user_ops_tx b none ops opts = build_inner b ops opts
build_signed_user_ops_tx b (some zero) ops opts = done (err cancelled)
build_signed_user_ops_tx b (some (suc n)) ops opts = interrupt n false (build_inner b ops opts)
