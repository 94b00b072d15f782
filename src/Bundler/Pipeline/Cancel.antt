-- ===== src/Bundler/Pipeline/Cancel.antt =====
-- Shutdown: a request whose future is dropped while it awaits a call.
use ethera_bundler.Base.{
  ℕ, zero, suc, ◌≡◌, ◌≤◌, refl, ap, ◌∙◌, Bool, true, false, List, [], All, Option, none, some,
  Option-cases, Result, ok, err, inl, inr, ◌⊎◌, arith,
}
use ethera_bundler.Alloy.{Uint}
use ethera_bundler.Contracts.{Abi}
use ethera_bundler.Types.{UserOpV07, BuildOpts, SignedTxResp, IsUserOp, IsU256}
use ethera_bundler.Provider.{
  chain_id, base_fee, max_priority_fee, pending_nonce, estimate_handle_ops_gas, wait_for_receipt,
}
use ethera_bundler.Program.{Call, Answer, Program, query, sign_eip1559, done, ask, World, run}
use ethera_bundler.Program.Laws.{Safe, Safe_weaken, run-Safe, replay, Obeyed, IsTyped}
use ethera_bundler.Errors.{Format, BundlerError, cancelled}
use ethera_bundler.Bundler.Pipeline.{Bundler, build_inner}
use ethera_bundler.Bundler.Pipeline.Shutdown.{
  build_signed_user_ops_tx, interrupt, drop_future, awaits, remaining, holds_after,
}
use ethera_bundler.Bundler.Pipeline.Stage.{Stage, start, discipline}
use ethera_bundler.Bundler.Pipeline.Built.{Ends, IsBuilt}
use ethera_bundler.Bundler.Pipeline.Requests.{
  build_inner-Safe, count, is_broadcast, is_lock, is_unlock, counted,
}
use ethera_bundler.Bundler.Pipeline.Promises.{Ends-free, Ends-ok, sent_bound}

-- How a request may end when it may be cancelled: as without, or by the cancellation with the lock
-- free.
abbrev pub EndsOrCancelled :
    ⦃u : Uint⦄
    → ⦃abi : Abi⦄ → Bundler
    → List UserOpV07
    → Bool
    → Stage
    → Result BundlerError SignedTxResp
    → Type 0
EndsOrCancelled b ops submit t r = ((r ≡ err cancelled) × (t.held ≡ false)) ⊎ Ends b ops submit t r

pub cancelled-free :
    ⦃u : Uint⦄ ⦃f : Format⦄ ⦃abi : Abi⦄ (b : Bundler) (opts : BuildOpts) (ops : List UserOpV07)
    (t : Stage) (r : Result BundlerError SignedTxResp)
    → EndsOrCancelled b ops opts.submit t r
    → t.held ≡ false
cancelled-free b opts ops t r (inl (e, free)) = free
cancelled-free b opts ops t r (inr h) = Ends-free b opts ops t r h

EndsOrCancelled-IsBuilt :
    ⦃u : Uint⦄ ⦃f : Format⦄ ⦃abi : Abi⦄ (b : Bundler) (opts : BuildOpts) (ops : List UserOpV07)
    (t : Stage) (r : Result BundlerError SignedTxResp) (resp : SignedTxResp)
    → EndsOrCancelled b ops opts.submit t r
    → r ≡ ok resp
    → IsBuilt b ops opts.submit t resp
EndsOrCancelled-IsBuilt b opts ops t r resp (inl (e, free)) h = cc
EndsOrCancelled-IsBuilt b opts ops t r resp (inr ends) h = Ends-ok b opts ops t r resp ends h

module _ (b : Bundler) (submit : Bool) where
  holds_after-after :
      (s : Stage) (c : Call) (r : Answer c)
      → ((discipline b submit).after s c r).held ≡ holds_after s.held c
  holds_after-after s (query chain_id) r = refl
  holds_after-after s (query base_fee) (inl n) = refl
  holds_after-after s (query base_fee) (inr e) = refl
  holds_after-after s (query max_priority_fee) (inl n) = refl
  holds_after-after s (query max_priority_fee) (inr e) = refl
  holds_after-after s (query (pending_nonce a)) (inl n) = refl
  holds_after-after s (query (pending_nonce a)) (inr e) = refl
  holds_after-after s (query (estimate_handle_ops_gas f t d)) (inl n) = refl
  holds_after-after s (query (estimate_handle_ops_gas f t d)) (inr e) = refl
  holds_after-after s (query (wait_for_receipt h t)) (inl none) = refl
  holds_after-after s (query (wait_for_receipt h t)) (inl (some info)) = refl
  holds_after-after s (query (wait_for_receipt h t)) (inr e) = refl
  holds_after-after s (query _) r = refl
  holds_after-after s (sign_eip1559 tx) (inl envelope) = refl
  holds_after-after s (sign_eip1559 tx) (inr e) = refl
  holds_after-after s _ r = refl

  module _ {A : Type 0} (Q : Stage → Result BundlerError A → Type 0) where
    abbrev OrCancelled : Stage → Result BundlerError A → Type 0
    OrCancelled t r = ((r ≡ err cancelled) × (t.held ≡ false)) ⊎ Q t r

    drop_future-Safe :
        (s : Stage) (held : Bool)
        → s.held ≡ held
        → Safe (discipline b submit) s (drop_future held) OrCancelled
    drop_future-Safe s true e = (e, λ _ _. inl (refl, refl))
    drop_future-Safe s false e = inl (refl, e)

    -- A program that keeps the discipline keeps it when it is dropped anywhere, with the lock free.
    interrupt-Safe :
        (n : ℕ) (s : Stage) (held : Bool) (p : Program (Result BundlerError A))
        → s.held ≡ held
        → Safe (discipline b submit) s p Q
        → Safe (discipline b submit) s (interrupt n held p) OrCancelled
    interrupt-Safe n s held (done r) e h = inr h
    interrupt-Safe n s held (ask c k) e (a, h) = elim (Option-cases (remaining (awaits c) n)) [
      | inl stop ↦ rw (stop, interrupt) (drop_future-Safe s held e)
      | inr (m, go) ↦
          rw (go, interrupt)
            (
              a,
              λ r p.
                  interrupt-Safe m ((discipline b submit).after s c r) (holds_after held c) (k r)
                    (holds_after-after s c r ∙ ap (λ x. holds_after x c) e) (h r p),
            )
    ]

module _ ⦃u : Uint⦄ ⦃f : Format⦄ ⦃abi : Abi⦄ (b : Bundler) (ops : List UserOpV07) (opts : BuildOpts)
    (hm : IsU256 b.cfg.min_priority_fee_wei) (w : All IsUserOp ops) where
  pub cancellable-Safe :
      (fires : Option ℕ)
      → Safe
          (discipline b opts.submit)
          start
          (build_signed_user_ops_tx b fires ops opts)
          (EndsOrCancelled b ops opts.submit)
  unfolding build_signed_user_ops_tx
  cancellable-Safe none =
      Safe_weaken (discipline b opts.submit) (Ends b ops opts.submit)
        (EndsOrCancelled b ops opts.submit) start (build_inner b ops opts)
        (build_inner-Safe b opts ops hm w) (λ t r h. inr h)
  cancellable-Safe (some zero) = inl (refl, refl)
  cancellable-Safe (some (suc n)) =
      interrupt-Safe b opts.submit (Ends b ops opts.submit) n start false (build_inner b ops opts)
        refl (build_inner-Safe b opts ops hm w)

  -- For operations and a minimum fee in the ranges of their types, whenever the shutdown signal
  -- comes, and whatever the world answers within the types of the calls, a request makes only
  -- allowed calls, broadcasts at most once, releases the lock if it took it, and ends cancelled or
  -- as it would without the signal.
  pub run-build_signed_user_ops_tx :
      (fires : Option ℕ) (world : World)
      → IsTyped (discipline b opts.submit) world
      → let (r, log) = run world (build_signed_user_ops_tx b fires ops opts) [] in
        let P = discipline b opts.submit in
        Obeyed P start log
        × (count is_broadcast log ≤ 1)
        × (count is_lock log ≡ count is_unlock log)
        × EndsOrCancelled b ops opts.submit (replay P start log) r
  run-build_signed_user_ops_tx fires world typed =
      let P = discipline b opts.submit in
      let program = build_signed_user_ops_tx b fires ops opts in
      let (obeyed, ends) =
        run-Safe P (EndsOrCancelled b ops opts.submit) world start program [] typed tt
          (cancellable-Safe fires) in
      let last : Stage = replay P start (run world program []).1 in
      let (sends, locks) = counted b opts.submit (run world program []).1 obeyed in
      let free : last.held ≡ false = cancelled-free b opts ops last (run world program []).0 ends in
      (obeyed, omega (arith, sends, sent_bound last.sent), locks ∙ rw free (omega arith), ends)

  -- A response is built from the answers of the world, also of a request that might be cancelled.
  pub run-IsBuilt :
      (fires : Option ℕ) (world : World)
      → IsTyped (discipline b opts.submit) world
      → (resp : SignedTxResp)
      → (run world (build_signed_user_ops_tx b fires ops opts) []).0 ≡ ok resp
      → IsBuilt b ops opts.submit
          (replay
            (discipline b opts.submit)
            start
            (run world (build_signed_user_ops_tx b fires ops opts) []).1)
          resp
  run-IsBuilt fires world typed resp h =
      let P = discipline b opts.submit in
      let program = build_signed_user_ops_tx b fires ops opts in
      let (obeyed, ends) =
        run-Safe P (EndsOrCancelled b ops opts.submit) world start program [] typed tt
          (cancellable-Safe fires) in
      EndsOrCancelled-IsBuilt b opts ops (replay P start (run world program []).1)
        (run world program []).0 resp ends h
