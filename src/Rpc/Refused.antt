-- ===== src/Rpc/Refused.antt =====
-- Which requests the server refuses before it asks the node anything.
use ethera_bundler.Base.{
  ◌<◌, ◌≡◌, ◌≢◌, refl, ap, ◌↔◌, true, false, Bool-cases, List, [], none, some, Result, err, inl,
  inr, ltb, ◌==◌, ==_iff, eq→true, ne→false, lt→ltb, length, arith,
}
use ethera_bundler.Base.Int.{minus}
use ethera_bundler.Alloy.{Uint}
use ethera_bundler.Contracts.{Abi}
use ethera_bundler.Types.{UserOpV07, BuildOpts, SignedTxResp}
use ethera_bundler.Provider.Remote.{Outside, SimulationsAbi}
use ethera_bundler.Provider.AlloyProvider.Served.{served}
use ethera_bundler.Provider.AlloyProvider.Recorded.{recorded, requests_after}
use ethera_bundler.Provider.AlloyProvider.Reached.{base_fee-reaches}
use ethera_bundler.Program.{World, Log, run}
use ethera_bundler.Errors.{Format, BundlerError, wrong_chain_id, invalid_batch, batch_too_large}
use ethera_bundler.Errors.Classify.{classify}
use ethera_bundler.Errors.Display.{error_text}
use ethera_bundler.Bundler.Pipeline.{Bundler, build_inner, build_batch}
use ethera_bundler.Bundler.Pipeline.Shutdown
use ethera_bundler.Rpc.{ErrorObjects, BundlerRpc, error_object, build_signed_user_ops_tx}

-- What is wrong with a request as such. A request for another chain is told so first.
pub data IsUnfit (b : Bundler) (ops : List UserOpV07) (opts : BuildOpts)
    : BundlerError → Type 0 where
  for_other_chain :
      opts.chain_id ≢ b.cfg.chain_id
      → IsUnfit b ops opts (wrong_chain_id b.cfg.chain_id opts.chain_id)
  without_ops :
      opts.chain_id ≡ b.cfg.chain_id
      → length ops ≡ 0
      → IsUnfit b ops opts (invalid_batch "empty userOps")
  with_many_ops :
      opts.chain_id ≡ b.cfg.chain_id
      → b.cfg.max_batch_size < length ops
      → 0 < length ops
      → IsUnfit b ops opts (batch_too_large (length ops) b.cfg.max_batch_size)

module _ ⦃u : Uint⦄ ⦃f : Format⦄ ⦃abi : Abi⦄ ⦃simulations : SimulationsAbi⦄ (objects : ErrorObjects)
    {S : Type 0} (o : Outside S) (s0 : S) (rest : World) (rpc : BundlerRpc) (ops : List UserOpV07)
    (opts : BuildOpts) where
  abbrev outcome : Result objects.Object SignedTxResp × Log
  outcome =
      run (served (recorded o) (s0, []) rest) (build_signed_user_ops_tx objects rpc none ops opts)
        []

  -- An error object with the code for invalid params and the text and data of what is wrong.
  abbrev pub Refuses : Result objects.Object SignedTxResp → Type 0
  Refuses r =
      (e : BundlerError) × IsUnfit rpc.inner ops opts e
      × (r ≡ err (objects.owned (minus 32602) (error_text e) (some (classify e).1)))

  refused :
      (e : BundlerError)
      → IsUnfit rpc.inner ops opts e
      → outcome ≡ (err (objects.owned (minus 32602) (error_text e) (some (classify e).1)), [])
  unfolding build_signed_user_ops_tx Shutdown.build_signed_user_ops_tx build_inner error_object
      classify
  refused e (for_other_chain h) = rw (ne→false opts.chain_id rpc.inner.cfg.chain_id h) refl
  refused e (without_ops c h) =
      rw (eq→true opts.chain_id rpc.inner.cfg.chain_id c, eq→true (length ops) 0 h) refl
  refused e (with_many_ops c h n) =
      rw
        (
          eq→true opts.chain_id rpc.inner.cfg.chain_id c,
          ne→false (length ops) 0 (λ z. omega (arith, z, n)),
          lt→ltb rpc.inner.cfg.max_batch_size (length ops) h,
        )
        refl

  reaches :
      (opts.chain_id == rpc.inner.cfg.chain_id) ≡ true
      → (length ops == 0) ≡ false
      → ltb rpc.inner.cfg.max_batch_size (length ops) ≡ false
      → 0 < length (requests_after o s0 rest outcome.1)
  unfolding build_signed_user_ops_tx Shutdown.build_signed_user_ops_tx build_inner build_batch
  reaches c n m =
      base_fee-reaches o s0 rest (build_signed_user_ops_tx objects rpc none ops opts)
        (rw (c, n, m) tt)

  -- Without a shutdown signal, nothing reaches the node exactly if the request is unfit: it is for
  -- another chain, it has no operation, or it has too many. The reply is then the error object with
  -- code -32602 and the text and data of the first of these that is so. This holds for any node.
  pub served-Refuses :
      let (r, log) =
        run
          (served (recorded o) (s0, []) rest)
          (build_signed_user_ops_tx objects rpc none ops opts)
          [] in
      (requests_after o s0 rest log ≡ []) ↔ Refuses r
  served-Refuses = (
    λ quiet. elim (Bool-cases (opts.chain_id == rpc.inner.cfg.chain_id)) [
      | inr other ↦ unfit _ (
          for_other_chain (λ e. let same = (==_iff opts.chain_id rpc.inner.cfg.chain_id).1 e in cc))
      | inl chain ↦
          let same = (==_iff opts.chain_id rpc.inner.cfg.chain_id).0 chain in
          elim (Bool-cases (length ops == 0)) [
            | inl empty ↦ unfit _ (without_ops same ((==_iff (length ops) 0).0 empty))
            | inr filled ↦ elim (Bool-cases (ltb rpc.inner.cfg.max_batch_size (length ops))) [
              | inl many ↦ unfit _ (with_many_ops same (ground arith) (ground arith))
              | inr few ↦
                  let some_request = reaches chain filled few in
                  let no_request = ap length quiet in
                  absurd (omega (arith, some_request, no_request))
            ]
          ]
    ],
    λ (e, wrong, _).
        ap (λ (x : Result objects.Object SignedTxResp × Log). requests_after o s0 rest x.1)
          (refused e wrong),
  )
    where
      unfit : (e : BundlerError) → IsUnfit rpc.inner ops opts e → Refuses outcome.0
      unfit e wrong = (e, wrong, ap (λ x. x.0) (refused e wrong))
