-- ===== src/Bundler/Pipeline/Accepts/Requests.antt =====
-- Exactly which requests `build_inner` answers with a signed transaction, and with which.
use ethera_bundler.Base.{
  ℕ, ◌<◌, ◌≡◌, refl, sym, ◌∙◌, ◌↔◌, Bool, true, false, not, List, [], ◌∷◌, All, Result, ok, err,
  inl, if◌then◌else◌, length, ltb, ◌==◌, arith,
}
use ethera_bundler.Alloy.{Uint}
use ethera_bundler.Contracts.{Abi}
use ethera_bundler.Types.{UserOpV07, BuildOpts, SignedTxResp, IsUserOp, IsU256}
use ethera_bundler.Provider.{base_fee}
use ethera_bundler.Program.{Call, Answer, query, Program, done, run}
use ethera_bundler.Program.Steady.{steady, outcome, run-steady}
use ethera_bundler.Errors.{Format, wrong_chain_id, invalid_batch, batch_too_large}
use ethera_bundler.Bundler.Pipeline.{Bundler, build_batch, build_inner}
use ethera_bundler.Base.{==_iff, ltb→le, le→ltb, ne→false}
use ethera_bundler.Errors.{wrong_chain_id, invalid_batch, batch_too_large}
use ethera_bundler.Bundler.Pipeline.Accepts.Response.{IsBuildable, IsAccepted}
use ethera_bundler.Bundler.Pipeline.Accepts.Batch.{build_batch_built, built-build_batch}

module _ {A E : Type 0} (answers : (c : Call) → Answer c) where
  -- Three tests in front of a program.
  guarded :
      (right none_left many : Bool) (e1 e2 e3 : E) (p : Program (Result E A)) (a : A)
      → (outcome answers (
            if not right
            then done (err e1)
            else if none_left
            then done (err e2)
            else if many
            then done (err e3)
            else p)
          ≡ ok a)
        ↔ ((right ≡ true) × (none_left ≡ false) × (many ≡ false) × (outcome answers p ≡ ok a))
  guarded true false false e1 e2 e3 p a = (λ h. (refl, refl, refl, h), λ h. h.3)
  guarded false _ _ e1 e2 e3 p a = (λ h. cc, λ h. cc h.0)
  guarded true true _ e1 e2 e3 p a = (λ h. cc, λ h. cc h.1)
  guarded true false true e1 e2 e3 p a = (λ h. cc, λ h. cc h.2)

module _ ⦃u : Uint⦄ ⦃f : Format⦄ ⦃abi : Abi⦄ (answers : (c : Call) → Answer c) (b : Bundler)
    (opts : BuildOpts) (ops : List UserOpV07) (resp : SignedTxResp)
    (hm : IsU256 b.cfg.min_priority_fee_wei) (w : All IsUserOp ops)
    (typed : (n : ℕ) → answers (query base_fee) ≡ inl n → IsU256 n) where
  -- What stands behind the three tests of the request.
  past_tests : (outcome answers (build_inner b ops opts) ≡ ok resp) ↔ (
      ((opts.chain_id == b.cfg.chain_id) ≡ true)
      × ((length ops == 0) ≡ false)
      × (ltb b.cfg.max_batch_size (length ops) ≡ false)
      × (outcome answers (build_batch b ops opts.submit) ≡ ok resp))
  unfolding build_inner
  past_tests =
      guarded answers (opts.chain_id == b.cfg.chain_id) (length ops == 0)
        (ltb b.cfg.max_batch_size (length ops)) (wrong_chain_id b.cfg.chain_id opts.chain_id)
        (invalid_batch "empty userOps") (batch_too_large (length ops) b.cfg.max_batch_size)
        (build_batch b ops opts.submit) resp

  batch-ok_iff :
      (ops' : List UserOpV07)
      → All IsUserOp ops'
      → 0 < length ops'
      → (outcome answers (build_batch b ops' opts.submit) ≡ ok resp)
        ↔ IsBuildable b answers ops' opts.submit resp
  batch-ok_iff [] w' h = absurd (omega arith)
  batch-ok_iff (op ∷ rest) w' h = (
    build_batch_built answers b opts.submit op rest resp hm w' typed,
    built-build_batch answers b opts.submit op rest resp hm w' typed,
  )

  -- Given operations, a minimum fee and an answered base fee in the ranges of their types, a request
  -- to a world that answers every call the same way whenever it is made ends in a response exactly
  -- if it is for the bundler's chain, its batch is neither empty nor too large, and the world's
  -- answers let every operation pass, its fees, its numbers, its deposit, its simulation and its
  -- hash, and let the batch be built: the fee cap covers the base fee with the tip, and the
  -- transaction is estimated, signed, and in submit mode taken and told as successful. The response
  -- is then the one that is built from these answers.
  pub build_inner-ok_iff :
      ((run (steady answers) (build_inner b ops opts) []).0 ≡ ok resp)
      ↔ IsAccepted b answers ops opts resp
  build_inner-ok_iff =
      let same = run-steady answers (build_inner b ops opts) [] in
      (
        λ h.
            let (chain, filled, few, built) = past_tests.0 (sym same ∙ h) in
            let filled' : 0 < length ops = ground arith in
            record {
              for_chain = (==_iff opts.chain_id b.cfg.chain_id).0 chain;
              some_ops = filled';
              few_ops = ltb→le b.cfg.max_batch_size (length ops) few;
              buildable = (batch-ok_iff ops w filled').0 built;
            },
        λ g.
            same
            ∙ past_tests.1 (
              (==_iff opts.chain_id b.cfg.chain_id).1 g.for_chain,
              ne→false (length ops) 0 (λ z. omega (arith, z, g.some_ops)),
              le→ltb b.cfg.max_batch_size (length ops) g.few_ops,
              (batch-ok_iff ops w g.some_ops).1 g.buildable,
            ),
      )
