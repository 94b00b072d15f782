-- ===== src/Bundler/Pipeline/Accepts/Reported.antt =====
-- Which error a batch is refused with: that of its first operation that fails, with its index.
use ethera_bundler.Base.{
  ℕ, ◌+◌, ◌≤◌, ◌<◌, ◌≡◌, ◌⊎◌, refl, sym, ap, ◌∙◌, List, [], ◌∷◌, ◌++◌, All, Result, err, inl, inr,
  length, eq→true, ne→false, le→ltb, arith,
}
use mathlib.Core.Path.{subst}
use ethera_bundler.Alloy.{Uint, Hash}
use ethera_bundler.Contracts.{Abi}
use ethera_bundler.Types.{UserOpV07, BuildOpts, IsUserOp, IsU256}
use ethera_bundler.Packing.Fields.{packed}
use ethera_bundler.Provider.{base_fee, max_priority_fee}
use ethera_bundler.Program.{Call, Answer, query, unix_now, run, Program, answered}
use ethera_bundler.Program.Steady.{
  steady, outcome, run-steady, outcome-continue_ok, outcome-then_ok, outcome-then_err,
}
use ethera_bundler.Errors.{Format, BundlerError, provider}
use ethera_bundler.Bundler.Pipeline.{
  Bundler, Batch, no_ops, check_op, check_ops, build_batch, build_inner,
}
use ethera_bundler.Bundler.Pipeline.Checks.{with_op}
use ethera_bundler.Bundler.Pipeline.Accepts.{IsPassing, Hashed}
use ethera_bundler.Bundler.Pipeline.Accepts.Operation.{check_op-ok_iff}
use ethera_bundler.Bundler.Pipeline.Accepts.Failure.{Fails}
use ethera_bundler.Bundler.Pipeline.Accepts.Refused.{op_failed}
use ethera_bundler.Bundler.Pipeline.Accepts.Decided.{decided}
use ethera_bundler.Bundler.Pipeline.Accepts.Response.{after_loop, with_base, with_suggested}

module _ ⦃u : Uint⦄ ⦃f : Format⦄ ⦃abi : Abi⦄ (answers : (c : Call) → Answer c) (b : Bundler)
    (base : ℕ) where
  -- Every operation passes, and the node tells its hash.
  abbrev pub AllPass : List UserOpV07 → Type 0
  AllPass ops =
      All (IsPassing answers b base) ops × ((hashes : List Hash) × Hashed answers b ops hashes)

  -- Some operation fails, all before it pass, and the result is its error. The first operation of
  -- the list has the index `i`.
  pub record FirstFails {A : Type 0} (i : ℕ) (ops : List UserOpV07) (r : Result BundlerError A)
      : Type 0 where
    pub before : List UserOpV07
    pub op : UserOpV07
    pub after : List UserOpV07
    pub split : ops ≡ before ++ (op ∷ after)
    pub passed : AllPass before
    pub error : BundlerError
    pub fails : Fails answers b base (i + length before) op error
    pub reported : r ≡ err error

  module _ (hb : IsU256 base) (hm : IsU256 b.cfg.min_priority_fee_wei) where
    loop_decided :
        (i : ℕ) (ops : List UserOpV07) (batch : Batch)
        → All IsUserOp ops
        → AllPass ops
          ⊎ FirstFails i ops (outcome answers (check_ops b base (answers unix_now) i ops batch))
    unfolding check_ops
    loop_decided i [] batch w = inl (tt, ([], tt))
    loop_decided i (op ∷ ops) batch w =
        let now = answers unix_now in
        let step = check_op b base now i op batch in
        let rest : Batch → Program (Result BundlerError Batch) = check_ops b base now (i + 1) ops in
        elim (decided answers b base i op hb hm) [
          | inr (e, bad) ↦
              let here : i + 0 ≡ i = omega arith in
              inr (record {
                before = [];
                op = op;
                after = ops;
                split = refl;
                passed = (tt, ([], tt));
                error = e;
                fails = subst (λ k. Fails answers b base k op e) (sym here) bad;
                reported =
                    outcome-then_err answers step rest e
                      (op_failed answers b base i op w.0 batch e hb hm bad);
              })
          | inl (g, (hash, told)) ↦
              let next : Batch = with_op batch op (packed op) hash in
              let passes =
                (check_op-ok_iff answers b i op base batch next hb hm w.0).1
                  (g, (hash, told, refl)) in
              elim (loop_decided (i + 1) ops next w.1) [
                | inl (gs, (hashes, tolds)) ↦ inl ((g, gs), (hash ∷ hashes, (told, tolds)))
                | inr later ↦
                    let index : i + 1 + length later.before ≡ i + length (op ∷ later.before) =
                      omega arith in
                    inr (record {
                      before = op ∷ later.before;
                      op = later.op;
                      after = later.after;
                      split = ap (λ l. op ∷ l) later.split;
                      passed = (
                        (g, later.passed.0),
                        (hash ∷ later.passed.1.0, (told, later.passed.1.1)),
                      );
                      error = later.error;
                      fails =
                          subst (λ k. Fails answers b base k later.op later.error) index
                            later.fails;
                      reported =
                          outcome-then_ok answers step rest next (err later.error) passes
                            later.reported;
                    })
              ]
        ]

module _ ⦃u : Uint⦄ ⦃f : Format⦄ ⦃abi : Abi⦄ (answers : (c : Call) → Answer c) (b : Bundler)
    (opts : BuildOpts) (ops : List UserOpV07) (hm : IsU256 b.cfg.min_priority_fee_wei)
    (w : All IsUserOp ops) where
  pub tests_passed :
      opts.chain_id ≡ b.cfg.chain_id
      → 0 < length ops
      → length ops ≤ b.cfg.max_batch_size
      → outcome answers (build_inner b ops opts) ≡ outcome answers (build_batch b ops opts.submit)
  unfolding build_inner
  tests_passed chain filled few =
      rw
        (
          eq→true opts.chain_id b.cfg.chain_id chain,
          ne→false (length ops) 0 (λ z. omega (arith, z, filled)),
          le→ltb b.cfg.max_batch_size (length ops) few,
        )
        refl

  loop_reported :
      (base suggested : ℕ) (e : BundlerError)
      → answers (query base_fee) ≡ inl base
      → answers (query max_priority_fee) ≡ inl suggested
      → outcome answers (check_ops b base (answers unix_now) 0 ops no_ops) ≡ err e
      → outcome answers (build_batch b ops opts.submit) ≡ err e
  unfolding build_batch
  loop_reported base suggested e base_read suggested_read h =
      outcome-continue_ok answers (with_base answers b opts.submit ops)
        (answered provider (answers (query base_fee))) base (err e)
        (ap (answered provider) base_read)
        (outcome-continue_ok answers (with_suggested answers b opts.submit ops base)
          (answered provider (answers (query max_priority_fee))) suggested (err e)
          (ap (answered provider) suggested_read)
          (outcome-then_err answers (check_ops b base (answers unix_now) 0 ops no_ops)
            (after_loop answers b opts.submit ops base suggested) e h))

  -- Take operations and a minimum fee in the ranges of their types, and a world that answers every
  -- call the same way whenever it is made, the base fee and the suggested tip with numbers, the first
  -- in range. A request for the bundler's chain with a batch that is neither empty nor too large
  -- either has operations that all pass, and whose hashes the world tells, or it ends in the error
  -- of its first operation that fails: of the first check that fails there, with its index.
  pub build_inner-FirstFails :
      (base suggested : ℕ)
      → IsU256 base
      → answers (query base_fee) ≡ inl base
      → answers (query max_priority_fee) ≡ inl suggested
      → opts.chain_id ≡ b.cfg.chain_id
      → 0 < length ops
      → length ops ≤ b.cfg.max_batch_size
      → AllPass answers b base ops
        ⊎ FirstFails answers b base 0 ops (run (steady answers) (build_inner b ops opts) []).0
  build_inner-FirstFails base suggested hb base_read suggested_read chain filled few =
      elim (loop_decided answers b base hb hm 0 ops no_ops w) [
        | inl passes ↦ inl passes
        | inr g ↦ inr (record {
          before = g.before;
          op = g.op;
          after = g.after;
          split = g.split;
          passed = g.passed;
          error = g.error;
          fails = g.fails;
          reported =
              run-steady answers (build_inner b ops opts) []
              ∙ tests_passed chain filled few
              ∙ loop_reported base suggested g.error base_read suggested_read g.reported;
        })
      ]
