-- ===== src/Bundler/Pipeline/Accepts/Batch.antt =====
-- `build_batch` against a steady world, from the base fee to the response.
use ethera_bundler.Base.{
  ℕ, ◌<◌, ◌≡◌, refl, sym, ap, ◌∙◌, Bool, List, ◌∷◌, ◌++◌, String, All, All-back, some, Result, ok,
  inl, arith,
}
use ethera_bundler.Alloy.{Uint, u128_mod}
use ethera_bundler.Contracts.{Abi}
use ethera_bundler.Types.{UserOpV07, SignedTxResp, IsUserOp, IsU256}
use ethera_bundler.Packing.Fields.{limit_numbers, gas_numbers, fee_numbers}
use ethera_bundler.Provider.{base_fee, max_priority_fee}
use ethera_bundler.Program.{Call, Answer, query, unix_now, answered}
use ethera_bundler.Program.Steady.{
  outcome, outcome-continue, outcome-continue_ok, outcome-then_ok, outcome-eq-ok, bind-eq-ok,
  answered-eq-ok,
}
use ethera_bundler.Errors.{Format, BundlerError, provider}
use ethera_bundler.Bundler.Policy.Fees.{least, least-le, least_total}
use ethera_bundler.Bundler.Pipeline.{
  Bundler, Batch, no_ops, Outer, check_ops, prepare, finish, build_batch,
}
use ethera_bundler.Bundler.Pipeline.Checks.{tips_of, caps_of}
use ethera_bundler.Bundler.Pipeline.Accepts.{IsPassing}
use ethera_bundler.Bundler.Pipeline.Accepts.Loop.{check_ops-ok_iff}
use ethera_bundler.Bundler.Pipeline.Accepts.Outer.{Signed, prepare-ok_iff}
use ethera_bundler.Bundler.Pipeline.Accepts.Submission.{finish-ok_iff}
use ethera_bundler.Bundler.Pipeline.Accepts.Response.{
  with_base, with_suggested, envelope_of, outer_for, IsBuildable, batch_of, gather-batch_of,
  complete, after_loop, after_loop_built,
}

module _ ⦃u : Uint⦄ (answers : (c : Call) → Answer c) (b : Bundler) (base : ℕ) (op : UserOpV07)
    (g : IsPassing answers b base op) where
  fee_fits : (op.max_priority_fee_per_gas < u128_mod) × (op.max_fee_per_gas < u128_mod)
  fee_fits =
      let Fits : ℕ × String → Type 0 = λ n. n.0 < u128_mod in
      let fits : All Fits (fee_numbers op) =
        All-back Fits (gas_numbers op) (fee_numbers op)
          (All-back Fits (limit_numbers op) (gas_numbers op ++ fee_numbers op) g.fits) in
      (fits.0, fits.1.0)

module _ ⦃u : Uint⦄ ⦃f : Format⦄ ⦃abi : Abi⦄ (answers : (c : Call) → Answer c) (b : Bundler)
    (submit : Bool) (op : UserOpV07) (ops : List UserOpV07) (resp : SignedTxResp)
    (hm : IsU256 b.cfg.min_priority_fee_wei) (w : All IsUserOp (op ∷ ops))
    (typed : (n : ℕ) → answers (query base_fee) ≡ inl n → IsU256 n) where
  least_tip_fits :
      (mt bound : ℕ)
      → least (tips_of (op ∷ ops)) ≡ some mt
      → op.max_priority_fee_per_gas < bound
      → mt < bound
  least_tip_fits mt bound e h = omega (arith, h, (least-le mt (tips_of (op ∷ ops)) e).0)

  pub build_batch_built :
      outcome answers (build_batch b (op ∷ ops) submit) ≡ ok resp
      → IsBuildable b answers (op ∷ ops) submit resp
  unfolding build_batch
  build_batch_built h =
      let (base, e1, h1) =
        outcome-continue answers (with_base answers b submit (op ∷ ops))
          (answered provider (answers (query base_fee))) resp h in
      let (suggested, e2, h2) =
        outcome-continue answers (with_suggested answers b submit (op ∷ ops) base)
          (answered provider (answers (query max_priority_fee))) resp h1 in
      let base_read = answered-eq-ok provider (answers (query base_fee)) base e1 in
      let suggested_read =
        answered-eq-ok provider (answers (query max_priority_fee)) suggested e2 in
      let hb : IsU256 base = typed base base_read in
      let rest = after_loop answers b submit (op ∷ ops) base suggested in
      let (batch, e3, h3) =
        outcome-eq-ok answers (check_ops b base (answers unix_now) 0 (op ∷ ops) no_ops) rest resp
          h2 in
      let (passing, (hashes, told, same)) =
        (check_ops-ok_iff answers b base hb hm 0 (op ∷ ops) no_ops batch w).0 e3 in
      let (mt, et) = least_total op.max_priority_fee_per_gas (tips_of ops) in
      let (mc, ec) = least_total op.max_fee_per_gas (caps_of ops) in
      let whole = same ∙ gather-batch_of answers b (op ∷ ops) hashes mt mc told et ec in
      after_loop_built answers b submit (op ∷ ops) base suggested hb base_read suggested_read
        passing hashes mt mc resp (least_tip_fits mt _ et w.0.max_priority_fee_per_gas) told et ec
        (ap (λ t. outcome answers (rest t)) (sym whole) ∙ h3)

  -- A batch that is buildable in one mode leads in each mode to the end of `build_inner`, with the
  -- outer transaction of the response.
  pub built-complete :
      {mode : Bool} (g : IsBuildable b answers (op ∷ ops) mode resp)
      (y : Result BundlerError SignedTxResp)
      → outcome answers (
          complete answers b submit
            (op ∷ ops)
            g.base
            g.suggested
            (batch_of (op ∷ ops) resp.user_op_hashes g.min_tip resp.max_fee_per_gas)
            (outer_for b (op ∷ ops) resp))
        ≡ y
      → outcome answers (build_batch b (op ∷ ops) submit) ≡ y
  unfolding build_batch
  built-complete g y h =
      let hb : IsU256 g.base = typed g.base g.base_read in
      let rest = after_loop answers b submit (op ∷ ops) g.base g.suggested in
      let batch : Batch = batch_of (op ∷ ops) resp.user_op_hashes g.min_tip resp.max_fee_per_gas in
      let outer : Outer = outer_for b (op ∷ ops) resp in
      let prepared =
        (prepare-ok_iff answers b g.base g.suggested g.min_tip resp.max_fee_per_gas batch outer hb
            (least_tip_fits g.min_tip _ g.min_tip_least w.0.max_priority_fee_per_gas) refl refl).1
          (g.estimate, g.estimated, rw (sym g.tip) g.covers, rw (g.gas, g.tip) refl) in
      outcome-continue_ok answers (with_base answers b submit (op ∷ ops))
        (answered provider (answers (query base_fee))) g.base y (ap (answered provider) g.base_read)
        (outcome-continue_ok answers (with_suggested answers b submit (op ∷ ops) g.base)
          (answered provider (answers (query max_priority_fee))) g.suggested y
          (ap (answered provider) g.suggested_read)
          (outcome-then_ok answers (check_ops b g.base (answers unix_now) 0 (op ∷ ops) no_ops) rest
            batch y
            ((check_ops-ok_iff answers b g.base hb hm 0 (op ∷ ops) no_ops batch w).1 (
              g.passing,
              (
                resp.user_op_hashes,
                g.hashed,
                sym (
                    gather-batch_of answers b (op ∷ ops) resp.user_op_hashes g.min_tip
                      resp.max_fee_per_gas g.hashed g.min_tip_least g.cap),
              ),
            ))
            (outcome-then_ok answers (prepare b g.base g.suggested batch)
              (complete answers b submit (op ∷ ops) g.base g.suggested batch) outer y prepared h)))

  -- Its transaction is signed.
  pub built-Signed :
      {mode : Bool}
      → IsBuildable b answers (op ∷ ops) mode resp
      → Signed answers b (outer_for b (op ∷ ops) resp) (envelope_of resp)
  built-Signed g =
      let (tip_fits, cap_fits) = fee_fits answers b g.base op g.passing.0 in
      let low : resp.max_priority_fee_per_gas < u128_mod =
        omega (arith, g.tip, least_tip_fits g.min_tip u128_mod g.min_tip_least tip_fits) in
      let narrow : resp.max_fee_per_gas < u128_mod =
        omega (arith, cap_fits, (least-le resp.max_fee_per_gas (caps_of (op ∷ ops)) g.cap).0) in
      (narrow, low, (g.nonce, g.nonce_read, g.signed))

  pub built-build_batch :
      IsBuildable b answers (op ∷ ops) submit resp
      → outcome answers (build_batch b (op ∷ ops) submit) ≡ ok resp
  built-build_batch g =
      let outer : Outer = outer_for b (op ∷ ops) resp in
      built-complete g (ok resp) (
        bind-eq-ok answers (finish b submit outer) _ resp (envelope_of resp)
          ((finish-ok_iff answers b outer submit (envelope_of resp)).1 (built-Signed g, g.mined))
          (rw (sym g.to, sym g.chain_id) refl))
