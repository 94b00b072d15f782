-- ===== src/Bundler/Pipeline/Prepare.antt =====
-- `build_inner` from the loop over the operations to the outer fees.
use ethera_bundler.Base.{
  ℕ, ◌+◌, ◌≤◌, ◌≡◌, ◌∙◌, min, Bool, false, Bool-cases, List, ◌∷◌, none, some, Result, ok, err, leb,
  inl, inr, arith,
}
use ethera_bundler.Alloy.{Uint}
use ethera_bundler.Contracts.{Abi}
use ethera_bundler.Config.{BundlerConfig}
use ethera_bundler.Types.{UserOpV07, IsUserOp, IsU256}
use ethera_bundler.Program.{Program, done, continue}
use ethera_bundler.Program.Laws.{Safe}
use ethera_bundler.Errors.{Format, BundlerError, provider}
use ethera_bundler.Bundler.Policy.{gas_with_margin, choose_outer_fees}
use ethera_bundler.Bundler.Policy.Fees.{least, least-le, least_total, u256_max}
use ethera_bundler.Bundler.Policy.Outer.{outer_tip, choose_outer_fees_lem}
use ethera_bundler.Bundler.Pipeline.{Bundler, Batch, Outer, prepare}
use ethera_bundler.Bundler.Pipeline.Stage.{Stage, discipline}
use ethera_bundler.Bundler.Pipeline.Checks.{tips_of, caps_of, IsBatch}

-- The outer transaction of a batch: the smallest tip and cap of its operations, the base fee and
-- the suggested tip of the node, and the estimate.
abbrev pub outer_of :
    ⦃abi : Abi⦄ → Bundler → Batch → (suggested estimate min_tip min_cap : ℕ) → Outer
outer_of ⦃abi⦄ b batch suggested estimate min_tip min_cap = record {
  gas = gas_with_margin estimate b.cfg.gas_margin_pct;
  tip = outer_tip b.cfg suggested min_tip;
  fee_cap = min_cap;
  call_data = abi.encode_handle_ops batch.packed_ops b.signer_address;
}

module _ ⦃u : Uint⦄ ⦃f : Format⦄ (cfg : BundlerConfig) (base suggested min_tip min_cap : ℕ) where
  choose-elim :
      (Q : Result BundlerError (ℕ × ℕ) → Type 0)
      → IsU256 base
      → IsU256 min_tip
      → ((e : BundlerError) → Q (err e))
      → (min (base + outer_tip cfg suggested min_tip) u256_max ≤ min_cap
          → Q (ok (outer_tip cfg suggested min_tip, min_cap)))
      → Q (choose_outer_fees cfg base suggested min_tip min_cap)
  choose-elim Q hb ht he ho =
      rw (choose_outer_fees_lem cfg base suggested min_tip min_cap hb ht)
        (elim (Bool-cases (leb (min (base + outer_tip cfg suggested min_tip) u256_max) min_cap)) [
          | inl e ↦ rw e (ho (ground arith))
          | inr e ↦ rw e (he _)
        ])

module _ ⦃u : Uint⦄ ⦃f : Format⦄ ⦃abi : Abi⦄ (b : Bundler) (submit : Bool) where
  pub prepare-Safe :
      (Q : Stage → Result BundlerError Outer → Type 0) (s : Stage) (base suggested : ℕ)
      (batch : Batch) (op : UserOpV07) (ops : List UserOpV07)
      → s.held ≡ false
      → s.sent ≡ none
      → IsU256 base
      → IsUserOp op
      → IsBatch b.cfg base (op ∷ ops) batch
      → ((t : Stage) → t.held ≡ false → t.sent ≡ none → (e : BundlerError) → Q t (err e))
      → ((estimate min_tip min_cap : ℕ)
          → least (tips_of (op ∷ ops)) ≡ some min_tip
          → least (caps_of (op ∷ ops)) ≡ some min_cap
          → min (base + outer_tip b.cfg suggested min_tip) u256_max ≤ min_cap
          → Q
              (record s { estimate = some estimate })
              (ok (outer_of b batch suggested estimate min_tip min_cap)))
      → Safe (discipline b submit) s (prepare b base suggested batch) Q
  unfolding prepare
  prepare-Safe Q s base suggested batch op ops free unsent hb w g he ho =
      let P = discipline b submit in
      let (mt, et) = least_total op.max_priority_fee_per_gas (tips_of ops) in
      let (mc, ec) = least_total op.max_fee_per_gas (caps_of ops) in
      let below : mt ≤ op.max_priority_fee_per_gas = (least-le mt (tips_of (op ∷ ops)) et).0 in
      let ht : IsU256 mt = omega (arith, w.max_priority_fee_per_gas) in
      (
        (free, unsent),
        elim [
          | inr e ↦ λ _. he s free unsent (provider e)
          | inl estimate ↦ λ _.
              let make : ℕ × ℕ → Program (Result BundlerError Outer) = λ fees. done (
                ok (record {
                  gas = gas_with_margin estimate b.cfg.gas_margin_pct;
                  tip = fees.0;
                  fee_cap = fees.1;
                  call_data = abi.encode_handle_ops batch.packed_ops b.signer_address;
                })) in
              rw (g.tips ∙ et, g.caps ∙ ec)
                (choose-elim b.cfg base suggested mt mc
                  (λ r. Safe P (record s { estimate = some estimate }) (continue make r) Q) hb ht
                  (λ e. he (record s { estimate = some estimate }) free unsent e)
                  (λ covers. ho estimate mt mc et ec covers))
        ],
      )
