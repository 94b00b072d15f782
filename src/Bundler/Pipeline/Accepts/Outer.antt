-- ===== src/Bundler/Pipeline/Accepts/Outer.antt =====
-- The outer transaction against a steady world: its fees, its nonce and its signature.
use ethera_bundler.Base.{
  ℕ, ◌+◌, ◌≤◌, ◌<◌, ◌≡◌, refl, sym, ap, ◌↔◌, min, String, true, some, Result, ok, err, leb, inl,
  if◌then◌else◌, arith,
}
use ethera_bundler.Alloy.{Uint, u128_mod, Hash}
use ethera_bundler.Contracts.{Abi}
use ethera_bundler.Config.{BundlerConfig}
use ethera_bundler.Types.{IsU256}
use ethera_bundler.Provider.{
  ReceiptInfo, pending_nonce, estimate_handle_ops_gas, send_raw_transaction, wait_for_receipt,
}
use ethera_bundler.Signer.{TxEnvelope}
use ethera_bundler.Program.{
  Call, Answer, query, sign_eip1559, Program, done, ask, continue, answered,
}
use ethera_bundler.Program.Steady.{
  outcome, outcome-continue, outcome_after, continue-eq-ok, answered-eq-ok,
}
use ethera_bundler.Errors.{Format, BundlerError, provider, signer}
use ethera_bundler.Bundler.Policy.{u128_from_u256, choose_outer_fees, gas_with_margin, expect}
use ethera_bundler.Bundler.Policy.Fees.{u256_max}
use ethera_bundler.Bundler.Policy.Outer.{outer_tip, choose_outer_fees_lem, u128_from_u256-eq-ok}
use ethera_bundler.Bundler.Pipeline.{Bundler, Batch, Outer, sign_outer, prepare, receipt_timeout_ms}
use ethera_bundler.Bundler.Pipeline.Build.{outer_tx}
use ethera_bundler.Bundler.Pipeline.Prepare.{outer_of}

u128_fits : (v : ℕ) (field : String) → v < u128_mod → u128_from_u256 v field ≡ ok v
unfolding u128_from_u256
u128_fits v field h = ground arith

choose-ok_iff :
    ⦃u : Uint⦄ ⦃f : Format⦄ (cfg : BundlerConfig) (base suggested mt mc : ℕ) (fees : ℕ × ℕ)
    → IsU256 base
    → IsU256 mt
    → (choose_outer_fees cfg base suggested mt mc ≡ ok fees) ↔ (
        (min (base + outer_tip cfg suggested mt) u256_max ≤ mc)
        × (fees ≡ (outer_tip cfg suggested mt, mc)))
choose-ok_iff cfg base suggested mt mc fees hb ht =
    rw (choose_outer_fees_lem cfg base suggested mt mc hb ht)
      (decide (min (base + outer_tip cfg suggested mt) u256_max) _ _)
  where
    decide :
        (low : ℕ) (pair : ℕ × ℕ) (e : BundlerError)
        → ((if leb low mc then ok pair else err e) ≡ ok fees) ↔ ((low ≤ mc) × (fees ≡ pair))
    decide low pair e = ground arith

module _ ⦃u : Uint⦄ ⦃f : Format⦄ ⦃abi : Abi⦄ (answers : (c : Call) → Answer c) (b : Bundler) where
  -- The outer transaction of a batch with a smallest tip and cap.
  pub prepare-ok_iff :
      (base suggested mt mc : ℕ) (batch : Batch) (outer : Outer)
      → IsU256 base
      → IsU256 mt
      → batch.min_user_tip ≡ some mt
      → batch.min_user_fee_cap ≡ some mc
      → let input = abi.encode_handle_ops batch.packed_ops b.signer_address in
        (outcome answers (prepare b base suggested batch) ≡ ok outer) ↔ (
          (estimate : ℕ) × (answers
              (query (estimate_handle_ops_gas b.signer_address b.cfg.entrypoint_address input))
            ≡ inl estimate)
          × (min (base + outer_tip b.cfg suggested mt) u256_max ≤ mc)
          × (outer ≡ outer_of b batch suggested estimate mt mc))
  unfolding prepare
  prepare-ok_iff base suggested mt mc batch outer hb ht et ec =
      let input = abi.encode_handle_ops batch.packed_ops b.signer_address in
      let make : ℕ → ℕ × ℕ → Program (Result BundlerError Outer) = λ estimate fees. done (
        ok (record {
          gas = gas_with_margin estimate b.cfg.gas_margin_pct;
          tip = fees.0;
          fee_cap = fees.1;
          call_data = input;
        })) in
      let choose : ℕ → ℕ → ℕ → Program (Result BundlerError Outer) = λ estimate tip cap.
        continue (make estimate) (choose_outer_fees b.cfg base suggested tip cap) in
      let with_tip : ℕ → ℕ → Program (Result BundlerError Outer) = λ estimate tip.
        continue (choose estimate tip) (expect batch.min_user_fee_cap "non-empty batch") in
      let estimated : ℕ → Program (Result BundlerError Outer) =
        λ estimate. continue (with_tip estimate) (expect batch.min_user_tip "non-empty batch") in
      let reply =
        answers (query (estimate_handle_ops_gas b.signer_address b.cfg.entrypoint_address input)) in
      let tips = ap (λ o. expect {E = BundlerError} o "non-empty batch") et in
      let caps = ap (λ o. expect {E = BundlerError} o "non-empty batch") ec in
      (
        λ h.
            let (estimate, e, h1) =
              outcome-continue answers estimated (answered provider reply) outer h in
            let h2 = outcome_after answers (with_tip estimate) _ outer mt tips h1 in
            let h3 = outcome_after answers (choose estimate mt) _ outer mc caps h2 in
            let (fees, chosen, h4) =
              outcome-continue answers (make estimate)
                (choose_outer_fees b.cfg base suggested mt mc) outer h3 in
            let (covers, same) = (choose-ok_iff b.cfg base suggested mt mc fees hb ht).0 chosen in
            (estimate, answered-eq-ok provider reply estimate e, covers, cc),
        λ (estimate, e, covers, same).
            continue-eq-ok answers estimated (answered provider reply) outer estimate
              (ap (answered provider) e)
              (continue-eq-ok answers (with_tip estimate) _ outer mt tips (
                continue-eq-ok answers (choose estimate mt) _ outer mc caps (
                  continue-eq-ok answers (make estimate)
                    (choose_outer_fees b.cfg base suggested mt mc) outer
                    (outer_tip b.cfg suggested mt, mc)
                    ((choose-ok_iff b.cfg base suggested mt mc _ hb ht).1 (covers, refl))
                    (ap ok (sym same))))),
      )

module _ (answers : (c : Call) → Answer c) where
  -- The node takes the broadcast and tells a receipt of success.
  abbrev pub Mined : TxEnvelope → Type 0
  Mined envelope =
      ((sent : Hash) × (answers (query (send_raw_transaction envelope.encoded_2718)) ≡ inl sent))
      × ((info : ReceiptInfo) × (answers
              (query (wait_for_receipt envelope.tx_hash receipt_timeout_ms))
            ≡ inl (some info))
          × (info.success ≡ true))

  module _ (b : Bundler) (outer : Outer) where
    -- The node tells a nonce, and the transaction with it is signed; its fees fit 128 bits.
    abbrev pub Signed : TxEnvelope → Type 0
    Signed envelope =
        (outer.fee_cap < u128_mod)
        × (outer.tip < u128_mod)
        × ((nonce : ℕ) × (answers (query (pending_nonce b.signer_address)) ≡ inl nonce)
            × (answers (sign_eip1559 (outer_tx b outer nonce)) ≡ inl envelope))

module _ ⦃u : Uint⦄ ⦃f : Format⦄ ⦃abi : Abi⦄ (answers : (c : Call) → Answer c) (b : Bundler)
    (outer : Outer) where
  pub sign_outer-ok_iff :
      (envelope : TxEnvelope)
      → (outcome answers (sign_outer b outer) ≡ ok envelope) ↔ Signed answers b outer envelope
  unfolding sign_outer
  sign_outer-ok_iff envelope =
      let nonce_reply = answers (query (pending_nonce b.signer_address)) in
      let sign : ℕ → ℕ → ℕ → Program (Result BundlerError TxEnvelope) = λ nonce cap tip.
        ask
          (sign_eip1559 (record (outer_tx b outer nonce) {
            max_fee_per_gas = cap;
            max_priority_fee_per_gas = tip;
          }))
          (λ r. done (answered signer r)) in
      let with_cap : ℕ → ℕ → Program (Result BundlerError TxEnvelope) = λ nonce cap.
        continue (sign nonce cap) (u128_from_u256 outer.tip "outer maxPriorityFeePerGas") in
      let with_nonce : ℕ → Program (Result BundlerError TxEnvelope) =
        λ nonce. continue (with_cap nonce) (u128_from_u256 outer.fee_cap "outer maxFeePerGas") in
      (
        λ h.
            let (nonce, e, h1) =
              outcome-continue answers with_nonce (answered provider nonce_reply) envelope h in
            let (cap, caps, _) = outcome-continue answers (with_cap nonce) _ envelope h1 in
            let narrow = (u128_from_u256-eq-ok outer.fee_cap "outer maxFeePerGas" caps).0 in
            let h2 =
              outcome_after answers (with_cap nonce) _ envelope outer.fee_cap
                (u128_fits outer.fee_cap "outer maxFeePerGas" narrow) h1 in
            let (tip, tips, _) =
              outcome-continue answers (sign nonce outer.fee_cap) _ envelope h2 in
            let low = (u128_from_u256-eq-ok outer.tip "outer maxPriorityFeePerGas" tips).0 in
            let h3 =
              outcome_after answers (sign nonce outer.fee_cap) _ envelope outer.tip
                (u128_fits outer.tip "outer maxPriorityFeePerGas" low) h2 in
            (
              narrow,
              low,
              (
                nonce,
                answered-eq-ok provider nonce_reply nonce e,
                answered-eq-ok signer (answers (sign_eip1559 (outer_tx b outer nonce))) envelope h3,
              ),
            ),
        λ (narrow, low, (nonce, e, signs)).
            continue-eq-ok answers with_nonce (answered provider nonce_reply) envelope nonce
              (ap (answered provider) e)
              (continue-eq-ok answers (with_cap nonce) _ envelope outer.fee_cap
                (u128_fits outer.fee_cap "outer maxFeePerGas" narrow)
                (continue-eq-ok answers (sign nonce outer.fee_cap) _ envelope outer.tip
                  (u128_fits outer.tip "outer maxPriorityFeePerGas" low)
                  (ap (answered signer) signs))),
      )
