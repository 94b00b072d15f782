-- ===== src/Bundler/Pipeline/Accepts/Refused.antt =====
-- An operation that fails makes the loop's body end in the error of its failure.
use ethera_bundler.Base.{
  ℕ, ◌<◌, ◌≡◌, ◌⊎◌, refl, ap, ◌∙◌, Option, Result, ok, err, map_err, inl, inr, lt→ltb, length,
  arith,
}
use ethera_bundler.Alloy.{Uint, Address}
use ethera_bundler.Contracts.{Abi, ValidationResult}
use ethera_bundler.Types.{UserOpV07, IsUserOp, IsU256}
use ethera_bundler.Packing.{
  PackError, overflow, paymaster_and_data_too_short, paymaster_header_len, parse_paymaster_and_data,
}
use ethera_bundler.Packing
use ethera_bundler.Packing.Blob.{parse_paymaster_and_data_short}
use ethera_bundler.Packing.Fields.{packed, packed_blob, checked, pack_lem}
use ethera_bundler.Provider.{ProviderError}
use ethera_bundler.Validator
use ethera_bundler.Validator.{ValidationReport, ValidationError, simulate, judge}
use ethera_bundler.Validator.Verdict.{judge-ok_iff, judge-eq-err}
use ethera_bundler.Program.{Call, Answer, unix_now, Program, done, continue, answered}
use ethera_bundler.Program.Steady.{
  outcome, outcome-bind, outcome-continue_ok, outcome-continue_err, outcome-then_ok,
  outcome-then_err,
}
use ethera_bundler.Errors.{Format, BundlerError, pack, validation, provider, insufficient_deposit}
use ethera_bundler.Config.{BundlerConfig}
use ethera_bundler.Bundler.Policy.{check_per_op_fees, check_deposit, required_prefund, sponsor_of}
use ethera_bundler.Bundler.Policy.Fees.{IsPriced, check_per_op_fees-ok_iff}
use ethera_bundler.Bundler.Policy.Prefund.{required_prefund_lem}
use ethera_bundler.Bundler.Pipeline.{Bundler, Batch, check_prefund, check_op}
use ethera_bundler.Bundler.Pipeline.Accepts.{charged, IsWhole, IsFunded, IsPassing, hash_answer}
use ethera_bundler.Bundler.Pipeline.Accepts.Funding.{packed_blob-charged, packed_blob_given}
use ethera_bundler.Bundler.Pipeline.Accepts.Prefund.{paid, check_prefund-ok_iff}
use ethera_bundler.Bundler.Pipeline.Accepts.Operation.{
  pack-ok_iff, simulation, hashed, checked_then, pack_step, after_prefund, after_simulation, add,
}
use ethera_bundler.Bundler.Pipeline.Accepts.Failure.{
  Fits, cost, balance_answer, simulation_answer, Fails, unpriced, too_wide, short_blob, no_balance,
  too_poor, not_simulated, rejected, no_hash,
}

poor_deposit :
    ⦃u : Uint⦄ ⦃f : Format⦄ (cfg : BundlerConfig) (i : ℕ) (payer : Address) (required deposit : ℕ)
    → deposit < required
    → check_deposit cfg i payer required deposit
      ≡ err (insufficient_deposit i (f.debug payer) (f.show required) (f.show deposit))
unfolding check_deposit
poor_deposit cfg i payer required deposit h = rw (lt→ltb deposit required h) refl

module _ ⦃u : Uint⦄ ⦃f : Format⦄ ⦃abi : Abi⦄ (answers : (c : Call) → Answer c) (b : Bundler)
    (base i : ℕ) (op : UserOpV07) (w : IsUserOp op) where
  -- The prefund check on a blob that is too short, and for a payer.
  prefund_short :
      0 < length op.paymaster_and_data
      → length op.paymaster_and_data < paymaster_header_len
      → outcome answers (check_prefund b i op (packed op))
        ≡ err (pack (paymaster_and_data_too_short (length op.paymaster_and_data)))
  unfolding check_prefund
  prefund_short filled short =
      let parse = map_err pack (parse_paymaster_and_data (packed_blob op)) in
      let pay : Option (Address × ℕ × ℕ) → Program (Result BundlerError (Unit {0})) =
        λ parsed. paid answers b i op (sponsor_of op parsed) in
      let given = packed_blob_given op filled in
      outcome-continue_err answers pay parse _ (
        ap (map_err pack) (
          ap parse_paymaster_and_data given
          ∙ parse_paymaster_and_data_short op.paymaster_and_data filled short))

  prefund_paid :
      (y : Result BundlerError (Unit {0}))
      → Fits op
      → IsWhole op.paymaster_and_data
      → outcome answers (paid answers b i op (charged op)) ≡ y
      → outcome answers (check_prefund b i op (packed op)) ≡ y
  unfolding check_prefund
  prefund_paid y fits whole h =
      let (parsed, e, payer_is, hv, hp) = packed_blob-charged op w fits whole in
      let pay : Option (Address × ℕ × ℕ) → Program (Result BundlerError (Unit {0})) =
        λ parsed. paid answers b i op (sponsor_of op parsed) in
      outcome-continue_ok answers pay (map_err pack (parse_paymaster_and_data (packed_blob op)))
        parsed y (ap (map_err pack) e)
        (ap (λ c. outcome answers (paid answers b i op c)) payer_is ∙ h)

  prefund_poor :
      (deposit : ℕ)
      → Fits op
      → IsWhole op.paymaster_and_data
      → balance_answer answers b base i op ≡ inl deposit
      → deposit < cost op
      → outcome answers (check_prefund b i op (packed op))
        ≡ err (insufficient_deposit i (f.debug (charged op).0) (f.show (cost op)) (f.show deposit))
  prefund_poor deposit fits whole told poor =
      let (_, _, _, hv, hp) = packed_blob-charged op w fits whole in
      let (payer, ver, post) = charged op in
      let same = required_prefund_lem op ver post w (omega (arith, hv)) (omega (arith, hp)) in
      let test : ℕ → Program (Result BundlerError (Unit {0})) =
        λ d. done (check_deposit b.cfg i payer (required_prefund op ver post) d) in
      prefund_paid _ fits whole (
        outcome-continue_ok answers test (answered provider (balance_answer answers b base i op))
          deposit _ (ap (answered provider) told)
          (ap (λ r. check_deposit b.cfg i payer r deposit) same
            ∙ poor_deposit b.cfg i payer (cost op) deposit poor))

  simulation_step :
      (raw : ValidationResult ⊎ ProviderError) (y : Result ValidationError ValidationReport)
      → simulation_answer answers b base i op ≡ raw
      → outcome answers
          (continue (λ r. done (judge r (answers unix_now))) (answered Validator.provider raw))
        ≡ y
      → outcome answers (simulation answers b i op (packed op)) ≡ map_err validation y
  unfolding simulate
  simulation_step raw y told h =
      let report_on : ValidationResult → Program (Result ValidationError ValidationReport) =
        λ r. done (judge r (answers unix_now)) in
      let step : Result ValidationError ValidationReport
          → Program (Result BundlerError ValidationReport) =
        λ r. done (map_err validation r) in
      outcome-bind answers
        (simulate b.cfg.entrypoint_address b.simulations_code (packed op) (answers unix_now)) step
      ∙ ap (map_err validation)
          (ap (λ a. outcome answers (continue report_on (answered Validator.provider a))) told ∙ h)

  module _ (batch : Batch) (y : Result BundlerError Batch) (hb : IsU256 base)
      (hm : IsU256 b.cfg.min_priority_fee_wei) where
    abbrev body : Result BundlerError Batch
    body = outcome answers (check_op b base (answers unix_now) i op batch)

    -- How far the body comes, and what is left of it then.
    past_fees :
        IsPriced b.cfg base op → outcome answers (pack_step answers b i op batch tt) ≡ y → body ≡ y
    unfolding check_op
    past_fees g h =
        outcome-continue_ok answers (pack_step answers b i op batch)
          (check_per_op_fees b.cfg i op base) tt y
          ((check_per_op_fees-ok_iff b.cfg i base op hb hm).1 g) h

    past_packing :
        IsPriced b.cfg base op
        → Fits op
        → outcome answers (checked_then answers b i op batch (packed op)) ≡ y
        → body ≡ y
    past_packing g fits h = past_fees g (
        outcome-continue_ok answers (checked_then answers b i op batch)
          (map_err pack (Packing.pack op)) (packed op) y
          (ap (map_err pack) ((pack-ok_iff op w (packed op)).1 (fits, refl))) h)

    past_prefund :
        IsPriced b.cfg base op
        → Fits op
        → IsFunded answers b op
        → outcome answers (after_prefund answers b i op batch (packed op) tt) ≡ y
        → body ≡ y
    past_prefund g fits funds h = past_packing g fits (
        outcome-then_ok answers (check_prefund b i op (packed op))
          (after_prefund answers b i op batch (packed op)) tt y
          ((check_prefund-ok_iff answers b i op w fits).1 funds) h)

    past_simulation :
        (g : IsPassing answers b base op)
        → outcome answers (hashed answers b i op batch (packed op)) ≡ y
        → body ≡ y
    past_simulation g h =
        let (report, good) = (judge-ok_iff g.result (answers unix_now)).1 g.acceptable in
        past_prefund g.priced g.fits g.funded (
          outcome-then_ok answers (simulation answers b i op (packed op))
            (after_simulation answers b i op batch (packed op)) report y
            (simulation_step (inl g.result) (ok report) g.simulated good) h)

  -- For an operation and fees in the ranges of their types, the loop's body ends in the error of the
  -- operation's failure.
  pub op_failed :
      (batch : Batch) (e : BundlerError)
      → IsU256 base
      → IsU256 b.cfg.min_priority_fee_wei
      → Fails answers b base i op e
      → outcome answers (check_op b base (answers unix_now) i op batch) ≡ err e
  unfolding check_op
  op_failed batch _ hb hm (unpriced e' h) =
      outcome-continue_err answers (pack_step answers b i op batch)
        (check_per_op_fees b.cfg i op base) e' h
  op_failed batch _ hb hm (too_wide field g h) = past_fees batch _ hb hm g (
      outcome-continue_err answers (checked_then answers b i op batch)
        (map_err pack (Packing.pack op)) _
        (ap (map_err pack) (pack_lem op w ∙ ap (λ o. checked o (packed op)) h)))
  op_failed batch _ hb hm (short_blob g fits filled short) = past_packing batch _ hb hm g fits (
      outcome-then_err answers (check_prefund b i op (packed op))
        (after_prefund answers b i op batch (packed op)) _ (prefund_short filled short))
  op_failed batch _ hb hm (no_balance e' g fits whole told) = past_packing batch _ hb hm g fits (
      outcome-then_err answers (check_prefund b i op (packed op))
        (after_prefund answers b i op batch (packed op)) _
        (prefund_paid _ fits whole (
          outcome-continue_err answers
            (λ deposit. done (
              check_deposit b.cfg i (charged op).0
                (required_prefund op (charged op).1 (charged op).2) deposit))
            (answered provider (balance_answer answers b base i op)) _
            (ap (answered provider) told))))
  op_failed batch _ hb hm (too_poor deposit g fits whole told poor) =
      past_packing batch _ hb hm g fits (
        outcome-then_err answers (check_prefund b i op (packed op))
          (after_prefund answers b i op batch (packed op)) _
          (prefund_poor deposit fits whole told poor))
  op_failed batch _ hb hm (not_simulated e' g fits funds told) =
      past_prefund batch _ hb hm g fits funds (
        outcome-then_err answers (simulation answers b i op (packed op))
          (after_simulation answers b i op batch (packed op)) _
          (simulation_step (inr e') _ told refl))
  op_failed batch _ hb hm (rejected raw v g fits funds told bad) =
      past_prefund batch _ hb hm g fits funds (
        outcome-then_err answers (simulation answers b i op (packed op))
          (after_simulation answers b i op batch (packed op)) _
          (simulation_step (inl raw) (err v) told (judge-eq-err raw (answers unix_now) v bad)))
  op_failed batch _ hb hm (no_hash e' g told) = past_simulation batch _ hb hm g (
      outcome-continue_err answers (add answers b i op batch (packed op))
        (answered provider (hash_answer answers b op)) _ (ap (answered provider) told))
