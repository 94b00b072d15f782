-- ===== src/Errors/Classify.antt =====
-- crates/bundler/src/errors.rs: `classify`, the JSON-RPC code and the data of each error.
pub mod Codes
pub mod Data
use text.Mathlib.Text.{starts_with}
use ethera_bundler.Base.{ℕ, String, ◌<>◌, List, [], ◌∷◌, if◌then◌else◌}
use ethera_bundler.Base.Int.{ℤ, minus}
use ethera_bundler.Validator.{
  ValidationError, account_signature_failed, paymaster_signature_failed, out_of_time_range,
  unsupported_aggregator,
}
use ethera_bundler.Errors.{
  Format, HandleOpsRevertReason, failed_op, failed_op_with_revert, signature_validation_failed,
  post_op_reverted, standard_error, panicked, unknown, BundlerError, wrong_chain_id, invalid_batch,
  batch_too_large, invalid_user_op, priority_fee_too_low, fee_cap_too_low, insufficient_deposit,
  cancelled, receipt_timeout, handle_ops_reverted, pack, validation, signer,
}
use ethera_bundler.Errors.Json.{Value, num, str, Payload, set_key}
use ethera_bundler.Errors.Display.{provider_text, signer_text, pack_text}

abbrev pub invalid_params : ℤ
invalid_params = minus 32602

abbrev pub internal_error : ℤ
internal_error = minus 32603

abbrev pub simulate_validation_rejected : ℤ
simulate_validation_rejected = minus 32500

abbrev pub paymaster_rejected : ℤ
paymaster_rejected = minus 32501

abbrev pub out_of_time_range_code : ℤ
out_of_time_range_code = minus 32503

abbrev pub account_validation_reverted : ℤ
account_validation_reverted = minus 32521

-- The code of a `FailedOp` by the prefix of its reason.
unfoldable pub failed_op_code : String → ℤ
failed_op_code reason =
    if starts_with reason "AA3" then paymaster_rejected else simulate_validation_rejected

module _ ⦃f : Format⦄ where
  -- `HandleOpsRevertReason::classify`
  unfoldable pub classify_reason : HandleOpsRevertReason → ℤ × Payload
  unfolding failed_op_code
  classify_reason (failed_op i reason) =
      (failed_op_code reason, ("reason", str reason) ∷ ("opIndex", num i) ∷ [])
  classify_reason (failed_op_with_revert i reason inner) =
      (failed_op_code reason, ("reason", str reason) ∷ ("opIndex", num i) ∷ [])
  classify_reason (signature_validation_failed aggregator) = (
    simulate_validation_rejected,
    ("reason", str "SignatureValidationFailed") ∷ ("aggregator", str (f.debug aggregator)) ∷ [],
  )
  classify_reason (post_op_reverted return_data) = (
    paymaster_rejected,
    ("reason", str "PostOpReverted") ∷ ("returnData", str ("0x" <> f.hex_encode return_data)) ∷ [],
  )
  classify_reason (standard_error message) = (
    simulate_validation_rejected,
    ("reason", str "Error(string)") ∷ ("message", str message) ∷ [],
  )
  classify_reason (panicked code) = (
    simulate_validation_rejected,
    ("reason", str "Panic(uint256)") ∷ ("code", str ("0x" <> f.show_hex code)) ∷ [],
  )
  classify_reason (unknown raw) = (
    internal_error,
    ("reason", str "undecodedRevert") ∷ ("data", str ("0x" <> f.hex_encode raw)) ∷ [],
  )

  -- The arm of `classify` for a `ValidationError`.
  unfoldable pub classify_validation : ValidationError → ℤ × Payload
  classify_validation account_signature_failed =
      (simulate_validation_rejected, ("reason", str "AA24 signature error") ∷ [])
  classify_validation paymaster_signature_failed =
      (paymaster_rejected, ("reason", str "AA34 signature error") ∷ [])
  classify_validation (out_of_time_range now a_after a_until p_after p_until) = (
    out_of_time_range_code,
    ("reason", str "AA22 expired or not due")
        ∷ ("now", num now)
        ∷ ("accountValidAfter", num a_after)
        ∷ ("accountValidUntil", num a_until)
        ∷ ("paymasterValidAfter", num p_after)
        ∷ ("paymasterValidUntil", num p_until)
        ∷ [],
  )
  classify_validation unsupported_aggregator =
      (account_validation_reverted, ("reason", str "aggregator not supported") ∷ [])
  classify_validation (ValidationError.provider p) =
      (internal_error, ("reason", str (provider_text p)) ∷ [])

  unfoldable pub classify : BundlerError → ℤ × Payload
  unfolding classify_reason classify_validation
  classify (wrong_chain_id expected got) = (
    invalid_params,
    ("reason", str "wrongChainId") ∷ ("expected", num expected) ∷ ("got", num got) ∷ [],
  )
  classify (invalid_batch reason) = (invalid_params, ("reason", str reason) ∷ [])
  classify (batch_too_large got max) =
      (invalid_params, ("reason", str "batchTooLarge") ∷ ("got", num got) ∷ ("max", num max) ∷ [])
  classify (invalid_user_op i reason) =
      (invalid_params, ("opIndex", num i) ∷ ("reason", str reason) ∷ [])
  classify (priority_fee_too_low i got min) = (
    invalid_params,
    ("opIndex", num i)
        ∷ ("reason", str "priorityFeeTooLow")
        ∷ ("got", str got)
        ∷ ("min", str min)
        ∷ [],
  )
  classify (fee_cap_too_low i fee_cap required) = (
    invalid_params,
    ("opIndex", num i)
        ∷ ("reason", str "maxFeePerGasBelowBaseFee")
        ∷ ("maxFeePerGas", str fee_cap)
        ∷ ("required", str required)
        ∷ [],
  )
  classify (insufficient_deposit i sponsor required deposit) = (
    simulate_validation_rejected,
    ("opIndex", num i)
        ∷ ("reason", str "AA21 didn't pay prefund")
        ∷ ("sponsor", str sponsor)
        ∷ ("required", str required)
        ∷ ("deposit", str deposit)
        ∷ [],
  )
  classify cancelled = (internal_error, ("reason", str "shutdown in progress") ∷ [])
  classify (receipt_timeout tx_hash) =
      (internal_error, ("reason", str "receiptTimeout") ∷ ("txHash", str (f.debug tx_hash)) ∷ [])
  classify (handle_ops_reverted tx_hash block_number reason) =
      let (code, payload) = classify_reason reason in
      (
        code,
        set_key "blockNumber" (num block_number) (set_key "txHash" (str (f.debug tx_hash)) payload),
      )
  classify (pack e) = (invalid_params, ("reason", str (pack_text e)) ∷ [])
  classify (validation e) = classify_validation e
  classify (BundlerError.provider e) = (internal_error, ("reason", str (provider_text e)) ∷ [])
  classify (signer e) = (internal_error, ("reason", str (signer_text e)) ∷ [])
