-- ===== src/Errors/Display.antt =====
-- crates/bundler/src/errors.rs and the error types that it wraps: the messages of the `#[error]`
-- attributes and of `impl Display for HandleOpsRevertReason`.
use ethera_bundler.Base.{String, ◌<>◌}
use ethera_bundler.Packing.{PackError, overflow, paymaster_and_data_too_short}
use ethera_bundler.Provider.{ProviderError, transport, empty_call, decode}
use ethera_bundler.Signer.{SignerError, invalid_key, signing}
use ethera_bundler.Validator.{
  ValidationError, account_signature_failed, paymaster_signature_failed, out_of_time_range,
  unsupported_aggregator,
}
use ethera_bundler.Errors.{
  Format, HandleOpsRevertReason, failed_op, failed_op_with_revert, signature_validation_failed,
  post_op_reverted, standard_error, panicked, unknown, BundlerError, wrong_chain_id, invalid_batch,
  batch_too_large, invalid_user_op, priority_fee_too_low, fee_cap_too_low, insufficient_deposit,
  cancelled, receipt_timeout, handle_ops_reverted, pack, validation, signer,
}

abbrev pub provider_text : ProviderError → String
provider_text (transport s) = "rpc transport error: " <> s
provider_text empty_call = "eth_call returned no data"
provider_text (decode s) = "abi decode failed: " <> s

abbrev pub signer_text : SignerError → String
signer_text (invalid_key s) = "invalid sequencer key: " <> s
signer_text (signing s) = "signing failed: " <> s

module _ ⦃f : Format⦄ where
  abbrev pub pack_text : PackError → String
  pack_text (overflow field) = "value exceeds uint128 bounds in " <> field
  pack_text (paymaster_and_data_too_short n) =
      "paymasterAndData too short: " <> (f.show n <> " bytes (need at least 52)")

  abbrev pub validation_text : ValidationError → String
  validation_text (ValidationError.provider e) = "provider error: " <> provider_text e
  validation_text account_signature_failed = "account signature validation failed"
  validation_text paymaster_signature_failed = "paymaster signature validation failed"
  validation_text (out_of_time_range now a_after a_until p_after p_until) =
      "userop out of time range (now="
      <> (f.show now
          <> (", account=["
              <> (f.show a_after
                  <> (".."
                      <> (f.show a_until
                          <> ("], paymaster=["
                              <> (f.show p_after <> (".." <> (f.show p_until <> "])")))))))))
  validation_text unsupported_aggregator = "aggregator-signed userops are not supported"

  abbrev pub reason_text : HandleOpsRevertReason → String
  reason_text (failed_op i reason) = "FailedOp[" <> (f.show i <> ("]: " <> reason))
  reason_text (failed_op_with_revert i reason inner) =
      "FailedOpWithRevert[" <> (f.show i <> ("]: " <> reason))
  reason_text (signature_validation_failed aggregator) =
      "SignatureValidationFailed: aggregator=" <> f.debug aggregator
  reason_text (post_op_reverted return_data) = "PostOpReverted"
  reason_text (standard_error m) = "Error(" <> (m <> ")")
  reason_text (panicked c) = "Panic(0x" <> (f.show_hex c <> ")")
  reason_text (unknown b) = "unknown revert: 0x" <> f.hex_encode b

  -- `to_string` of a `BundlerError`, which is the message of the JSON-RPC error.
  abbrev pub error_text : BundlerError → String
  error_text (wrong_chain_id expected got) =
      "wrong chainId: expected " <> (f.show expected <> (", got " <> f.show got))
  error_text (invalid_batch reason) = "invalid userOps batch: " <> reason
  error_text (batch_too_large got max) =
      "batch too large: " <> (f.show got <> (" > " <> f.show max))
  error_text (invalid_user_op i reason) = "op " <> (f.show i <> (": " <> reason))
  error_text (priority_fee_too_low i got min) =
      "op " <> (f.show i <> (": priority fee " <> (got <> (" below bundler minimum " <> min))))
  error_text (fee_cap_too_low i fee_cap required) =
      "op " <> (f.show i <> (": maxFeePerGas " <> (fee_cap <> (" below baseFee+tip " <> required))))
  error_text (insufficient_deposit i sponsor required deposit) =
      "op "
      <> (f.show i
          <> (": insufficient deposit on "
              <> (sponsor <> (": required " <> (required <> (", deposit " <> deposit))))))
  error_text cancelled = "bundler is shutting down"
  error_text (receipt_timeout tx_hash) =
      "receipt for " <> (f.debug tx_hash <> " not found within timeout")
  error_text (handle_ops_reverted tx_hash block_number reason) =
      "handleOps reverted on-chain: " <> reason_text reason
  error_text (pack e) = pack_text e
  error_text (validation e) = validation_text e
  error_text (BundlerError.provider e) = provider_text e
  error_text (signer e) = signer_text e
