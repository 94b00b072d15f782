-- ===== src/Errors/Classify/Codes.antt =====
-- Which layer an error code blames.
use text.Mathlib.Text.{starts_with}
use ethera_bundler.Base.{◌≡◌, refl, String, Bool-cases, inl, inr, arith, if◌then◌else◌}
use ethera_bundler.Base.Int.{ℤ, minus}
use ethera_bundler.Validator.{
  ValidationError, account_signature_failed, paymaster_signature_failed, out_of_time_range,
  unsupported_aggregator,
}
use ethera_bundler.Errors.{
  Format, HandleOpsRevertReason, failed_op, failed_op_with_revert, signature_validation_failed,
  post_op_reverted, standard_error, panicked, unknown, BundlerError, wrong_chain_id, invalid_batch,
  batch_too_large, invalid_user_op, priority_fee_too_low, fee_cap_too_low, insufficient_deposit,
  cancelled, receipt_timeout, handle_ops_reverted, pack, validation, signer,
}
use ethera_bundler.Errors.Classify.{classify, classify_reason, failed_op_code}

-- Who is to blame for an error.
pub data Blame : Type 0 where
  caller entry_point paymaster clock aggregator bundler : Blame

abbrev pub blame_reason : HandleOpsRevertReason → Blame
blame_reason (failed_op i reason) = if starts_with reason "AA3" then paymaster else entry_point
blame_reason (failed_op_with_revert i reason inner) =
    if starts_with reason "AA3" then paymaster else entry_point
blame_reason (signature_validation_failed a) = entry_point
blame_reason (post_op_reverted d) = paymaster
blame_reason (standard_error m) = entry_point
blame_reason (panicked c) = entry_point
blame_reason (unknown b) = bundler

abbrev pub blame : BundlerError → Blame
blame (wrong_chain_id expected got) = caller
blame (invalid_batch reason) = caller
blame (batch_too_large got max) = caller
blame (invalid_user_op i reason) = caller
blame (priority_fee_too_low i got min) = caller
blame (fee_cap_too_low i fee_cap required) = caller
blame (insufficient_deposit i sponsor required deposit) = entry_point
blame cancelled = bundler
blame (receipt_timeout h) = bundler
blame (handle_ops_reverted h n reason) = blame_reason reason
blame (pack e) = caller
blame (validation account_signature_failed) = entry_point
blame (validation paymaster_signature_failed) = paymaster
blame (validation (out_of_time_range n a b c d)) = clock
blame (validation unsupported_aggregator) = aggregator
blame (validation (ValidationError.provider e)) = bundler
blame (BundlerError.provider e) = bundler
blame (signer e) = bundler

-- The code that errors.rs gives each of them. The README's table has these six codes, the fifth
-- with another meaning: a revert inside account validation, which the bundler does not tell apart.
abbrev pub code_of : Blame → ℤ
code_of caller = minus 32602
code_of entry_point = minus 32500
code_of paymaster = minus 32501
code_of clock = minus 32503
code_of aggregator = minus 32521
code_of bundler = minus 32603

failed_op_code_lem :
    (reason : String)
    → failed_op_code reason ≡ code_of (if starts_with reason "AA3" then paymaster else entry_point)
unfolding failed_op_code
failed_op_code_lem reason = elim (Bool-cases (starts_with reason "AA3")) [
  | inl e ↦ rw e
  | inr e ↦ rw e
]

module _ ⦃f : Format⦄ where
  reason_code : (r : HandleOpsRevertReason) → (classify_reason r).0 ≡ code_of (blame_reason r)
  unfolding classify_reason
  reason_code (failed_op i reason) = failed_op_code_lem reason
  reason_code (failed_op_with_revert i reason inner) = failed_op_code_lem reason
  reason_code _ = refl

  -- The code of every error is that of the layer that it blames.
  pub classify-code_of : (e : BundlerError) → (classify e).0 ≡ code_of (blame e)
  unfolding classify
  classify-code_of (handle_ops_reverted h n reason) = reason_code reason
  classify-code_of (validation account_signature_failed) = refl
  classify-code_of (validation paymaster_signature_failed) = refl
  classify-code_of (validation _) = refl
  classify-code_of _ = refl

code_of_injective : (a b : Blame) → code_of a ≡ code_of b → a ≡ b
code_of_injective caller b e = ground arith
code_of_injective entry_point b e = ground arith
code_of_injective _ b e = ground arith

module _ ⦃f : Format⦄ where
  -- A code tells who is to blame: two errors with one code have one cause.
  classify-blame : (e e' : BundlerError) → (classify e).0 ≡ (classify e').0 → blame e ≡ blame e'
  classify-blame e e' h =
      code_of_injective (blame e) (blame e') (rw (classify-code_of e, classify-code_of e') at h)
