-- ===== src/Errors.antt =====
-- crates/bundler/src/errors.rs: the errors of the bundler, and the reverts of `handleOps`.
pub mod Json
pub mod Display
pub mod Classify
pub mod Decode
use ethera_bundler.Base.{ℕ, String}
use ethera_bundler.Base.Bytes.{Bytes}
use ethera_bundler.Alloy.{Address, Hash}
use ethera_bundler.Packing.{PackError}
use ethera_bundler.Provider.{ProviderError}
use ethera_bundler.Signer.{SignerError}
use ethera_bundler.Validator.{ValidationError}

-- `HandleOpsRevertReason`
pub data HandleOpsRevertReason : Type 0 where
  failed_op : (op_index : ℕ) → (reason : String) → HandleOpsRevertReason
  failed_op_with_revert :
      (op_index : ℕ) → (reason : String) → (inner : Bytes) → HandleOpsRevertReason
  signature_validation_failed : (aggregator : Address) → HandleOpsRevertReason
  post_op_reverted : (return_data : Bytes) → HandleOpsRevertReason
  standard_error : String → HandleOpsRevertReason
  panicked : ℕ → HandleOpsRevertReason
  unknown : Bytes → HandleOpsRevertReason

-- `BundlerError`
pub data BundlerError : Type 0 where
  wrong_chain_id : (expected got : ℕ) → BundlerError
  invalid_batch : String → BundlerError
  batch_too_large : (got max : ℕ) → BundlerError
  invalid_user_op : (op_index : ℕ) → (reason : String) → BundlerError
  priority_fee_too_low : (op_index : ℕ) → (got min : String) → BundlerError
  fee_cap_too_low : (op_index : ℕ) → (fee_cap required : String) → BundlerError
  insufficient_deposit : (op_index : ℕ) → (sponsor required deposit : String) → BundlerError
  cancelled : BundlerError
  receipt_timeout : (tx_hash : Hash) → BundlerError
  handle_ops_reverted :
      (tx_hash : Hash) → (block_number : ℕ) → (reason : HandleOpsRevertReason) → BundlerError
  pack : PackError → BundlerError
  validation : ValidationError → BundlerError
  provider : ProviderError → BundlerError
  signer : SignerError → BundlerError

-- How numbers and byte strings are printed, by the standard library and by the crates `alloy` and
-- `hex`: `{}` and `{:x}` of a number, `{:?}` of a fixed byte string, and `hex::encode`.
pub record Format : Type 0 where
  pub show : ℕ → String
  pub show_hex : ℕ → String
  pub debug : Bytes → String
  pub hex_encode : Bytes → String
