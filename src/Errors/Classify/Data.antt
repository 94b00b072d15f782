-- ===== src/Errors/Classify/Data.antt =====
-- The data object of an error.
use text.Mathlib.Text.{◌==◌ as str_eq}
use ethera_bundler.Base.{ℕ, ◌≡◌, refl, ap, ◌∙◌, String, Option, none, some, if◌then◌else◌}
use ethera_bundler.Alloy.{Hash}
use ethera_bundler.Validator.{ValidationError, account_signature_failed}
use ethera_bundler.Errors.{
  Format, HandleOpsRevertReason, failed_op, failed_op_with_revert, BundlerError, invalid_user_op,
  priority_fee_too_low, fee_cap_too_low, insufficient_deposit, handle_ops_reverted, validation,
}
use ethera_bundler.Errors.Json.{Value, num, str, Payload, get, set_key, get-set_key}
use ethera_bundler.Errors.Classify.{classify, classify_reason, classify_validation}

-- The operation that an error is about.
abbrev pub op_index : BundlerError → Option ℕ
op_index (invalid_user_op i reason) = some i
op_index (priority_fee_too_low i got min) = some i
op_index (fee_cap_too_low i fee_cap required) = some i
op_index (insufficient_deposit i sponsor required deposit) = some i
op_index (handle_ops_reverted h n (failed_op i reason)) = some i
op_index (handle_ops_reverted h n (failed_op_with_revert i reason inner)) = some i
op_index _ = none

abbrev pub map_num : Option ℕ → Option Value
map_num none = none
map_num (some i) = some (num i)

abbrev Gives : Payload → String → Type 0
Gives p key = (v : Value) × (get key p ≡ some v)

module _ ⦃f : Format⦄ where
  -- The data of a revert is that of its reason with the transaction's hash and block added: these
  -- two keys are theirs, and every other key is what the reason says.
  get-classify_reverted :
      (tx_hash : Hash) (block_number : ℕ) (reason : HandleOpsRevertReason) (key : String)
      → get key (classify (handle_ops_reverted tx_hash block_number reason)).1 ≡ (
          if str_eq "blockNumber" key
          then some (num block_number)
          else if str_eq "txHash" key
          then some (str (f.debug tx_hash))
          else get key (classify_reason reason).1)
  unfolding classify
  get-classify_reverted tx_hash block_number reason key =
      get-set_key key "blockNumber" (num block_number)
        (set_key "txHash" (str (f.debug tx_hash)) (classify_reason reason).1)
      ∙ ap (λ o. if str_eq "blockNumber" key then some (num block_number) else o)
          (get-set_key key "txHash" (str (f.debug tx_hash)) (classify_reason reason).1)

  reason-Gives : (r : HandleOpsRevertReason) → Gives (classify_reason r).1 "reason"
  unfolding classify_reason get
  reason-Gives (failed_op i reason) = (_, refl)
  reason-Gives _ = (_, refl)

  validation-Gives : (e : ValidationError) → Gives (classify_validation e).1 "reason"
  unfolding classify_validation get
  validation-Gives account_signature_failed = (_, refl)
  validation-Gives _ = (_, refl)

  -- The data of every error has a reason.
  classify-Gives_reason : (e : BundlerError) → (v : Value) × (get "reason" (classify e).1 ≡ some v)
  unfolding classify get
  classify-Gives_reason (handle_ops_reverted h n r) =
      let (v, e) = reason-Gives r in (v, get-classify_reverted h n r "reason" ∙ e)
  classify-Gives_reason (validation e) = validation-Gives e
  classify-Gives_reason _ = (_, refl)

  reason-op_index :
      (h : Hash) (n : ℕ) (r : HandleOpsRevertReason)
      → get "opIndex" (classify_reason r).1 ≡ map_num (op_index (handle_ops_reverted h n r))
  unfolding classify_reason get
  reason-op_index h n (failed_op i reason) = refl
  reason-op_index h n _ = refl

  validation-op_index : (e : ValidationError) → get "opIndex" (classify_validation e).1 ≡ none
  unfolding classify_validation get
  validation-op_index account_signature_failed = refl
  validation-op_index _ = refl

  -- The data names an operation exactly for the errors that are about one, and names that one.
  pub classify-op_index : (e : BundlerError) → get "opIndex" (classify e).1 ≡ map_num (op_index e)
  unfolding classify get
  classify-op_index (handle_ops_reverted h n r) =
      get-classify_reverted h n r "opIndex" ∙ reason-op_index h n r
  classify-op_index (validation e) = validation-op_index e
  classify-op_index _ = refl
