-- ===== src/Errors/Decode.antt =====
-- crates/bundler/src/errors.rs: `decode_handle_ops_revert`, from revert bytes to a reason.
pub mod RoundTrip
use mathlib.Core.Option.{get_or}
use ethera_bundler.Base.{
  ℕ, [], ◌∷◌, ◌++◌, Option, none, some, if◌then◌else◌, ltb, length, take, drop, bytes_eq,
}
use ethera_bundler.Base.Bytes.{Bytes}
use ethera_bundler.Alloy.{u64_max, try_u64}
use ethera_bundler.Contracts.{Abi}
use ethera_bundler.Errors.{
  HandleOpsRevertReason, failed_op, failed_op_with_revert, signature_validation_failed,
  post_op_reverted, standard_error, panicked, unknown,
}

abbrev pub error_string_selector : Bytes
error_string_selector = 0x08 ∷ 0xc3 ∷ 0x79 ∷ 0xa0 ∷ []

abbrev pub panic_uint_selector : Bytes
panic_uint_selector = 0x4e ∷ 0x48 ∷ 0x7b ∷ 0x71 ∷ []

unfoldable pub clamp_u64 : ℕ → ℕ
clamp_u64 v = get_or (try_u64 v) u64_max

-- `data.get(0..4)`
unfoldable pub get_selector : Bytes → Option Bytes
get_selector revert = if ltb (length revert) 4 then none else some (take 4 revert)

module _ ⦃abi : Abi⦄ where
  -- The chain of tests on the selector. A body that does not decode is an unknown revert.
  unfoldable pub decode_body : Bytes → Bytes → Bytes → HandleOpsRevertReason
  unfolding clamp_u64
  decode_body revert selector body =
      if bytes_eq selector abi.failed_op_selector
      then elim (abi.decode_failed_op body) [
        | some (op_index, reason) ↦ failed_op (clamp_u64 op_index) reason
        | none ↦ unknown revert
      ]
      else if bytes_eq selector abi.failed_op_with_revert_selector
      then elim (abi.decode_failed_op_with_revert body) [
        | some (op_index, reason, inner) ↦ failed_op_with_revert (clamp_u64 op_index) reason inner
        | none ↦ unknown revert
      ]
      else if bytes_eq selector abi.signature_validation_failed_selector
      then elim (abi.decode_signature_validation_failed body) [
        | some aggregator ↦ signature_validation_failed aggregator
        | none ↦ unknown revert
      ]
      else if bytes_eq selector abi.post_op_reverted_selector
      then elim (abi.decode_post_op_reverted body) [
        | some return_data ↦ post_op_reverted return_data
        | none ↦ unknown revert
      ]
      else if bytes_eq selector error_string_selector
      then elim (abi.decode_string body) [ some s ↦ standard_error s | none ↦ unknown revert ]
      else if bytes_eq selector panic_uint_selector
      then elim (abi.decode_uint body) [
        | some code ↦ panicked (clamp_u64 code)
        | none ↦ unknown revert
      ]
      else unknown revert

  unfoldable pub decode_handle_ops_revert : Bytes → HandleOpsRevertReason
  unfolding decode_body get_selector
  decode_handle_ops_revert revert = elim (get_selector revert) [
    | none ↦ unknown revert
    | some selector ↦ decode_body revert selector (drop 4 revert)
  ]
