-- ===== src/Contracts.antt =====
-- crates/bundler/src/contracts.rs: the Solidity structs that the bundler exchanges with the chain.
-- The selectors and the ABI codecs that the `sol!` macro generates for them are not in the
-- repository: the definitions that use them take them as parameters.
use ethera_bundler.Base.{ℕ, List, Option, String}
use ethera_bundler.Base.Bytes.{Bytes}
use ethera_bundler.Alloy.{Address, Hash}

-- `PackedUserOperation`
pub record PackedUserOperation : Type 0 where
  pub sender : Address
  pub nonce : ℕ
  pub init_code : Bytes
  pub call_data : Bytes
  pub account_gas_limits : Hash
  pub pre_verification_gas : ℕ
  pub gas_fees : Hash
  pub paymaster_and_data : Bytes
  pub signature : Bytes

-- `ReturnInfo`
pub record ReturnInfo : Type 0 where
  pub pre_op_gas : ℕ
  pub prefund : ℕ
  pub account_validation_data : ℕ
  pub paymaster_validation_data : ℕ
  pub paymaster_context : Bytes

-- `StakeInfo`
pub record StakeInfo : Type 0 where
  pub stake : ℕ
  pub unstake_delay : ℕ

-- `AggregatorStakeInfo`
pub record AggregatorStakeInfo : Type 0 where
  pub aggregator : Address
  pub stake_info : StakeInfo

-- `ValidationResult`
pub record ValidationResult : Type 0 where
  pub return_info : ReturnInfo
  pub sender_info : StakeInfo
  pub factory_info : StakeInfo
  pub paymaster_info : StakeInfo
  pub aggregator_info : AggregatorStakeInfo

-- What the `sol!` macro generates and the library decodes: the encoding of a `handleOps` call, and
-- for each custom error of the entry point its selector and the decoder of its body (`none` where
-- `abi_decode_raw` fails). `decode_string` and `decode_uint` are `String::abi_decode` and
-- `U256::abi_decode`.
pub record Abi : Type 0 where
  pub encode_handle_ops : List PackedUserOperation → Address → Bytes
  pub failed_op_selector : Bytes
  pub decode_failed_op : Bytes → Option (ℕ × String)
  pub failed_op_with_revert_selector : Bytes
  pub decode_failed_op_with_revert : Bytes → Option (ℕ × String × Bytes)
  pub signature_validation_failed_selector : Bytes
  pub decode_signature_validation_failed : Bytes → Option Address
  pub post_op_reverted_selector : Bytes
  pub decode_post_op_reverted : Bytes → Option Bytes
  pub decode_string : Bytes → Option String
  pub decode_uint : Bytes → Option ℕ
