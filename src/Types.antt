-- ===== src/Types.antt =====
-- crates/bundler/src/types.rs: what the JSON-RPC method takes and returns.
pub mod Wire
use ethera_bundler.Base.{ℕ, ◌<◌, Bool, true, false, List, [], ◌∷◌, Option, none, some, All}
use ethera_bundler.Base.Bytes.{Bytes, IsByte, IsBytes}
use ethera_bundler.Alloy.{Address, Hash, u256_mod}

-- `UserOpV07`, the unpacked operation of the wire.
pub record UserOpV07 : Type 0 where
  pub sender : Address
  pub nonce : ℕ
  pub init_code : Bytes
  pub factory : Option Address
  pub factory_data : Bytes
  pub call_data : Bytes
  pub call_gas_limit : ℕ
  pub verification_gas_limit : ℕ
  pub pre_verification_gas : ℕ
  pub max_fee_per_gas : ℕ
  pub max_priority_fee_per_gas : ℕ
  pub paymaster : Option Address
  pub paymaster_verification_gas_limit : ℕ
  pub paymaster_post_op_gas_limit : ℕ
  pub paymaster_data : Bytes
  pub paymaster_and_data : Bytes
  pub signature : Bytes

-- `BuildOpts`
pub record BuildOpts : Type 0 where
  pub chain_id : ℕ
  pub submit : Bool

-- `default_submit`: the value of `submit` where the request leaves it out.
abbrev pub default_submit : Bool
default_submit = true

-- `SignedTxResp`
pub record SignedTxResp : Type 0 where
  pub raw : Bytes
  pub hash : Hash
  pub to : Address
  pub chain_id : ℕ
  pub gas : ℕ
  pub max_fee_per_gas : ℕ
  pub max_priority_fee_per_gas : ℕ
  pub user_op_hashes : List Hash

-- `is_empty` of a byte string, and `bytes_is_empty`.
abbrev pub bytes_is_empty : Bytes → Bool
bytes_is_empty [] = true
bytes_is_empty (b ∷ bs) = false

abbrev pub IsU256 : ℕ → Type 0
IsU256 v = v < u256_mod

abbrev pub IsAddress : Address → Type 0
IsAddress a = IsBytes 20 a

abbrev pub IsOptAddress : Option Address → Type 0
IsOptAddress none = Unit
IsOptAddress (some a) = IsAddress a

-- The ranges that the Rust types of the fields give.
pub record IsUserOp (op : UserOpV07) : Type 0 where
  pub sender : IsAddress op.sender
  pub factory : IsOptAddress op.factory
  pub call_gas_limit : IsU256 op.call_gas_limit
  pub verification_gas_limit : IsU256 op.verification_gas_limit
  pub pre_verification_gas : IsU256 op.pre_verification_gas
  pub max_fee_per_gas : IsU256 op.max_fee_per_gas
  pub max_priority_fee_per_gas : IsU256 op.max_priority_fee_per_gas
  pub paymaster : IsOptAddress op.paymaster
  pub paymaster_verification_gas_limit : IsU256 op.paymaster_verification_gas_limit
  pub paymaster_post_op_gas_limit : IsU256 op.paymaster_post_op_gas_limit
  pub paymaster_and_data : All IsByte op.paymaster_and_data
