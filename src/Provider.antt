-- ===== src/Provider.antt =====
-- crates/bundler/src/provider.rs: the calls to the execution layer (`EthProvider`), with what each
-- answers. The node behind the trait is not part of the repository: a `Query` is a call with its
-- arguments, and any value of `Reply` may come back, or any `ProviderError`.
pub mod Remote
pub mod AlloyProvider
use ethera_bundler.Base.{ℕ, Bool, String, Option}
use ethera_bundler.Base.Bytes.{Bytes}
use ethera_bundler.Alloy.{Address, Hash}
use ethera_bundler.Contracts.{PackedUserOperation, ValidationResult}

-- `ProviderError`
pub data ProviderError : Type 0 where
  transport : String → ProviderError
  empty_call : ProviderError
  decode : String → ProviderError

-- `ReceiptInfo`
pub record ReceiptInfo : Type 0 where
  pub tx_hash : Hash
  pub block_number : ℕ
  pub success : Bool

-- The methods of the trait `EthProvider`. A timeout counts milliseconds.
pub data Query : Type 0 where
  chain_id : Query
  base_fee : Query
  max_priority_fee : Query
  pending_nonce : Address → Query
  balance : Address → Query
  get_code : Address → Query
  balance_of : (entrypoint account : Address) → Query
  user_op_hash : (entrypoint : Address) → PackedUserOperation → Query
  estimate_handle_ops_gas : (from entrypoint : Address) → Bytes → Query
  send_raw_transaction : Bytes → Query
  wait_for_receipt : Hash → (timeout : ℕ) → Query
  try_call_for_revert : (from to : Address) → Bytes → Query
  simulate_validation :
      (entrypoint : Address) → (simulations_code : Bytes) → PackedUserOperation → Query

abbrev pub Reply : Query → Type 0
Reply chain_id = ℕ
Reply base_fee = ℕ
Reply max_priority_fee = ℕ
Reply (pending_nonce _) = ℕ
Reply (balance _) = ℕ
Reply (get_code _) = Bytes
Reply (balance_of _ _) = ℕ
Reply (user_op_hash _ _) = Hash
Reply (estimate_handle_ops_gas _ _ _) = ℕ
Reply (send_raw_transaction _) = Hash
Reply (wait_for_receipt _ _) = Option ReceiptInfo
Reply (try_call_for_revert _ _ _) = Option Bytes
Reply (simulate_validation _ _ _) = ValidationResult
