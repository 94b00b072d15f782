-- ===== src/Provider/Remote.antt =====
-- crates/bundler/src/provider.rs: what `AlloyProvider` needs of the libraries. `RootProvider` sends
-- one request to the node and answers with its reply or an error; `Instant::now` and
-- `tokio::time::sleep` are the clock. Both are parameters, as actions on a state of the outside.
-- Instants and durations count nanoseconds.
use ethera_bundler.Base.{ℕ, ◌+◌, ◌*◌, ◌≤◌, ◌≡◌, Bool, String, List, Option, ◌⊎◌}
use ethera_bundler.Base.Bytes.{Bytes}
use ethera_bundler.Alloy.{Address, Hash}
use ethera_bundler.Contracts.{PackedUserOperation, ValidationResult}

-- The error of a request, by the methods that are called on it: `to_string`, and `as_error_resp`
-- with `as_revert_data` of its payload.
pub record ErrorPayload : Type 0 where
  pub as_revert_data : Option Bytes

pub record RpcError : Type 0 where
  pub to_string : String
  pub as_error_resp : Option ErrorPayload

-- A block's header and a receipt, by the fields that are read.
pub record Block : Type 0 where
  pub base_fee_per_gas : Option ℕ

pub record Receipt : Type 0 where
  pub block_number : Option ℕ
  pub status : Bool

-- The fields of `TransactionRequest` and `AccountOverride` that are set.
pub record TransactionRequest : Type 0 where
  pub from : Option Address
  pub to : Address
  pub input : Bytes

pub record AccountOverride : Type 0 where
  pub code : Option Bytes

abbrev pub StateOverride : Type 0
StateOverride = List (Address × AccountOverride)

-- The requests. `entry_point_balance_of` and `entry_point_user_op_hash` are calls of the contract's
-- generated binding.
pub data RpcRequest : Type 0 where
  get_chain_id : RpcRequest
  get_latest_block : RpcRequest
  get_max_priority_fee_per_gas : RpcRequest
  get_pending_transaction_count : Address → RpcRequest
  get_balance : Address → RpcRequest
  get_code_at : Address → RpcRequest
  entry_point_balance_of : (entrypoint account : Address) → RpcRequest
  entry_point_user_op_hash : (entrypoint : Address) → PackedUserOperation → RpcRequest
  estimate_gas : TransactionRequest → RpcRequest
  send_raw : Bytes → RpcRequest
  get_transaction_receipt : Hash → RpcRequest
  eth_call : TransactionRequest → StateOverride → RpcRequest

abbrev pub RpcResponse : RpcRequest → Type 0
RpcResponse get_chain_id = ℕ
RpcResponse get_latest_block = Option Block
RpcResponse get_max_priority_fee_per_gas = ℕ
RpcResponse (get_pending_transaction_count a) = ℕ
RpcResponse (get_balance a) = ℕ
RpcResponse (get_code_at a) = Bytes
RpcResponse (entry_point_balance_of e a) = ℕ
RpcResponse (entry_point_user_op_hash e op) = Hash
RpcResponse (estimate_gas tx) = ℕ
RpcResponse (send_raw raw) = Hash
RpcResponse (get_transaction_receipt h) = Option Receipt
RpcResponse (eth_call tx overrides) = Bytes

pub record Outside (S : Type 0) : Type 0 where
  pub send : (r : RpcRequest) → S → (RpcResponse r ⊎ RpcError) × S
  pub now : S → ℕ × S
  pub sleep : ℕ → S → S

-- `time` tells the time in each state of the outside: it never goes back, `now` answers the time,
-- and a sleep lasts at least as long as it is asked for.
pub record IsClock {S : Type 0} (o : Outside S) (time : S → ℕ) : Type 0 where
  pub send-le : (r : RpcRequest) (s : S) → time s ≤ time (o.send r s).1
  pub now-le : (s : S) → time s ≤ time (o.now s).1
  pub now-eq : (s : S) → (o.now s).0 ≡ time (o.now s).1
  pub sleep-le : (d : ℕ) (s : S) → time s + d ≤ time (o.sleep d s)

-- `Duration::from_millis`
abbrev pub from_millis : ℕ → ℕ
from_millis n = n * 1_000_000

-- The codec of `simulateValidation`, which `sol!` generates: its call, and what it returns or the
-- text of the error.
pub record SimulationsAbi : Type 0 where
  pub encode_simulate_validation : PackedUserOperation → Bytes
  pub decode_simulate_validation : Bytes → ValidationResult ⊎ String
