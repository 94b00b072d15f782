-- ===== src/Provider/AlloyProvider.antt =====
-- crates/bundler/src/provider.rs: `AlloyProvider`, the methods of `EthProvider` over the node.
pub mod Receipts
pub mod Served
pub mod Confirmed
pub mod Recorded
pub mod Reached
use ethera_bundler.Base.{
  ℕ, zero, suc, ◌+◌, ◌-◌, ◌*◌, ◌/◌, min, Bool, true, false, String, List, [], ◌∷◌, Option, none,
  some, Result, ok, err, panic, map_err, ◌⊎◌, inl, inr, leb, if◌then◌else◌,
}
use ethera_bundler.Base.Bytes.{Bytes}
use ethera_bundler.Alloy.{Address, Hash}
use ethera_bundler.Contracts.{PackedUserOperation, ValidationResult}
use ethera_bundler.Provider.{
  ProviderError, transport, empty_call, decode, ReceiptInfo, Query, Reply, chain_id, base_fee,
  max_priority_fee, pending_nonce, balance, get_code, balance_of, user_op_hash,
  estimate_handle_ops_gas, send_raw_transaction, wait_for_receipt, try_call_for_revert,
  simulate_validation,
}
use ethera_bundler.Provider.Remote.{
  RpcError, ErrorPayload, Block, Receipt, TransactionRequest, StateOverride, RpcRequest,
  get_chain_id, get_latest_block, get_max_priority_fee_per_gas, get_pending_transaction_count,
  get_balance, get_code_at, entry_point_balance_of, entry_point_user_op_hash, estimate_gas,
  send_raw, get_transaction_receipt, eth_call, RpcResponse, Outside, from_millis, SimulationsAbi,
}

-- `AlloyProvider::new`: `parse` is that of `Url`.
unfoldable pub new : {Url : Type 0} → (String → Url ⊎ String) → String → Result ProviderError Url
new parse rpc_url = elim (parse rpc_url) [ inl url ↦ ok url | inr e ↦ err (transport e) ]

-- `.map_err(|e| ProviderError::Transport(e.to_string()))`
abbrev pub or_transport : {A : Type 0} → A ⊎ RpcError → A ⊎ ProviderError
or_transport (inl a) = inl a
or_transport (inr e) = inr (transport e.to_string)

-- The base fee of the latest block, if there is one.
unfoldable pub base_fee_of : Option Block ⊎ RpcError → ℕ ⊎ ProviderError
base_fee_of (inr e) = inr (transport e.to_string)
base_fee_of (inl none) = inr (transport "latest block missing")
base_fee_of (inl (some block)) = inl (elim block.base_fee_per_gas [ none ↦ 0 | some fee ↦ fee ])

-- The revert data of a failed call.
unfoldable pub revert_of : Bytes ⊎ RpcError → Option Bytes ⊎ ProviderError
revert_of (inl output) = inl none
revert_of (inr e) =
    inl (elim e.as_error_resp [ none ↦ none | some payload ↦ payload.as_revert_data ])

module _ ⦃abi : SimulationsAbi⦄ where
  unfoldable pub simulation_of : Bytes ⊎ RpcError → ValidationResult ⊎ ProviderError
  simulation_of (inr e) = inr (transport e.to_string)
  simulation_of (inl []) = inr empty_call
  simulation_of (inl (b ∷ output)) = elim (abi.decode_simulate_validation (b ∷ output)) [
    | inl result ↦ inl result
    | inr e ↦ inr (decode e)
  ]

-- The transaction of a call: `TransactionRequest::default()` with its fields.
abbrev pub request_from : Option Address → Address → Bytes → TransactionRequest
request_from from to input = record { from = from; to = to; input = input }

module _ {S : Type 0} (o : Outside S) where
  -- A request, and the method's use of what comes back.
  abbrev pub ask_node : {A : Type 0} (r : RpcRequest) → (RpcResponse r ⊎ RpcError → A) → S → A × S
  ask_node r convert s = let (answer, s1) = o.send r s in (convert answer, s1)

  abbrev pub first_backoff : ℕ
  first_backoff = from_millis 200

  abbrev pub next_backoff : ℕ → ℕ
  next_backoff backoff = min (backoff * 2) (from_millis 2_000)

  -- One turn of the loop of `wait_for_receipt`: the answer that it returns, or none if it goes on.
  unfoldable pub poll :
      Hash → (deadline backoff : ℕ) → S → Option (Option ReceiptInfo ⊎ ProviderError) × S
  poll hash deadline backoff s =
      let (found, s1) = o.send (get_transaction_receipt hash) s in
      elim found [
        | inr e ↦ (some (inr (transport e.to_string)), s1)
        | inl (some r) ↦ (
          some (
              inl (
                some (record {
                  tx_hash = hash;
                  block_number = elim r.block_number [ none ↦ 0 | some n ↦ n ];
                  success = r.status;
                }))),
          s1,
        )
        | inl none ↦
            let (now, s2) = o.now s1 in
            if leb deadline now
            then (some (inl none), s2)
            else (none, o.sleep (min backoff (deadline - now)) s2)
      ]

  -- The loop, for at most `fuel` turns.
  unfoldable pub poll_loop :
      ℕ → Hash → (deadline backoff : ℕ) → S → Option (Option ReceiptInfo ⊎ ProviderError) × S
  poll_loop zero hash deadline backoff s = (none, s)
  poll_loop (suc fuel) hash deadline backoff s =
      let (answer, s1) = poll hash deadline backoff s in
      elim answer [
        | some a ↦ (some a, s1)
        | none ↦ poll_loop fuel hash deadline (next_backoff backoff) s1
      ]

  -- Turns that are enough for a timeout: no sleep but the last is shorter than the first.
  abbrev pub turns : ℕ → ℕ
  turns timeout = suc (timeout / from_millis 200 + 1)

  -- `AlloyProvider::wait_for_receipt`
  unfoldable pub await_receipt :
      Hash → (timeout : ℕ) → S → Option (Option ReceiptInfo ⊎ ProviderError) × S
  await_receipt hash timeout s =
      let (started, s1) = o.now s in
      poll_loop (turns timeout) hash (started + timeout) first_backoff s1

  module _ ⦃abi : SimulationsAbi⦄ where
    -- The call of `simulateValidation`, with the code of the entry point overridden.
    unfoldable pub serve_simulation :
        (entrypoint : Address)
        → (simulations_code : Bytes) → PackedUserOperation
        → S
        → (ValidationResult ⊎ ProviderError) × S
    serve_simulation entrypoint simulations_code op s =
        ask_node
          (eth_call (request_from none entrypoint (abi.encode_simulate_validation op))
            ((entrypoint, record { code = some simulations_code }) ∷ []))
          simulation_of s

    -- All methods of `impl EthProvider for AlloyProvider`.
    unfoldable pub serve : (q : Query) → S → (Reply q ⊎ ProviderError) × S
    serve chain_id s = ask_node get_chain_id or_transport s
    serve base_fee s = ask_node get_latest_block base_fee_of s
    serve max_priority_fee s = ask_node get_max_priority_fee_per_gas or_transport s
    serve (pending_nonce addr) s = ask_node (get_pending_transaction_count addr) or_transport s
    serve (balance addr) s = ask_node (get_balance addr) or_transport s
    serve (get_code addr) s = ask_node (get_code_at addr) or_transport s
    serve (balance_of entrypoint account) s =
        ask_node (entry_point_balance_of entrypoint account) or_transport s
    serve (user_op_hash entrypoint op) s =
        ask_node (entry_point_user_op_hash entrypoint op) or_transport s
    serve (estimate_handle_ops_gas from entrypoint call_data) s =
        ask_node (estimate_gas (request_from (some from) entrypoint call_data)) or_transport s
    serve (send_raw_transaction raw) s = ask_node (send_raw raw) or_transport s
    serve (wait_for_receipt hash timeout) s =
        let (answer, s1) = await_receipt hash (from_millis timeout) s in
        (elim answer [ some a ↦ a | none ↦ inl none ], s1)
    serve (try_call_for_revert from to call_data) s =
        ask_node (eth_call (request_from (some from) to call_data) []) revert_of s
    serve (simulate_validation entrypoint simulations_code op) s =
        serve_simulation entrypoint simulations_code op s
