-- ===== src/Provider/AlloyProvider/Recorded.antt =====
-- The raw transactions that `AlloyProvider` sends to the node, for any node: the node is put behind
-- a recorder of the requests that reach it.
use ethera_bundler.Base.{
  ℕ, zero, suc, ◌≡◌, refl, ap, ◌∙◌, Bool-cases, Option-cases, List, [], ◌∷◌, ◌++◌, inl, inr, leb,
}
use ethera_bundler.Base.Bytes.{Bytes}
use ethera_bundler.Alloy.{Hash}
use ethera_bundler.Provider.{
  Query, chain_id, base_fee, max_priority_fee, pending_nonce, balance, get_code, balance_of,
  user_op_hash, estimate_handle_ops_gas, send_raw_transaction, wait_for_receipt,
  try_call_for_revert, simulate_validation,
}
use ethera_bundler.Provider.Remote.{
  RpcRequest, send_raw, get_transaction_receipt, Outside, from_millis, SimulationsAbi,
}
use ethera_bundler.Provider.AlloyProvider.{
  serve, serve_simulation, await_receipt, poll_loop, poll, first_backoff, next_backoff, turns,
}
use ethera_bundler.Provider.AlloyProvider.Receipts.{found-cases}
use ethera_bundler.Provider.AlloyProvider.Served.{node_after}
use ethera_bundler.Program.{query, unix_now, sign_eip1559, lock, unlock, warn, Log, World}
use ethera_bundler.Bundler.Pipeline.Broadcasts.{broadcast_of, broadcasts}

-- The raw transactions among the requests.
abbrev pub raw_of : RpcRequest → List Bytes
raw_of (send_raw raw) = raw ∷ []
raw_of _ = []

abbrev pub raws : List RpcRequest → List Bytes
raws [] = []
raws (r ∷ requests) = raw_of r ++ raws requests

module _ {S : Type 0} (o : Outside S) where
  -- The same node and clock, with the list of the requests made so far, the latest first.
  abbrev pub recorded : Outside (S × List RpcRequest)
  recorded = record {
    send = λ r s. ((o.send r s.0).0, ((o.send r s.0).1, r ∷ s.1));
    now = λ s. ((o.now s.0).0, ((o.now s.0).1, s.1));
    sleep = λ d s. (o.sleep d s.0, s.1);
  }

  poll-raws :
      (hash : Hash) (deadline backoff : ℕ) (s : S × List RpcRequest)
      → raws (poll recorded hash deadline backoff s).1.1 ≡ raws s.1
  unfolding poll
  poll-raws hash deadline backoff s =
      elim (found-cases (o.send (get_transaction_receipt hash) s.0).0) [
        | inl (e, told) ↦ rw (told, poll) refl
        | inr (inl (r, told)) ↦ rw (told, poll) refl
        | inr (inr told) ↦
            let now : ℕ = (o.now (o.send (get_transaction_receipt hash) s.0).1).0 in
            elim (Bool-cases (leb deadline now)) [
              | inl late ↦ rw (told, late, poll) refl
              | inr early ↦ rw (told, early, poll) refl
            ]
      ]

  poll_loop-raws :
      (fuel : ℕ) (hash : Hash) (deadline backoff : ℕ) (s : S × List RpcRequest)
      → raws (poll_loop recorded fuel hash deadline backoff s).1.1 ≡ raws s.1
  unfolding poll_loop
  poll_loop-raws zero hash deadline backoff s = refl
  poll_loop-raws (suc fuel) hash deadline backoff s =
      elim (Option-cases (poll recorded hash deadline backoff s).0) [
        | inr (answer, e) ↦ rw (e, poll_loop) (poll-raws hash deadline backoff s)
        | inl e ↦
            rw (e, poll_loop)
              (poll_loop-raws fuel hash deadline (next_backoff recorded backoff)
                  (poll recorded hash deadline backoff s).1
                ∙ poll-raws hash deadline backoff s)
      ]

  await_receipt-raws :
      (hash : Hash) (timeout : ℕ) (s : S × List RpcRequest)
      → raws (await_receipt recorded hash timeout s).1.1 ≡ raws s.1
  unfolding await_receipt
  await_receipt-raws hash timeout s =
      let s1 : S × List RpcRequest = (recorded.now s).1 in
      poll_loop-raws (turns recorded timeout) hash _ (first_backoff recorded) s1

  module _ ⦃abi : SimulationsAbi⦄ where
    -- One call of the provider sends the node a raw transaction if it is a broadcast, and none else.
    serve-raws :
        (q : Query) (s : S × List RpcRequest)
        → raws (serve recorded q s).1.1 ≡ broadcast_of (query q) ++ raws s.1
    unfolding serve serve_simulation
    serve-raws chain_id s = refl
    serve-raws base_fee s = refl
    serve-raws max_priority_fee s = refl
    serve-raws (pending_nonce addr) s = refl
    serve-raws (balance addr) s = refl
    serve-raws (get_code addr) s = refl
    serve-raws (balance_of entrypoint account) s = refl
    serve-raws (user_op_hash entrypoint op) s = refl
    serve-raws (estimate_handle_ops_gas from entrypoint call_data) s = refl
    serve-raws (send_raw_transaction raw) s = refl
    serve-raws (wait_for_receipt hash timeout) s = await_receipt-raws hash (from_millis timeout) s
    serve-raws (try_call_for_revert from to call_data) s = refl
    serve-raws (simulate_validation entrypoint code op) s = refl

    module _ (s0 : S) (rest : World) where
      -- What has reached the node after the calls of a log.
      abbrev pub requests_after : Log → List RpcRequest
      requests_after log = (node_after recorded (s0, []) rest log).1

      -- The node is sent the raw transactions of the broadcasts, each once, and no other.
      pub raws-broadcasts : (log : Log) → raws (requests_after log) ≡ broadcasts log
      raws-broadcasts [] = refl
      raws-broadcasts ((query q, r) ∷ log) =
          serve-raws q (node_after recorded (s0, []) rest log)
          ∙ ap (λ sent. broadcast_of (query q) ++ sent) (raws-broadcasts log)
      raws-broadcasts ((unix_now, r) ∷ log) = raws-broadcasts log
      raws-broadcasts ((sign_eip1559 tx, r) ∷ log) = raws-broadcasts log
      raws-broadcasts ((lock, r) ∷ log) = raws-broadcasts log
      raws-broadcasts ((unlock, r) ∷ log) = raws-broadcasts log
      raws-broadcasts ((warn m, r) ∷ log) = raws-broadcasts log
