-- ===== src/Provider/AlloyProvider/Reached.antt =====
-- Every call of `AlloyProvider` reaches the node.
use ethera_bundler.Base.{
  ℕ, zero, suc, ◌≤◌, ◌<◌, Bool-cases, Option-cases, List, [], ◌∷◌, inl, inr, leb, length, arith,
}
use ethera_bundler.Alloy.{Hash}
use ethera_bundler.Provider.{
  Query, chain_id, base_fee, max_priority_fee, pending_nonce, balance, get_code, balance_of,
  user_op_hash, estimate_handle_ops_gas, send_raw_transaction, wait_for_receipt,
  try_call_for_revert, simulate_validation,
}
use ethera_bundler.Provider.Remote.{
  RpcRequest, get_transaction_receipt, Outside, from_millis, SimulationsAbi,
}
use ethera_bundler.Provider.AlloyProvider.{
  serve, serve_simulation, await_receipt, poll_loop, poll, first_backoff, next_backoff, turns,
}
use ethera_bundler.Provider.AlloyProvider.Receipts.{found-cases}
use ethera_bundler.Provider.AlloyProvider.Served.{node_after, served}
use ethera_bundler.Provider.AlloyProvider.Recorded.{recorded, requests_after}
use ethera_bundler.Program.{
  Program, done, ask, query, unix_now, sign_eip1559, lock, unlock, warn, Log, World, run,
}

abbrev pub AsksBaseFee : {A : Type 0} → Program A → Type 0
AsksBaseFee (ask (query base_fee) k) = Unit
AsksBaseFee _ = ⊥

module _ {S : Type 0} (o : Outside S) where
  poll-lt :
      (hash : Hash) (deadline backoff : ℕ) (s : S × List RpcRequest)
      → length s.1 < length (poll (recorded o) hash deadline backoff s).1.1
  unfolding poll
  poll-lt hash deadline backoff s =
      elim (found-cases (o.send (get_transaction_receipt hash) s.0).0) [
        | inl (e, told) ↦ rw (told, poll) (omega arith)
        | inr (inl (r, told)) ↦ rw (told, poll) (omega arith)
        | inr (inr told) ↦
            let now : ℕ = (o.now (o.send (get_transaction_receipt hash) s.0).1).0 in
            elim (Bool-cases (leb deadline now)) [
              | inl late ↦ rw (told, late, poll) (omega arith)
              | inr early ↦ rw (told, early, poll) (omega arith)
            ]
      ]

  poll_loop-le :
      (fuel : ℕ) (hash : Hash) (deadline backoff : ℕ) (s : S × List RpcRequest)
      → length s.1 ≤ length (poll_loop (recorded o) fuel hash deadline backoff s).1.1
  unfolding poll_loop
  poll_loop-le zero hash deadline backoff s = omega arith
  poll_loop-le (suc fuel) hash deadline backoff s =
      let s1 : S × List RpcRequest = (poll (recorded o) hash deadline backoff s).1 in
      let once = poll-lt hash deadline backoff s in
      let later = poll_loop-le fuel hash deadline (next_backoff (recorded o) backoff) s1 in
      elim (Option-cases (poll (recorded o) hash deadline backoff s).0) [
        | inr (answer, e) ↦ rw (e, poll_loop) (omega (arith, once))
        | inl e ↦ rw (e, poll_loop) (omega (arith, once, later))
      ]

  module _ ⦃abi : SimulationsAbi⦄ where
    serve-le :
        (q : Query) (s : S × List RpcRequest) → length s.1 ≤ length (serve (recorded o) q s).1.1
    unfolding serve serve_simulation await_receipt
    serve-le chain_id s = omega arith
    serve-le base_fee s = omega arith
    serve-le max_priority_fee s = omega arith
    serve-le (pending_nonce addr) s = omega arith
    serve-le (balance addr) s = omega arith
    serve-le (get_code addr) s = omega arith
    serve-le (balance_of entrypoint account) s = omega arith
    serve-le (user_op_hash entrypoint op) s = omega arith
    serve-le (estimate_handle_ops_gas from entrypoint call_data) s = omega arith
    serve-le (send_raw_transaction raw) s = omega arith
    serve-le (wait_for_receipt hash timeout) s =
        let s1 : S × List RpcRequest = ((recorded o).now s).1 in
        poll_loop-le (turns (recorded o) (from_millis timeout)) hash _ (first_backoff (recorded o))
          s1
    serve-le (try_call_for_revert from to call_data) s = omega arith
    serve-le (simulate_validation entrypoint code op) s = omega arith

    module _ (s0 : S) (rest : World) where
      -- What reaches the node is not taken back.
      pub run-le :
          {A : Type 0} (p : Program A) (log : Log)
          → length (requests_after o s0 rest log)
            ≤ length (requests_after o s0 rest (run (served (recorded o) (s0, []) rest) p log).1)
      run-le (done a) log = omega arith
      run-le (ask (query q) k) log =
          let r = served (recorded o) (s0, []) rest log (query q) in
          let once = serve-le q (node_after (recorded o) (s0, []) rest log) in
          let later = run-le (k r) ((query q, r) ∷ log) in omega (arith, once, later)
      run-le (ask unix_now k) log = run-le (k _) ((unix_now, _) ∷ log)
      run-le (ask (sign_eip1559 tx) k) log = run-le (k _) ((sign_eip1559 tx, _) ∷ log)
      run-le (ask lock k) log = run-le (k tt) ((lock, tt) ∷ log)
      run-le (ask unlock k) log = run-le (k tt) ((unlock, tt) ∷ log)
      run-le (ask (warn m) k) log = run-le (k tt) ((warn m, tt) ∷ log)

      -- A program that begins with the query for the base fee reaches the node.
      pub base_fee-reaches :
          {A : Type 0} (p : Program A)
          → AsksBaseFee p
          → 0 < length (requests_after o s0 rest (run (served (recorded o) (s0, []) rest) p []).1)
      unfolding serve
      base_fee-reaches (ask (query base_fee) k) h =
          let r = served (recorded o) (s0, []) rest [] (query base_fee) in
          omega (arith, run-le (k r) ((query base_fee, r) ∷ []))
      base_fee-reaches (done a) h = elim h [ ]
      base_fee-reaches (ask _ k) h = elim h [ ]
