-- ===== src/Tests/Server.antt =====
-- A server over `AlloyProvider` with a node that has a receipt after a second, and its start.
use ethera_bundler.Base.{
  ℕ, ◌+◌, ◌≡◌, ◌↔◌, refl, true, String, [], ◌∷◌, Option, none, some, ok, replicate, ◌⊎◌, inl, ltb,
  if◌then◌else◌, arith,
}
use ethera_bundler.Base.Int.{ℤ}
use ethera_bundler.Base.Bytes.{Bytes, slice}
use ethera_bundler.Alloy.{Hash}
use ethera_bundler.Errors.Json.{Payload}
use ethera_bundler.Provider.{ProviderError, ReceiptInfo, chain_id}
use ethera_bundler.Provider.Remote.{
  RpcError, RpcRequest, RpcResponse, get_chain_id, get_latest_block, get_max_priority_fee_per_gas,
  get_pending_transaction_count, get_balance, get_code_at, entry_point_balance_of,
  entry_point_user_op_hash, estimate_gas, send_raw, get_transaction_receipt, eth_call, Receipt,
  Outside, IsClock, from_millis, SimulationsAbi,
}
use ethera_bundler.Provider.AlloyProvider.{
  await_receipt, serve, serve_simulation, simulation_of, base_fee_of, poll_loop, poll,
}
use ethera_bundler.Provider.AlloyProvider.Confirmed.{IsMined, served-IsMined}
use ethera_bundler.Provider.AlloyProvider.Receipts.{Answers, await_receipt-Answers}
use ethera_bundler.Provider.AlloyProvider.Served.{IsRanged, served}
use ethera_bundler.Alloy.Native.{bits, be_bytes}
use ethera_bundler.Packing.{
  pack, pack_init_code, pack_pair_to_bytes32, pack_paymaster, pack_paymaster_and_data,
  parse_paymaster_and_data,
}
use ethera_bundler.Validator.{
  simulate, judge, parse_window, signature_failed, requires_aggregator, is_out_of_time_range,
}
use ethera_bundler.Bundler.Policy.{
  required_prefund, sponsor_of, check_deposit, check_per_op_fees, update_min, gas_with_margin,
  choose_outer_fees, min_u256, max_u256, u128_from_u256,
}
use ethera_bundler.Bundler.Pipeline.{
  build_inner, build_batch, check_ops, check_op, check_prefund, prepare, finish, sign_and_send,
  sign_outer, check_receipt,
}
use ethera_bundler.Signer.{LocalSigner, TxEip1559, local_sign_eip1559, PrivateKeys, from_key}
use ethera_bundler.Program.{run, Log, sign_eip1559}
use ethera_bundler.Bundler.Pipeline.Shutdown
use ethera_bundler.Provider.AlloyProvider.Recorded.{recorded, raws, requests_after}
use ethera_bundler.Rpc.{ErrorObjects, build_signed_user_ops_tx}
use ethera_bundler.Rpc.Replies.{Replies}
use ethera_bundler.Rpc.Served.{served-Replies}
use ethera_bundler.Rpc.Refused.{Refuses, served-Refuses}
use ethera_bundler.Types.{BuildOpts}
use ethera_bundler.Discovery.{discover}
use ethera_bundler.Startup.{Server, prepare_server, probe, judge_chain, judge_code, judge_balance}
use ethera_bundler.Startup.Probe.{Succeeds}
use ethera_bundler.Startup.Serves.{CanStart, prepare_server-CanStart}
use ethera_bundler.Startup.Signs.{IsSigned, response-IsSigned}
use ethera_bundler.Provider.AlloyProvider
use ethera_bundler.Tests.Data.{
  uint, format, abi, accepted, config, bundler, options, ops, op-IsUserOp, world, world-IsTyped,
}
use ethera_bundler.Tests.Requests.{expected, accepted_run}

instance abbrev simulations : SimulationsAbi
simulations = record {
  encode_simulate_validation = λ op. op.call_data;
  decode_simulate_validation = λ output. inl accepted;
}

-- The receipt of a transaction, once a second has passed.
abbrev receipt_at : ℕ → Option Receipt
receipt_at t =
    if ltb t (from_millis 1_000)
    then none
    else some (record { block_number = some 77; status = true })

abbrev respond : ℕ → (r : RpcRequest) → RpcResponse r ⊎ RpcError
respond t get_chain_id = inl 901
respond t get_latest_block = inl (some (record { base_fee_per_gas = some 1_000_000_000 }))
respond t get_max_priority_fee_per_gas = inl 5_000_000
respond t (get_pending_transaction_count a) = inl 12
respond t (get_balance a) = inl 0
respond t (get_code_at a) = inl (0x60 ∷ [])
respond t (entry_point_balance_of e a) = inl 1_000_000_000_000_000_000
respond t (entry_point_user_op_hash e op) = inl (replicate 32 5)
respond t (estimate_gas tx) = inl 300_000
respond t (send_raw raw) = inl (replicate 32 6)
respond t (get_transaction_receipt h) = inl (receipt_at t)
respond t (eth_call tx overrides) = inl (1 ∷ [])

-- The state is the time; a request takes a millisecond.
abbrev node : Outside ℕ
node = record {
  send = λ r t. (respond t r, t + from_millis 1);
  now = λ t. (t, t);
  sleep = λ d t. t + d;
}

node-IsClock : IsClock node (λ t. t)
node-IsClock = record {
  send-le = λ r t. omega arith;
  now-le = λ t. omega arith;
  now-eq = λ t. refl;
  sleep-le = λ d t. omega arith;
}

node-IsRanged : (r : RpcRequest) (t : ℕ) → IsRanged r (node.send r t).0
node-IsRanged get_latest_block t = λ n e. let same : 1_000_000_000 ≡ n = cc in omega (arith, same)
node-IsRanged get_max_priority_fee_per_gas t = omega arith
node-IsRanged (estimate_gas tx) t = omega arith
node-IsRanged _ t = tt

await_receipt-Answers_example :
    let (answer, s') = await_receipt node (replicate 32 6) (from_millis 30_000) 5 in
    (a : Option ReceiptInfo ⊎ ProviderError) × (answer ≡ some a)
    × Answers node (λ t. t) (replicate 32 6) (5 + from_millis 30_000) a s'
await_receipt-Answers_example =
    await_receipt-Answers node (λ t. t) (replicate 32 6) node-IsClock (from_millis 30_000) 5

abbrev objects : ErrorObjects
objects = record {
  Object = ℤ × String × Option Payload;
  owned = λ c message payload. (c, message, payload);
  code = λ object. object.0;
}

served-Replies_example :
    let (r, log) =
      run
        (served (recorded node) (5, []) world)
        (build_signed_user_ops_tx objects (record { inner = bundler }) none ops options)
        [] in
    Replies objects true (raws (requests_after node 5 world log)) r
served-Replies_example =
    served-Replies objects (λ c message payload. refl) node node-IsRanged 5 world
      (record { inner = bundler }) none ops options (omega arith) (op-IsUserOp, (op-IsUserOp, tt))

-- The receipt comes after three sleeps.
served-run : (run (served node 5 world) (build_inner bundler ops options) []).0 ≡ ok expected
unfolding build_inner build_batch check_ops check_op check_prefund required_prefund sponsor_of
    check_deposit check_per_op_fees simulate judge parse_window signature_failed requires_aggregator
    is_out_of_time_range update_min prepare gas_with_margin choose_outer_fees min_u256 max_u256
    finish sign_and_send sign_outer u128_from_u256 check_receipt pack pack_init_code
    pack_pair_to_bytes32 pack_paymaster pack_paymaster_and_data parse_paymaster_and_data slice bits
    be_bytes serve serve_simulation simulation_of base_fee_of await_receipt poll_loop poll
served-run = refl

served-IsMined_example : IsMined node (λ t. t) node-IsClock expected.hash
served-IsMined_example =
    served-IsMined node (λ t. t) node-IsClock node-IsRanged 5 world bundler ops options expected
      (omega arith) (op-IsUserOp, (op-IsUserOp, tt)) refl served-run

abbrev pub keys : PrivateKeys
keys = record {
  Key = Hash;
  Signature = Bytes;
  from_bytes = λ bytes. inl bytes;
  key_address = λ key. replicate 20 0xcc;
  sign_transaction_sync = λ key tx. inl [];
  into_signed =
      λ tx signature. record { encoded_2718 = 2 ∷ tx.nonce ∷ []; tx_hash = replicate 32 6 };
}

abbrev pub parse : String → String ⊎ String
parse url = inl url

prepare_server-CanStart_example :
    Succeeds world (prepare_server parse keys (0x60 ∷ []) "0.1.0" config) []
    ↔ CanStart parse keys (0x60 ∷ []) "0.1.0" world config
prepare_server-CanStart_example =
    prepare_server-CanStart parse keys (0x60 ∷ []) "0.1.0" world config

abbrev pub server : Server
server = record {
  rpc = record { inner = bundler };
  discovery = discover "0.1.0" 901 config.entrypoint_address;
  listen_addr = "0.0.0.0:8082";
}

pub started : (run world (prepare_server parse keys (0x60 ∷ []) "0.1.0" config) []).0 ≡ ok server
unfolding prepare_server probe judge_chain judge_code judge_balance AlloyProvider.new from_key
started = refl

signed : (run world (Shutdown.build_signed_user_ops_tx bundler none ops options) []).0 ≡ ok expected
unfolding Shutdown.build_signed_user_ops_tx
signed = accepted_run

abbrev signer : LocalSigner keys
signer = record { inner = config.sequencer_key }

signs-locally :
    (log : Log) (tx : TxEip1559) → world log (sign_eip1559 tx) ≡ local_sign_eip1559 keys signer tx
unfolding local_sign_eip1559
signs-locally log tx = refl

response-IsSigned_example : IsSigned keys signer bundler ops expected
response-IsSigned_example =
    response-IsSigned keys signer bundler world signs-locally ops options none expected
      (omega arith) (op-IsUserOp, (op-IsUserOp, tt)) world-IsTyped signed

-- A request for another chain.
abbrev elsewhere : BuildOpts
elsewhere = record { chain_id = 1; submit = true }

served-Refuses_example :
    let (r, log) =
      run
        (served (recorded node) (5, []) world)
        (build_signed_user_ops_tx objects (record { inner = bundler }) none ops elsewhere)
        [] in
    (requests_after node 5 world log ≡ [])
    ↔ Refuses objects node 5 world (record { inner = bundler }) ops elsewhere r
served-Refuses_example =
    served-Refuses objects node 5 world (record { inner = bundler }) ops elsewhere
