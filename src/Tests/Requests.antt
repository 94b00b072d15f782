-- ===== src/Tests/Requests.antt =====
-- Requests to a node at which everything succeeds.
use ethera_bundler.Base.{
  ℕ, ◌+◌, ◌≤◌, ◌≡◌, refl, true, false, [], ◌∷◌, All, some, ok, err, replicate, arith,
}
use ethera_bundler.Types.{SignedTxResp}
use ethera_bundler.Program.{run}
use ethera_bundler.Program.Laws.{replay, Obeyed}
use ethera_bundler.Errors.{cancelled}
use ethera_bundler.Base.Bytes.{slice}
use ethera_bundler.Alloy.Native.{bits, be_bytes}
use ethera_bundler.Packing.{
  pack, pack_init_code, pack_pair_to_bytes32, pack_paymaster, pack_paymaster_and_data,
  parse_paymaster_and_data,
}
use ethera_bundler.Validator.{
  simulate, judge, parse_window, signature_failed, requires_aggregator, is_out_of_time_range,
}
use ethera_bundler.Bundler.Policy.{
  required_prefund, sponsor_of, check_deposit, check_per_op_fees, update_min, gas_with_margin,
  choose_outer_fees, min_u256, max_u256, u128_from_u256,
}
use ethera_bundler.Bundler.Pipeline.{
  build_inner, build_batch, check_ops, check_op, check_prefund, prepare, finish, sign_and_send,
  sign_outer, check_receipt,
}
use ethera_bundler.Bundler.Pipeline.Shutdown.{build_signed_user_ops_tx}
use ethera_bundler.Bundler.Pipeline.Stage.{start, discipline}
use ethera_bundler.Bundler.Pipeline.Built.{Ends}
use ethera_bundler.Bundler.Pipeline.Requests.{
  count, is_broadcast, is_lock, is_unlock, run-build_inner,
}
use ethera_bundler.Bundler.Pipeline.Build.{IsConfirmed}
use ethera_bundler.Bundler.Pipeline.Cancel.{EndsOrCancelled, run-build_signed_user_ops_tx}
use ethera_bundler.Bundler.Pipeline.Promises.{
  IsCovered, build_inner_fees, build_inner_broadcasts, build_inner-IsConfirmed,
}
use ethera_bundler.Tests.Data.{
  uint, format, abi, bundler, options, ops, op-IsUserOp, world, world-IsTyped,
}

run-build_inner_example :
    let (r, log) = run world (build_inner bundler ops options) [] in
    let P = discipline bundler true in
    Obeyed P start log × Ends bundler ops true (replay P start log) r
run-build_inner_example =
    run-build_inner bundler options ops world (omega arith) (op-IsUserOp, (op-IsUserOp, tt))
      world-IsTyped

abbrev pub expected : SignedTxResp
expected = record {
  raw = 2 ∷ 12 ∷ [];
  hash = replicate 32 6;
  to = bundler.cfg.entrypoint_address;
  chain_id = 901;
  gas = 330_000;
  max_fee_per_gas = 3_000_000_000;
  max_priority_fee_per_gas = 5_000_000;
  user_op_hashes = replicate 32 5 ∷ replicate 32 5 ∷ [];
}

pub accepted_run : (run world (build_inner bundler ops options) []).0 ≡ ok expected
unfolding build_inner build_batch check_ops check_op check_prefund required_prefund sponsor_of
    check_deposit check_per_op_fees simulate judge parse_window signature_failed requires_aggregator
    is_out_of_time_range update_min prepare gas_with_margin choose_outer_fees min_u256 max_u256
    finish sign_and_send sign_outer u128_from_u256 check_receipt pack pack_init_code
    pack_pair_to_bytes32 pack_paymaster pack_paymaster_and_data parse_paymaster_and_data slice bits
    be_bytes
accepted_run = refl

build_inner_fees_example :
    All (IsCovered expected) ops
    × (1_000_000 ≤ 5_000_000)
    × ((base : ℕ) × ((replay
            (discipline bundler true)
            start
            (run world (build_inner bundler ops options) []).1).base
          ≡ some base)
        × (base + 5_000_000 ≤ 3_000_000_000))
build_inner_fees_example =
    build_inner_fees bundler options ops world (omega arith) (op-IsUserOp, (op-IsUserOp, tt))
      world-IsTyped expected accepted_run

build_inner-IsConfirmed_example :
    let t =
      replay (discipline bundler true) start (run world (build_inner bundler ops options) []).1 in
    (t.sent ≡ some expected.raw) × IsConfirmed t expected.hash
build_inner-IsConfirmed_example =
    build_inner-IsConfirmed bundler options ops world (omega arith) (op-IsUserOp, (op-IsUserOp, tt))
      world-IsTyped expected refl accepted_run

build_inner_broadcasts_example :
    let log = (run world (build_inner bundler ops options) []).1 in
    (count is_broadcast log ≤ 1)
    × (true ≡ false → (count is_broadcast log ≡ 0) × (count is_lock log ≡ 0))
    × (count is_lock log ≡ count is_unlock log)
build_inner_broadcasts_example =
    build_inner_broadcasts bundler options ops world (omega arith) (op-IsUserOp, (op-IsUserOp, tt))
      world-IsTyped

run-build_signed_user_ops_tx_example :
    let (r, log) = run world (build_signed_user_ops_tx bundler (some 12) ops options) [] in
    let P = discipline bundler true in
    Obeyed P start log
    × (count is_broadcast log ≤ 1)
    × (count is_lock log ≡ count is_unlock log)
    × EndsOrCancelled bundler ops true (replay P start log) r
run-build_signed_user_ops_tx_example =
    run-build_signed_user_ops_tx bundler ops options (omega arith) (op-IsUserOp, (op-IsUserOp, tt))
      (some 12) world world-IsTyped

-- Dropped while it awaits the signature, under the lock.
cancelled_run :
    (run world (build_signed_user_ops_tx bundler (some 12) ops options) []).0 ≡ err cancelled
unfolding build_signed_user_ops_tx build_inner build_batch check_ops check_op check_prefund
    required_prefund sponsor_of check_deposit check_per_op_fees simulate judge parse_window
    signature_failed requires_aggregator is_out_of_time_range update_min prepare gas_with_margin
    choose_outer_fees min_u256 max_u256 finish sign_and_send sign_outer u128_from_u256 check_receipt
    pack pack_init_code pack_pair_to_bytes32 pack_paymaster pack_paymaster_and_data
    parse_paymaster_and_data slice bits be_bytes
cancelled_run = refl
