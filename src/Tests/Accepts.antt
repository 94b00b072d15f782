-- ===== src/Tests/Accepts.antt =====
-- Requests that a steady node lets succeed.
use ethera_bundler.Base.{
  map, false, some, refl, err, ◌⊎◌, ◌∷◌, List, ℕ, ◌≡◌, ◌↔◌, [], arith, ok, inl,
}
use ethera_bundler.Base.Bytes.{slice}
use ethera_bundler.Alloy.Native.{bits, be_bytes}
use ethera_bundler.Packing.{
  overflow, pack_init_code, pack_pair_to_bytes32, pack_paymaster, pack_paymaster_and_data,
  parse_paymaster_and_data,
}
use ethera_bundler.Packing
use ethera_bundler.Packing.Fields.{packed, packed_blob}
use ethera_bundler.Validator.{
  simulate, judge, parse_window, signature_failed, requires_aggregator, is_out_of_time_range,
}
use ethera_bundler.Errors.{pack, BundlerError, fee_cap_too_low}
use ethera_bundler.Errors.Json.{num, get}
use ethera_bundler.Errors.Classify.{classify}
use ethera_bundler.Bundler.Policy.Fees.{check_per_op_fees_first}
use ethera_bundler.Bundler.Pipeline.Accepts.Failure.{Fails, unpriced}
use ethera_bundler.Bundler.Pipeline.Accepts.Named.{get-classify_failed}
use ethera_bundler.Bundler.Policy.{
  required_prefund, sponsor_of, check_deposit, check_per_op_fees, update_min, gas_with_margin,
  choose_outer_fees, min_u256, max_u256, u128_from_u256,
}
use ethera_bundler.Bundler.Pipeline.Accepts.Funding.{Leads, packed_blob-charged}
use ethera_bundler.Bundler.Pipeline.Accepts.Reported.{AllPass, FirstFails, build_inner-FirstFails}
use ethera_bundler.Types.{UserOpV07, IsU256}
use ethera_bundler.Provider.{base_fee, wait_for_receipt, try_call_for_revert}
use ethera_bundler.Program.{Call, Answer, query, run}
use ethera_bundler.Program.Steady.{steady}
use ethera_bundler.Bundler.Pipeline.{
  build_inner, build_batch, check_ops, check_op, check_prefund, prepare, finish, sign_and_send,
  sign_outer, check_receipt,
}
use ethera_bundler.Bundler.Pipeline.Accepts.Response.{IsAccepted, envelope_of}
use ethera_bundler.Bundler.Pipeline.Accepts.Outer.{Mined}
use ethera_bundler.Bundler.Pipeline.Accepts.Settled.{Settles, build_inner-Settles}
use ethera_bundler.Bundler.Pipeline.Accepts.Modes.{submitting, sign_only, build_inner-Mined}
use ethera_bundler.Bundler.Pipeline.Accepts.Requests.{build_inner-ok_iff}
use ethera_bundler.Tests.Data.{
  uint, format, abi, answer, bundler, options, ops, op, op-IsUserOp, wide_op, wide_op-IsUserOp,
  sponsor,
}
use ethera_bundler.Tests.Requests.{expected, accepted_run}

base_fee_fits : (n : ℕ) → answer (query base_fee) ≡ inl n → IsU256 n
base_fee_fits n e = let same : 1_000_000_000 ≡ n = cc in omega (arith, same)

build_inner-ok_iff_example :
    ((run (steady answer) (build_inner bundler ops options) []).0 ≡ ok expected)
    ↔ IsAccepted bundler answer ops options expected
build_inner-ok_iff_example =
    build_inner-ok_iff answer bundler options ops expected (omega arith)
      (op-IsUserOp, (op-IsUserOp, tt)) base_fee_fits

-- The request of the other tests is one of them.
expected-IsAccepted : IsAccepted bundler answer ops options expected
expected-IsAccepted =
    (build_inner-ok_iff answer bundler options ops expected (omega arith)
        (op-IsUserOp, (op-IsUserOp, tt)) base_fee_fits).0
      accepted_run

-- The second operation has a fee cap that does not fit 128 bits.
abbrev wide_batch : List UserOpV07
wide_batch = op ∷ wide_op ∷ []

build_inner-FirstFails_example :
    AllPass answer bundler 1_000_000_000 wide_batch
    ⊎ FirstFails answer bundler 1_000_000_000 0 wide_batch
        (run (steady answer) (build_inner bundler wide_batch options) []).0
build_inner-FirstFails_example =
    build_inner-FirstFails answer bundler options wide_batch (omega arith)
      (op-IsUserOp, (wide_op-IsUserOp, tt)) 1_000_000_000 5_000_000 (omega arith) refl refl refl
      (omega arith) (omega arith)

wide_refused :
    (run (steady answer) (build_inner bundler wide_batch options) []).0
    ≡ err (pack (overflow "gasFees"))
unfolding build_inner build_batch check_ops check_op check_prefund required_prefund sponsor_of
    check_deposit check_per_op_fees simulate judge parse_window signature_failed requires_aggregator
    is_out_of_time_range update_min Packing.pack pack_init_code pack_pair_to_bytes32 pack_paymaster
    pack_paymaster_and_data parse_paymaster_and_data slice bits be_bytes
wide_refused = refl

packed_blob-charged_example : Leads op (packed_blob op) (sponsor, 70_000, 60_000)
packed_blob-charged_example =
    packed_blob-charged op op-IsUserOp
      (omega arith, (omega arith, (omega arith, (omega arith, (omega arith, (omega arith, tt))))))
      (inl refl)

-- The second operation does not pay a base fee of 10 gwei.
abbrev too_cheap : BundlerError
too_cheap = fee_cap_too_low 1 (format.show 3_000_000_000) (format.show 10_001_000_000)

op-fails : Fails answer bundler 10_000_000_000 1 op too_cheap
op-fails = unpriced too_cheap (
    (check_per_op_fees_first bundler.cfg 1 10_000_000_000 op (omega arith) (omega arith)).2
      (omega arith) (omega arith) (omega arith))

get-classify_failed_example : get "opIndex" (classify too_cheap).1 ≡ some (num 1)
unfolding op-fails
get-classify_failed_example =
    get-classify_failed answer bundler 10_000_000_000 1 op too_cheap op-fails

build_inner-Mined_example :
    ((run (steady answer) (build_inner bundler ops (submitting 901)) []).0 ≡ ok expected) ↔ (
      ((run (steady answer) (build_inner bundler ops (sign_only 901)) []).0 ≡ ok expected)
      × Mined answer (envelope_of expected))
build_inner-Mined_example =
    build_inner-Mined answer bundler 901 ops expected (omega arith) (op-IsUserOp, (op-IsUserOp, tt))
      base_fee_fits

-- The node tells a receipt of failure, and the replayed call reverts with `FailedOp`.
abbrev failing : (c : Call) → Answer c
failing (query (wait_for_receipt hash timeout)) =
    inl (some (record { tx_hash = hash; block_number = 77; success = false }))
failing (query (try_call_for_revert from to input)) =
    inl (some (0x22 ∷ 0x02 ∷ 0x66 ∷ 0xb6 ∷ 3 ∷ []))
failing c = answer c

failing_base_fee : (n : ℕ) → failing (query base_fee) ≡ inl n → IsU256 n
failing_base_fee n e = let same : 1_000_000_000 ≡ n = cc in omega (arith, same)

failing_signed : (run (steady failing) (build_inner bundler ops (sign_only 901)) []).0 ≡ ok expected
unfolding build_inner build_batch check_ops check_op check_prefund required_prefund sponsor_of
    check_deposit check_per_op_fees simulate judge parse_window signature_failed requires_aggregator
    is_out_of_time_range update_min prepare gas_with_margin choose_outer_fees min_u256 max_u256
    finish sign_and_send sign_outer u128_from_u256 check_receipt Packing.pack pack_init_code
    pack_pair_to_bytes32 pack_paymaster pack_paymaster_and_data parse_paymaster_and_data slice bits
    be_bytes
failing_signed = refl

build_inner-Settles_example :
    Settles failing bundler
      (abi.encode_handle_ops (map packed ops) bundler.signer_address)
      (envelope_of expected)
      expected
      (run (steady failing) (build_inner bundler ops (submitting 901)) []).0
build_inner-Settles_example =
    build_inner-Settles failing bundler 901 expected (omega arith) failing_base_fee ops
      (op-IsUserOp, (op-IsUserOp, tt)) failing_signed
