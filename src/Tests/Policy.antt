-- ===== src/Tests/Policy.antt =====
-- The fee policy on the operation.
use ethera_bundler.Base.{◌+◌, ◌*◌, ◌/◌, ◌^◌, ◌≤◌, ◌<◌, ◌≡◌, ◌↔◌, min, ok, arith}
use ethera_bundler.Alloy.{u64_max, u64_mod}
use ethera_bundler.Bundler.Policy.{
  check_per_op_fees, choose_outer_fees, gas_with_margin, required_prefund,
}
use ethera_bundler.Bundler.Policy.Fees.{
  IsPriced, check_per_op_fees-ok_iff, gas_with_margin_lem, gas_with_margin_wraps,
}
use ethera_bundler.Bundler.Policy.Outer.{choose_outer_fees_lem}
use ethera_bundler.Bundler.Policy.Prefund.{required_prefund_lem}
use ethera_bundler.Tests.Data.{uint, format, config, op, op-IsUserOp}

check_per_op_fees-ok_iff_example :
    (check_per_op_fees config 0 op 1_000_000_000 ≡ ok tt) ↔ IsPriced config 1_000_000_000 op
check_per_op_fees-ok_iff_example =
    check_per_op_fees-ok_iff config 0 1_000_000_000 op (omega arith) (omega arith)

gas_with_margin_lem_example :
    (300_000 ≤ gas_with_margin 300_000 10)
    × (gas_with_margin 300_000 10 < u64_mod)
    × (300_000 * 10 < u64_mod
        → gas_with_margin 300_000 10 ≡ min (300_000 + 300_000 * 10 / 100) u64_max)
gas_with_margin_lem_example = gas_with_margin_lem 300_000 10 (omega arith)

gas_with_margin_wraps_example : gas_with_margin (2 ^ 61) 100 < 2 ^ 61 + 2 ^ 61 * 100 / 100
gas_with_margin_wraps_example = gas_with_margin_wraps (2 ^ 61) 100 (omega arith) (omega arith)

choose_outer_fees_lem_example :
    choose_outer_fees config 10 2_000_000 20_000_000 3_000_000_000 ≡ ok (2_000_000, 3_000_000_000)
choose_outer_fees_lem_example =
    choose_outer_fees_lem config 10 2_000_000 20_000_000 3_000_000_000 (omega arith) (omega arith)

required_prefund_lem_example : required_prefund op 70_000 60_000 ≡ 1_050_000_000_000_000
required_prefund_lem_example =
    required_prefund_lem op 70_000 60_000 op-IsUserOp (omega arith) (omega arith)
