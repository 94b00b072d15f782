-- ===== src/Bundler/Policy.antt =====
-- crates/bundler/src/bundler.rs: the fee policy, the prefund formula and the gas margin.
pub mod Fees
pub mod Outer
pub mod Prefund
use ethera_bundler.Base.{
  ℕ, ◌+◌, ◌-◌, ◌*◌, ◌/◌, ◌%◌, ◌^◌, min, String, ◌<>◌, Bool, Option, none, some, Result, ok, err,
  panic, if◌then◌else◌, ltb, leb, not,
}
use ethera_bundler.Alloy.{Uint, Address, u64_max, u64_mod, is_zero, try_u128}
use ethera_bundler.Config.{BundlerConfig}
use ethera_bundler.Types.{UserOpV07}
use ethera_bundler.Errors.{
  Format, BundlerError, invalid_user_op, priority_fee_too_low, fee_cap_too_low,
  insufficient_deposit,
}

unfoldable pub min_u256 : ℕ → ℕ → ℕ
min_u256 a b = if leb a b then a else b

unfoldable pub max_u256 : ℕ → ℕ → ℕ
max_u256 a b = if leb b a then a else b

-- The slot after `update_min`.
unfoldable pub update_min : Option ℕ → ℕ → Option ℕ
update_min (some current) candidate = if leb current candidate then some current else some candidate
update_min none candidate = some candidate

-- `u128_from_u256`
unfoldable pub u128_from_u256 : ℕ → String → Result BundlerError ℕ
u128_from_u256 v field = elim (try_u128 v) [
  | some n ↦ ok n
  | none ↦ err (invalid_user_op u64_max (field <> " exceeds u128"))
]

-- `estimated.saturating_add(estimated * u64::from(gas_margin_pct) / 100)`. The product is a `u64`,
-- which the release build wraps.
unfoldable pub gas_with_margin : ℕ → ℕ → ℕ
gas_with_margin estimated pct = min (estimated + estimated * pct % u64_mod / 100) u64_max

-- `expect` aborts on `None`.
abbrev pub expect : {E A : Type 0} → Option A → String → Result E A
expect (some a) message = ok a
expect none message = panic message

-- The sponsor of an operation and the gas limits of its paymaster, from the parsed blob.
unfoldable pub sponsor_of : UserOpV07 → Option (Address × ℕ × ℕ) → Address × ℕ × ℕ
sponsor_of op none = (op.sender, 0, 0)
sponsor_of op (some (pm, ver, post)) =
    if not (is_zero pm) then (pm, ver, post) else (op.sender, 0, 0)

module _ ⦃u : Uint⦄ where
  unfoldable pub required_prefund : UserOpV07 → ℕ → ℕ → ℕ
  required_prefund op pm_ver pm_post =
      let total_gas =
        u.saturating_add
          (u.saturating_add
            (u.saturating_add (u.saturating_add op.verification_gas_limit op.call_gas_limit) pm_ver)
            pm_post)
          op.pre_verification_gas in
      u.saturating_mul total_gas op.max_fee_per_gas

module _ ⦃u : Uint⦄ ⦃f : Format⦄ (cfg : BundlerConfig) where
  unfoldable pub check_per_op_fees : ℕ → UserOpV07 → ℕ → Result BundlerError (Unit {0})
  check_per_op_fees i op base_fee =
      let required = u.saturating_add base_fee cfg.min_priority_fee_wei in
      if ltb op.max_fee_per_gas op.max_priority_fee_per_gas
      then err (invalid_user_op i "maxPriorityFeePerGas > maxFeePerGas")
      else if ltb op.max_priority_fee_per_gas cfg.min_priority_fee_wei
      then err (
          priority_fee_too_low i (f.show op.max_priority_fee_per_gas)
            (f.show cfg.min_priority_fee_wei))
      else if ltb op.max_fee_per_gas required
      then err (fee_cap_too_low i (f.show op.max_fee_per_gas) (f.show required))
      else ok tt

  -- The test at the end of `check_prefund`.
  unfoldable pub check_deposit : ℕ → Address → ℕ → ℕ → Result BundlerError (Unit {0})
  check_deposit i sponsor required deposit =
      if ltb deposit required
      then err (insufficient_deposit i (f.debug sponsor) (f.show required) (f.show deposit))
      else ok tt

  -- The tip and the fee cap of the outer transaction.
  unfoldable pub choose_outer_fees : ℕ → ℕ → ℕ → ℕ → Result BundlerError (ℕ × ℕ)
  choose_outer_fees base_fee suggested_tip min_user_tip min_user_fee_cap =
      let desired_tip = max_u256 cfg.min_priority_fee_wei suggested_tip in
      let tip = min_u256 desired_tip min_user_tip in
      let fee_cap = min_user_fee_cap in
      let required = u.saturating_add base_fee tip in
      if ltb fee_cap required
      then err (fee_cap_too_low u64_max (f.show fee_cap) (f.show required))
      else ok (tip, fee_cap)
