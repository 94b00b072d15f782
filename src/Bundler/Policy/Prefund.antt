-- ===== src/Bundler/Policy/Prefund.antt =====
-- The prefund formula, and who pays it.
use ethera_bundler.Base.{
  ℕ, zero, suc, ◌+◌, ◌*◌, ◌≤◌, ◌<◌, ◌≡◌, ◌↔◌, ap, ◌∙◌, min, true, false, some, ok, ◌>>=◌, arith,
  leb, Bool-cases, inl, inr,
}
use ethera_bundler.Alloy.{Uint, Address, is_zero}
use ethera_bundler.Config.{BundlerConfig}
use ethera_bundler.Contracts.{PackedUserOperation}
use ethera_bundler.Types.{UserOpV07, IsUserOp, IsU256, bytes_is_empty}
use ethera_bundler.Packing.{pack, parse_paymaster_and_data}
use ethera_bundler.Packing.RoundTrip.{pack-parse_paymaster_and_data}
use ethera_bundler.Errors.{Format}
use ethera_bundler.Bundler.Policy.{required_prefund, check_deposit, sponsor_of}
use ethera_bundler.Bundler.Policy.Fees.{u256_max}

-- The gas of an operation: the sum of its five limits.
abbrev pub gas_sum : UserOpV07 → ℕ → ℕ → ℕ
gas_sum op pm_ver pm_post =
    op.verification_gas_limit + op.call_gas_limit + pm_ver + pm_post + op.pre_verification_gas

clipped_product : (s cap m : ℕ) → min (min s m * cap) m ≡ min (s * cap) m
clipped_product s zero m = omega arith
clipped_product s (suc cap) m = elim (Bool-cases (leb s m)) [
  | inl e ↦ ground arith
  | inr e ↦
      let big : m < s = ground arith in
      let a : m ≤ m * suc cap = grind arith in
      let b : m ≤ s * suc cap = grind arith in
      let c : min s m ≡ m = omega arith in rw c (omega arith)
]

module _ ⦃u : Uint⦄ where
  -- One more summand after a saturated sum.
  add_saturated :
      (x a b : ℕ) → a ≡ min x u256_max → IsU256 b → u.saturating_add a b ≡ min (x + b) u256_max
  add_saturated x a b e h = u.saturating_add_lem a b (omega arith) h ∙ omega arith

  -- For an operation in the ranges of its types and 256-bit paymaster limits, the required prefund
  -- is the sum of the five gas limits times the fee cap, saturated once: the saturations of the
  -- single steps change nothing else.
  pub required_prefund_lem :
      (op : UserOpV07) (pm_ver pm_post : ℕ)
      → IsUserOp op
      → IsU256 pm_ver
      → IsU256 pm_post
      → required_prefund op pm_ver pm_post
        ≡ min (gas_sum op pm_ver pm_post * op.max_fee_per_gas) u256_max
  unfolding required_prefund
  required_prefund_lem op pm_ver pm_post w hv hp =
      let ver = op.verification_gas_limit in
      let gas = op.call_gas_limit in
      let e1 = u.saturating_add_lem ver gas w.verification_gas_limit w.call_gas_limit in
      let e2 = add_saturated (ver + gas) _ pm_ver e1 hv in
      let e3 = add_saturated (ver + gas + pm_ver) _ pm_post e2 hp in
      let e4 =
        add_saturated (ver + gas + pm_ver + pm_post) _ op.pre_verification_gas e3
          w.pre_verification_gas in
      u.saturating_mul_lem _ op.max_fee_per_gas (omega (arith, e4)) w.max_fee_per_gas
      ∙ ap (λ t. min (t * op.max_fee_per_gas) u256_max) e4
      ∙ clipped_product (gas_sum op pm_ver pm_post) op.max_fee_per_gas u256_max

  -- The deposit check passes exactly if the deposit covers the required prefund.
  pub check_deposit-ok_iff :
      ⦃f : Format⦄ (cfg : BundlerConfig) (i : ℕ) (sponsor : Address) (required deposit : ℕ)
      → (check_deposit cfg i sponsor required deposit ≡ ok tt) ↔ (required ≤ deposit)
  unfolding check_deposit
  check_deposit-ok_iff cfg i sponsor required deposit = ground arith

  -- The sponsor of a packed operation in the ranges of its types with a paymaster in the unpacked
  -- form is that paymaster, with the two gas limits of the operation.
  sponsor_of-pack :
      (op : UserOpV07) (w : IsUserOp op) (p : PackedUserOperation) (pm : Address)
      → bytes_is_empty op.paymaster_and_data ≡ true
      → op.paymaster ≡ some pm
      → is_zero pm ≡ false
      → pack op ≡ ok p
      → (parse_paymaster_and_data p.paymaster_and_data >>= λ parsed. ok (sponsor_of op parsed))
        ≡ ok (pm, op.paymaster_verification_gas_limit, op.paymaster_post_op_gas_limit)
  unfolding sponsor_of
  sponsor_of-pack op w p pm empty has nonzero e =
      rw (pack-parse_paymaster_and_data op w p pm empty has nonzero e, nonzero)
