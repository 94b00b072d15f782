-- ===== src/Bundler/Policy/Fees.antt =====
-- The fee policy for one operation, the minima over a batch, and the gas margin.
use native.Mathlib.Nat.{mod-eq_of_lt}
use ethera_bundler.Base.{
  ℕ, ◌+◌, ◌-◌, ◌*◌, ◌/◌, ◌≤◌, ◌<◌, ◌≡◌, refl, ◌↔◌, min, List, [], ◌∷◌, ◌++◌, Option, none, some, ok,
  err, arith, All, Option-cases, inl, inr,
}
use ethera_bundler.Alloy.{Uint, u64_max, u64_mod, u256_mod}
use ethera_bundler.Config.{BundlerConfig}
use ethera_bundler.Types.{UserOpV07, IsU256}
use ethera_bundler.Errors.{Format, invalid_user_op, priority_fee_too_low, fee_cap_too_low}
use ethera_bundler.Bundler.Policy.{check_per_op_fees, update_min, gas_with_margin, min_u256}

-- The largest 256-bit number, at which sums saturate.
abbrev pub u256_max : ℕ
u256_max = u256_mod - 1

-- The fee policy in numbers.
pub record IsPriced (cfg : BundlerConfig) (base : ℕ) (op : UserOpV07) : Type 0 where
  pub tip_within : op.max_priority_fee_per_gas ≤ op.max_fee_per_gas
  pub tip_enough : cfg.min_priority_fee_wei ≤ op.max_priority_fee_per_gas
  pub cap_enough : min (base + cfg.min_priority_fee_wei) u256_max ≤ op.max_fee_per_gas

module _ ⦃u : Uint⦄ ⦃f : Format⦄ (cfg : BundlerConfig) (i base : ℕ) (op : UserOpV07) where
  -- Given a 256-bit base fee and minimum, an operation passes the fee policy exactly if its tip is
  -- at most its fee cap and at least the bundler's minimum, and its fee cap covers the base fee
  -- with that minimum.
  pub check_per_op_fees-ok_iff :
      IsU256 base
      → IsU256 cfg.min_priority_fee_wei
      → (check_per_op_fees cfg i op base ≡ ok tt) ↔ IsPriced cfg base op
  unfolding check_per_op_fees
  check_per_op_fees-ok_iff hb hm =
      rw (u.saturating_add_lem base cfg.min_priority_fee_wei hb hm) (ground arith)

  -- Given a 256-bit base fee and minimum, an operation that fails the fee policy is reported with
  -- its own index, and for the first of the three rules that it breaks.
  pub check_per_op_fees_first :
      IsU256 base
      → IsU256 cfg.min_priority_fee_wei
      → (op.max_fee_per_gas < op.max_priority_fee_per_gas
          → check_per_op_fees cfg i op base
            ≡ err (invalid_user_op i "maxPriorityFeePerGas > maxFeePerGas"))
        × (op.max_priority_fee_per_gas ≤ op.max_fee_per_gas
            → op.max_priority_fee_per_gas < cfg.min_priority_fee_wei
            → check_per_op_fees cfg i op base
              ≡ err (
                  priority_fee_too_low i
                    (f.show op.max_priority_fee_per_gas)
                    (f.show cfg.min_priority_fee_wei)))
        × (op.max_priority_fee_per_gas ≤ op.max_fee_per_gas
            → cfg.min_priority_fee_wei ≤ op.max_priority_fee_per_gas
            → op.max_fee_per_gas < min (base + cfg.min_priority_fee_wei) u256_max
            → check_per_op_fees cfg i op base
              ≡ err (
                  fee_cap_too_low i
                    (f.show op.max_fee_per_gas)
                    (f.show (min (base + cfg.min_priority_fee_wei) u256_max))))
  unfolding check_per_op_fees
  check_per_op_fees_first hb hm =
      rw (u.saturating_add_lem base cfg.min_priority_fee_wei hb hm)
        (λ p. ground arith, λ p q. ground arith, λ p q r. ground arith)

pub min_u256_lem : (a b : ℕ) → min_u256 a b ≡ min a b
unfolding min_u256
min_u256_lem a b = ground arith

-- The smallest number of a list.
abbrev pub least : List ℕ → Option ℕ
least [] = none
least (x ∷ xs) = elim (least xs) [ none ↦ some x | some m ↦ some (min x m) ]

-- Updating the slot by one more number at the end keeps the slot the smallest number.
pub update_min-least : (xs : List ℕ) (x : ℕ) → update_min (least xs) x ≡ least (xs ++ (x ∷ []))
unfolding update_min
update_min-least [] x = refl
update_min-least (y ∷ xs) x = ground (arith, update_min-least xs x)

least-none : (k : ℕ) (xs : List ℕ) → least xs ≡ none → All (λ x. k ≤ x) xs
least-none k [] h = tt
least-none k (x ∷ xs) h = elim (Option-cases (least xs)) [
  | inl e ↦ ground arith
  | inr (n, e) ↦ ground arith
]

least_bound : (m k : ℕ) (xs : List ℕ) → least xs ≡ some m → k ≤ m → All (λ x. k ≤ x) xs
least_bound m k [] h l = tt
least_bound m k (x ∷ xs) h l = elim (Option-cases (least xs)) [
  | inl e ↦ (ground arith, least-none k xs e)
  | inr (n, e) ↦ (ground arith, least_bound n k xs e (ground arith))
]

-- The smallest number is at most every number of the list.
pub least-le : (m : ℕ) (xs : List ℕ) → least xs ≡ some m → All (λ x. m ≤ x) xs
least-le m xs h = least_bound m m xs h (omega arith)

-- A bound of every number bounds the smallest.
pub le-least : (k m : ℕ) (xs : List ℕ) → All (λ x. k ≤ x) xs → least xs ≡ some m → k ≤ m
le-least k m [] h e = cc
le-least k m (x ∷ xs) h e = elim (Option-cases (least xs)) [
  | inl e' ↦ ground arith
  | inr (n, e') ↦ ground (arith, le-least k n xs h.1 e')
]

-- A list with a number has a smallest one.
pub least_total : (x : ℕ) (xs : List ℕ) → (m : ℕ) × (least (x ∷ xs) ≡ some m)
least_total x xs = elim (Option-cases (least xs)) [
  | inl e ↦ (x, rw e)
  | inr (n, e) ↦ (min x n, rw e)
]

-- Given a 64-bit estimate, with the margin the gas limit is at least the estimate and still a
-- `u64`; where the product of estimate and percentage fits 64 bits it is the estimate plus that
-- percentage of it, saturated.
pub gas_with_margin_lem :
    (estimated pct : ℕ)
    → estimated < u64_mod
    → (estimated ≤ gas_with_margin estimated pct)
      × (gas_with_margin estimated pct < u64_mod)
      × (estimated * pct < u64_mod
          → gas_with_margin estimated pct ≡ min (estimated + estimated * pct / 100) u64_max)
unfolding gas_with_margin
gas_with_margin_lem estimated pct h = (omega arith, omega arith, λ fits. rw (mod-eq_of_lt fits))

-- Where the estimate with its margin fits 64 bits, but the product of estimate and percentage
-- exceeds them by 100 or more, less than the configured percentage is added: the product has
-- wrapped.
pub gas_with_margin_wraps :
    (estimated pct : ℕ)
    → estimated + estimated * pct / 100 < u64_mod
    → u64_mod + 100 ≤ estimated * pct
    → gas_with_margin estimated pct < estimated + estimated * pct / 100
unfolding gas_with_margin
gas_with_margin_wraps estimated pct h w = omega arith
