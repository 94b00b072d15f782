-- ===== src/Bundler/Policy/Outer.antt =====
-- The fees of the outer transaction.
use Prim.Native.Nat.{max}
use ethera_bundler.Base.{
  ℕ, ◌+◌, ◌<◌, ◌≡◌, min, String, ok, err, arith, if◌then◌else◌, ltb, leb, ltb→lt, ltb→le, le→leb,
  lt→leb, Bool-cases, inl, inr,
}
use ethera_bundler.Alloy.{Uint, u64_max, u128_mod}
use ethera_bundler.Config.{BundlerConfig}
use ethera_bundler.Types.{IsU256}
use ethera_bundler.Errors.{Format, fee_cap_too_low}
use ethera_bundler.Bundler.Policy.{choose_outer_fees, max_u256, u128_from_u256}
use ethera_bundler.Bundler.Policy.Fees.{u256_max, min_u256_lem}

-- `min(max(minimum, suggested), smallest tip of the batch)`
abbrev pub outer_tip : BundlerConfig → (suggested min_user_tip : ℕ) → ℕ
outer_tip cfg suggested min_user_tip = min (max cfg.min_priority_fee_wei suggested) min_user_tip

max_u256_lem : (a b : ℕ) → max_u256 a b ≡ max a b
unfolding max_u256
max_u256_lem a b = ground arith

swap_test {ℓ} :
    {A : Type ℓ} (a b : ℕ) (x y : A) → (if ltb a b then x else y) ≡ (if leb b a then y else x)
swap_test a b x y = elim (Bool-cases (ltb a b)) [
  | inl e ↦ rw (e, lt→leb a b (ltb→lt a b e))
  | inr e ↦ rw (e, le→leb b a (ltb→le a b e))
]

module _ ⦃u : Uint⦄ ⦃f : Format⦄ (cfg : BundlerConfig)
    (base suggested min_user_tip min_user_fee_cap : ℕ) where
  -- Given a 256-bit base fee and smallest user tip, the outer tip is the smallest user tip, or the
  -- larger of the minimum and the suggested tip if that is smaller; the fee cap is the smallest
  -- user cap. They are returned exactly if the cap covers the base fee with that tip; otherwise the
  -- error is about no operation of the batch.
  pub choose_outer_fees_lem :
      IsU256 base
      → IsU256 min_user_tip
      → let tip = outer_tip cfg suggested min_user_tip in
        choose_outer_fees cfg base suggested min_user_tip min_user_fee_cap ≡ (
          if leb (min (base + tip) u256_max) min_user_fee_cap
          then ok (tip, min_user_fee_cap)
          else err (
              fee_cap_too_low u64_max
                (f.show min_user_fee_cap)
                (f.show (min (base + tip) u256_max))))
  unfolding choose_outer_fees
  choose_outer_fees_lem hb ht =
      rw
        (
          max_u256_lem cfg.min_priority_fee_wei suggested,
          min_u256_lem (max cfg.min_priority_fee_wei suggested) min_user_tip,
          u.saturating_add_lem base (outer_tip cfg suggested min_user_tip) hb (omega arith),
        )
        (swap_test min_user_fee_cap _ _ _)

-- A number is converted to 128 bits exactly if it fits, and stays the same.
pub u128_from_u256-eq-ok :
    (v : ℕ) (field : String) {n : ℕ} → u128_from_u256 v field ≡ ok n → (v < u128_mod) × (v ≡ n)
unfolding u128_from_u256
u128_from_u256-eq-ok v field h = ground arith
