-- ===== src/Base/Bits.antt =====
-- A mask of low ones is a remainder, at every width: what `&` does with `(1 << k) - 1`.
use Prim.Native.Nat.{
  ℕ, zero, suc, ◌+◌, ◌-◌, ◌*◌, ◌/◌, ◌%◌, ◌^◌, ◌≤◌, ◌<◌, min, bit_and, digits, bit_and-bitwise,
}
use mathlib.Core.Path.{◌≡◌, refl, sym, ap, ◌∙◌}
use native.Mathlib.Omega.{arith}
use native.Mathlib.Nat.{pow-suc, mod-lt, mod-eq_of_lt, div-add-mod, add-mul-mod_self_left}

-- The number of `k` ones.
abbrev ones : ℕ → ℕ
ones zero = 0
ones (suc k) = ones k * 2 + 1

ones-pow : (k : ℕ) → ones k + 1 ≡ 2 ^ k
ones-pow zero = refl
ones-pow (suc k) = omega (arith, ones-pow k, pow-suc 2 k)

pub pow-pos : (k : ℕ) → 0 < 2 ^ k
pow-pos k = omega (arith, ones-pow k)

half_ones : (k : ℕ) → (ones k * 2 + 1) / 2 ≡ ones k
half_ones k = omega arith

mod_double : (a d : ℕ) → 0 < d → a % (d * 2) ≡ a / 2 % d * 2 + a % 2
mod_double a d h =
    let low : ℕ = a / 2 % d * 2 + a % 2 in
    let fits : low < d * 2 = omega (arith, mod-lt (a / 2) h) in
    let whole : low + d * 2 * (a / 2 / d) ≡ a = omega (arith, div-add-mod (a / 2) d) in
    sym (ap (λ x. x % (d * 2)) whole)
    ∙ add-mul-mod_self_left low (d * 2) (a / 2 / d)
    ∙ mod-eq_of_lt fits

zero-mod : (k : ℕ) → 0 % 2 ^ k ≡ 0
zero-mod k = mod-eq_of_lt (pow-pos k)

-- Digit by digit, for as many digits as the number may have.
masked_digits : (fuel k a : ℕ) → a ≤ fuel → digits (λ _. zero) min fuel a (ones k) ≡ a % 2 ^ k
masked_digits zero k zero h = sym (zero-mod k)
masked_digits zero k (suc a) h = absurd (omega arith)
masked_digits (suc fuel) k zero h = sym (zero-mod k)
masked_digits (suc fuel) zero (suc a) h =
    omega (arith, masked_digits fuel zero (suc a / 2) (omega arith))
masked_digits (suc fuel) (suc k) (suc a) h =
    rw (pow-suc, mod_double (suc a) (2 ^ k) (pow-pos k))
      (omega (
        arith,
        masked_digits fuel k (suc a / 2) (omega arith),
        ap (digits (λ _. zero) min fuel (suc a / 2)) (half_ones k),
      ))

-- `a & ((1 << k) - 1)` keeps the low `k` bits.
pub bit_and-mask : (k a : ℕ) → bit_and a (2 ^ k - 1) ≡ a % 2 ^ k
bit_and-mask k a =
    ap (bit_and a) (mask k) ∙ (bit_and-bitwise a (ones k) ∙ masked_digits a k a (omega arith))
  where
    mask : (k : ℕ) → 2 ^ k - 1 ≡ ones k
    mask k = omega (arith, ones-pow k)
