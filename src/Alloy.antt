-- ===== src/Alloy.antt =====
-- What the bundler takes from the `alloy` crates, which are not part of the repository: the named
-- methods of `U256`, as an interface with their documented behaviour.
--
-- A `U256`, a `u128`, a `u64` and a `usize` are the numbers that they stand for, so that the
-- operators on them (`<`, `==`, `&`, `>>`, `<<`, checked conversions between widths) are those on
-- numbers. An `Address` and a `B256` are the strings of their 20 and 32 bytes, so that
-- `as_slice` and `from_slice` change nothing.
pub mod Native
pub mod Laws
use ethera_bundler.Base.{
  ℕ, ◌+◌, ◌-◌, ◌*◌, ◌^◌, ◌≤◌, ◌<◌, ◌≡◌, ◌↔◌, min, Bool, true, ◌&&◌, List, [], ◌∷◌, ◌==◌, Option,
  some, none, if◌then◌else◌, ltb, length,
}
use ethera_bundler.Base.Bytes.{Bytes, IsBytes, IsByte, be_value}
use ethera_bundler.Base.{All}

abbrev pub u64_mod : ℕ
u64_mod = 2 ^ 64

abbrev pub u128_mod : ℕ
u128_mod = 2 ^ 128

abbrev pub u256_mod : ℕ
u256_mod = 2 ^ 256

-- `u64::MAX`, which is `usize::MAX` on the 64-bit targets of the binary too.
abbrev pub u64_max : ℕ
u64_max = u64_mod - 1

abbrev pub Address : Type 0
Address = Bytes

abbrev pub Hash : Type 0
Hash = Bytes

-- `is_zero` of a fixed byte string: every byte is 0.
abbrev pub is_zero : Bytes → Bool
is_zero [] = true
is_zero (b ∷ bs) = (b == 0) && is_zero bs

-- `u64::try_from` and `u128::try_from` of a wider number.
abbrev pub try_u64 : ℕ → Option ℕ
try_u64 v = if ltb v u64_mod then some v else none

abbrev pub try_u128 : ℕ → Option ℕ
try_u128 v = if ltb v u128_mod then some v else none

-- The methods of `U256`. `to_be_bytes` is `to_be_bytes::<32>`.
pub record Uint : Type 0 where
  pub bit_len : ℕ → ℕ
  pub to_be_bytes : ℕ → Bytes
  pub from_be_slice : Bytes → ℕ
  pub saturating_add : ℕ → ℕ → ℕ
  pub saturating_mul : ℕ → ℕ → ℕ
  pub bit_len-le : (v n : ℕ) → v < u256_mod → (bit_len v ≤ n) ↔ (v < 2 ^ n)
  pub to_be_bytes-IsBytes : (v : ℕ) → v < u256_mod → IsBytes 32 (to_be_bytes v)
  pub be_value-to_be_bytes : (v : ℕ) → v < u256_mod → be_value (to_be_bytes v) ≡ v
  pub from_be_slice_lem :
      (bs : Bytes) → All IsByte bs → length bs ≤ 32 → from_be_slice bs ≡ be_value bs
  pub saturating_add_lem :
      (a b : ℕ) → a < u256_mod → b < u256_mod → saturating_add a b ≡ min (a + b) (u256_mod - 1)
  pub saturating_mul_lem :
      (a b : ℕ) → a < u256_mod → b < u256_mod → saturating_mul a b ≡ min (a * b) (u256_mod - 1)
