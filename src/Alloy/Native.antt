-- ===== src/Alloy/Native.antt =====
-- `U256` by native numbers: the interface can be met, and tests and witnesses run on it.
use native.Mathlib.Nat.{pow-suc}
use ethera_bundler.Base.{
  ℕ, zero, suc, ◌+◌, ◌-◌, ◌*◌, ◌/◌, ◌%◌, ◌^◌, ◌≤◌, ◌<◌, ◌≡◌, ◌↔◌, refl, ◌∙◌, min, [], ◌∷◌, ◌++◌,
  ◌==◌, if◌then◌else◌, length-append, All-append, arith,
}
use ethera_bundler.Base.Bytes.{Bytes, IsBytes, IsByte, be_value, be_value-append}
use ethera_bundler.Base.Bits.{pow-pos}
use ethera_bundler.Alloy.{Uint, u256_mod}

-- The binary digits of a number below `2 ^ fuel`.
unfoldable pub bits : ℕ → ℕ → ℕ
bits zero v = 0
bits (suc fuel) v = if v == 0 then 0 else suc (bits fuel (v / 2))

-- The lowest `n` bytes of `v`, the highest first.
unfoldable pub be_bytes : ℕ → ℕ → Bytes
be_bytes zero v = []
be_bytes (suc n) v = be_bytes n (v / 256) ++ (v % 256 ∷ [])

pub bits-le : (fuel v n : ℕ) → v < 2 ^ fuel → (bits fuel v ≤ n) ↔ (v < 2 ^ n)
unfolding bits
bits-le zero v n h = ground (arith, pow-pos n)
bits-le (suc fuel) v zero h = ground arith
bits-le (suc fuel) v (suc n) h = ground (
  arith,
  pow-suc 2 n,
  pow-suc 2 fuel,
  pow-pos (suc n),
  bits-le fuel (v / 2) n (omega (arith, pow-suc 2 fuel)),
)

pub be_bytes-IsBytes : (n v : ℕ) → IsBytes n (be_bytes n v)
unfolding be_bytes
be_bytes-IsBytes zero v = (refl, tt)
be_bytes-IsBytes (suc n) v = (
  omega (
    arith,
    length-append {0} (be_bytes n (v / 256)) (v % 256 ∷ []),
    (be_bytes-IsBytes n (v / 256)).0,
  ),
  All-append IsByte (be_bytes n (v / 256)) _ (be_bytes-IsBytes n (v / 256)).1 (omega arith),
)

pub be_value-be_bytes : (n v : ℕ) → v < 256 ^ n → be_value (be_bytes n v) ≡ v
unfolding be_bytes
be_value-be_bytes zero v h = omega arith
be_value-be_bytes (suc n) v h =
    be_value-append (be_bytes n (v / 256)) (v % 256 ∷ [])
    ∙ omega (arith, be_value-be_bytes n (v / 256) (omega (arith, pow-suc 256 n)))

abbrev pub native_uint : Uint
native_uint = record {
  bit_len = bits 256;
  to_be_bytes = be_bytes 32;
  from_be_slice = be_value;
  saturating_add = λ a b. min (a + b) (u256_mod - 1);
  saturating_mul = λ a b. min (a * b) (u256_mod - 1);
  bit_len-le = bits-le 256;
  to_be_bytes-IsBytes = λ v h. be_bytes-IsBytes 32 v;
  be_value-to_be_bytes = be_value-be_bytes 32;
  from_be_slice_lem = λ bs h l. refl;
  saturating_add_lem = λ a b ha hb. refl;
  saturating_mul_lem = λ a b ha hb. refl;
}
