-- ===== src/Packing/Words.antt =====
-- The 32-byte words of the on-chain struct: two 128-bit numbers, the first in the upper half.
use ethera_bundler.Base.{
  ℕ, ◌≤◌, ◌<◌, ◌≡◌, refl, ◌⊎◌, ◌++◌, String, ok, err, arith, ltb, take, drop, length-append,
  All-append, take-append, drop-append, Bool-cases, inl, inr, true, false, le→ltb, ltb→le, leb,
}
use ethera_bundler.Base.Bytes.{IsByte, IsBytes, be_value}
use ethera_bundler.Alloy.{Uint, Hash, u128_mod, u256_mod}
use ethera_bundler.Alloy.Laws.{low_part}
use ethera_bundler.Packing.{overflow, pack_pair_to_bytes32}

-- `EntryPoint.unpackUints`: the two halves of a word, as numbers.
abbrev pub unpack_uints : Hash → ℕ × ℕ
unpack_uints word = (be_value (take 16 word), be_value (drop 16 word))

module _ ⦃u : Uint⦄ where
  -- The lower half of a number that fits 128 bits is the whole number.
  pub low_half :
      (v : ℕ)
      → v < u128_mod
      → IsBytes 16 (drop 16 (u.to_be_bytes v)) × (be_value (drop 16 (u.to_be_bytes v)) ≡ v)
  low_half v h = low_part 16 16 v refl (omega arith) h

  -- The test on `bit_len` is the bound of 128 bits.
  pub fits : (v : ℕ) → v < u128_mod → ltb 128 (u.bit_len v) ≡ false
  fits v h = le→ltb 128 (u.bit_len v) ((u.bit_len-le v 128 (omega arith)).1 h)

  pub too_wide : (v : ℕ) → v < u256_mod → u128_mod ≤ v → ltb 128 (u.bit_len v) ≡ true
  too_wide v h w = elim (Bool-cases (ltb 128 (u.bit_len v))) [
    | inl e ↦ e
    | inr e ↦ absurd (omega (arith, (u.bit_len-le v 128 h).0 (ltb→le 128 (u.bit_len v) e)))
  ]

  -- The word that `pack_pair_to_bytes32` builds of two numbers.
  abbrev pub pair_word : ℕ → ℕ → Hash
  pair_word hi lo = drop 16 (u.to_be_bytes hi) ++ drop 16 (u.to_be_bytes lo)

  pub pair_word-IsBytes : (hi lo : ℕ) → hi < u128_mod → lo < u128_mod → IsBytes 32 (pair_word hi lo)
  pair_word-IsBytes hi lo hh hl =
      let (h, _) = low_half hi hh in
      let (l, _) = low_half lo hl in
      (
        omega (
          arith,
          length-append {0} (drop 16 (u.to_be_bytes hi)) (drop 16 (u.to_be_bytes lo)),
          h.0,
          l.0,
        ),
        All-append IsByte (drop 16 (u.to_be_bytes hi)) _ h.1 l.1,
      )

  pub unpack_uints-pair_word :
      (hi lo : ℕ) → hi < u128_mod → lo < u128_mod → unpack_uints (pair_word hi lo) ≡ (hi, lo)
  unpack_uints-pair_word hi lo hh hl =
      let (h, eh) = low_half hi hh in
      let (l, el) = low_half lo hl in
      rw (
        take-append 16 (drop 16 (u.to_be_bytes hi)) (drop 16 (u.to_be_bytes lo)) h.0,
        drop-append 16 (drop 16 (u.to_be_bytes hi)) (drop 16 (u.to_be_bytes lo)) h.0,
        eh,
        el,
      )

  -- Two numbers are packed into a word of 32 bytes, which the chain reads back as the two numbers,
  -- when both fit 128 bits.
  pack_pair_to_bytes32-unpack_uints :
      (hi lo : ℕ) (field : String)
      → hi < u128_mod
      → lo < u128_mod
      → (word : Hash) × (pack_pair_to_bytes32 hi lo field ≡ ok word)
        × IsBytes 32 word
        × (unpack_uints word ≡ (hi, lo))
  unfolding pack_pair_to_bytes32
  pack_pair_to_bytes32-unpack_uints hi lo field hh hl = (
    pair_word hi lo,
    rw (fits hi hh, fits lo hl),
    pair_word-IsBytes hi lo hh hl,
    unpack_uints-pair_word hi lo hh hl,
  )

  -- If one of two 256-bit numbers does not fit 128 bits, packing them is the overflow of the field.
  pack_pair_to_bytes32_overflow :
      (hi lo : ℕ) (field : String)
      → hi < u256_mod
      → lo < u256_mod
      → (u128_mod ≤ hi) ⊎ (u128_mod ≤ lo)
      → pack_pair_to_bytes32 hi lo field ≡ err (overflow field)
  unfolding pack_pair_to_bytes32
  pack_pair_to_bytes32_overflow hi lo field hh hl (inl w) = rw (too_wide hi hh w)
  pack_pair_to_bytes32_overflow hi lo field hh hl (inr w) = rw (too_wide lo hl w) (ground arith)

  -- A word was built only from two numbers that fit, and is their word.
  pub pack_pair_to_bytes32-eq-ok :
      (hi lo : ℕ) (field : String) {word : Hash}
      → hi < u256_mod
      → lo < u256_mod
      → pack_pair_to_bytes32 hi lo field ≡ ok word
      → (hi < u128_mod) × (lo < u128_mod) × (word ≡ pair_word hi lo)
  unfolding pack_pair_to_bytes32
  pack_pair_to_bytes32-eq-ok hi lo field hh hl e =
      ground (arith, u.bit_len-le hi 128 hh, u.bit_len-le lo 128 hl)

  -- The test on `bit_len`, as a comparison of numbers.
  pub bit_len_test : (v : ℕ) → v < u256_mod → ltb 128 (u.bit_len v) ≡ leb u128_mod v
  bit_len_test v h = ground (arith, u.bit_len-le v 128 h)
