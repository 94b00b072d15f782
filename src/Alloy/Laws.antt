-- ===== src/Alloy/Laws.antt =====
-- The low bytes of a 256-bit number, and fixed byte strings compared as numbers.
use ethera_bundler.Base.{
  ℕ, zero, suc, ◌+◌, ◌*◌, ◌^◌, ◌<◌, ◌≡◌, refl, sym, ap, ◌∙◌, [], ◌∷◌, arith, length, take, drop,
  replicate, All-drop, length-drop, bytes_eq, bytes_eq→eq, bytes_eq_refl, ◌==◌, ==_iff, Bool-cases,
  ◌&&◌, inl, inr,
}
use ethera_bundler.Base.Bytes.{Bytes, IsByte, IsBytes, be_value, be_value_split, be_value_injective}
use ethera_bundler.Alloy.{Uint, u256_mod, is_zero}

no_high_part : (a p b v : ℕ) → v ≡ a * p + b → v < p → b ≡ v
no_high_part zero p b v e h = omega arith
no_high_part (suc a) p b v e h = absurd (omega arith)

module _ ⦃u : Uint⦄ where
  -- The last `m` of the 32 bytes of a number that fits in `m` bytes are the whole number.
  pub low_part :
      (n m v : ℕ)
      → n + m ≡ 32
      → v < u256_mod
      → v < 256 ^ m
      → IsBytes m (drop n (u.to_be_bytes v)) × (be_value (drop n (u.to_be_bytes v)) ≡ v)
  low_part n m v e h fits =
      let bs : Bytes = u.to_be_bytes v in
      let (len, bytes) = u.to_be_bytes-IsBytes v h in
      let cut : length (drop n bs) ≡ m = omega (arith, length-drop {0} n bs) in
      let parts = sym (u.be_value-to_be_bytes v h) ∙ be_value_split n m bs cut in
      (
        (cut, All-drop IsByte n bs bytes),
        no_high_part (be_value (take n bs)) (256 ^ m) _ v parts fits,
      )

-- Two strings of `n` bytes are equal exactly if they stand for the same number.
pub bytes_eq-be_value :
    (n : ℕ) (xs ys : Bytes)
    → IsBytes n xs
    → IsBytes n ys
    → bytes_eq xs ys ≡ (be_value xs == be_value ys)
bytes_eq-be_value n xs ys hx hy = elim (Bool-cases (be_value xs == be_value ys)) [
  | inl same ↦
      rw
        (
          be_value_injective n xs ys hx hy ((==_iff (be_value xs) (be_value ys)).0 same),
          bytes_eq_refl ys,
        )
        (ground arith)
  | inr other ↦ elim (Bool-cases (bytes_eq xs ys)) [
    | inl e ↦ ground (arith, ap be_value (bytes_eq→eq xs ys e))
    | inr e ↦ e ∙ sym other
  ]
]

is_zero-bytes_eq : (bs : Bytes) → is_zero bs ≡ bytes_eq bs (replicate (length bs) 0)
is_zero-bytes_eq [] = refl
is_zero-bytes_eq (b ∷ bs) = ap (λ t. (b == 0) && t) (is_zero-bytes_eq bs)

zeros-IsBytes : (n : ℕ) → IsBytes n (replicate n 0)
zeros-IsBytes zero = (refl, tt)
zeros-IsBytes (suc n) = let (len, bytes) = zeros-IsBytes n in (omega arith, (omega arith, bytes))

be_value-zeros : (n : ℕ) → be_value (replicate n 0) ≡ 0
be_value-zeros zero = refl
be_value-zeros (suc n) = be_value-zeros n

-- A fixed byte string is zero exactly if its number is.
pub is_zero-be_value : (n : ℕ) (bs : Bytes) → IsBytes n bs → is_zero bs ≡ (be_value bs == 0)
is_zero-be_value n bs h =
    is_zero-bytes_eq bs
    ∙ ap (λ k. bytes_eq bs (replicate k 0)) h.0
    ∙ bytes_eq-be_value n bs (replicate n 0) h (zeros-IsBytes n)
    ∙ ap (λ k. be_value bs == k) (be_value-zeros n)
