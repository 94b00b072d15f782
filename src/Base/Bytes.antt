-- ===== src/Base/Bytes.antt =====
-- Byte strings: the number that a big-endian string stands for, and slices that panic.
use native.Mathlib.Nat.{pow-suc}
use ethera_bundler.Base.{
  ℕ, ◌+◌, ◌-◌, ◌*◌, ◌^◌, ◌≤◌, ◌<◌, ◌≡◌, refl, sym, ap, ◌∙◌, ◌&&◌, true, List, [], ◌∷◌, ◌++◌, arith,
  leb, if◌then◌else◌, Result, ok, panic, length, take, drop, All, take-append-drop,
}

abbrev pub Bytes : Type 0
Bytes = List ℕ

abbrev pub IsByte : ℕ → Type 0
IsByte b = b < 256

-- A string of `n` bytes.
abbrev pub IsBytes : ℕ → Bytes → Type 0
IsBytes n bs = (length bs ≡ n) × All IsByte bs

-- The number of a big-endian string, read on from `acc`.
abbrev be_from : ℕ → Bytes → ℕ
be_from acc [] = acc
be_from acc (b ∷ bs) = be_from (acc * 256 + b) bs

abbrev pub be_value : Bytes → ℕ
be_value bs = be_from 0 bs

-- `&bs[lo..hi]`: aborts unless `lo <= hi <= bs.len()`.
unfoldable pub slice {ℓ} : {E : Type ℓ} → Bytes → ℕ → ℕ → Result E Bytes
slice bs lo hi =
    if leb lo hi && leb hi (length bs)
    then ok (take (hi - lo) (drop lo bs))
    else panic "range out of bounds"

within : (lo hi n : ℕ) → lo ≤ hi → hi ≤ n → (leb lo hi && leb hi n) ≡ true
within lo hi n p q = ground arith

pub slice_lem {ℓ} :
    {E : Type ℓ} (bs : Bytes) (lo hi : ℕ)
    → lo ≤ hi
    → hi ≤ length bs
    → slice {E = E} bs lo hi ≡ ok (take (hi - lo) (drop lo bs))
unfolding slice
slice_lem bs lo hi p q = rw (within lo hi (length bs) p q)

be_from-append : (acc : ℕ) (xs ys : Bytes) → be_from acc (xs ++ ys) ≡ be_from (be_from acc xs) ys
be_from-append acc [] ys = refl
be_from-append acc (x ∷ xs) ys = be_from-append (acc * 256 + x) xs ys

be_from_shift : (acc : ℕ) (bs : Bytes) → be_from acc bs ≡ acc * 256 ^ length bs + be_value bs
be_from_shift acc [] = omega arith
be_from_shift acc (b ∷ bs) =
    rw pow-suc (omega (arith, be_from_shift (acc * 256 + b) bs, be_from_shift (0 * 256 + b) bs))

pub be_value-append :
    (xs ys : Bytes) → be_value (xs ++ ys) ≡ be_value xs * 256 ^ length ys + be_value ys
be_value-append xs ys = rw (be_from-append 0 xs ys) (be_from_shift (be_value xs) ys)

pub be_value-lt : (bs : Bytes) → All IsByte bs → be_value bs < 256 ^ length bs
be_value-lt [] h = omega arith
be_value-lt (b ∷ bs) h =
    rw pow-suc (grind (arith, be_from_shift (0 * 256 + b) bs, be_value-lt bs h.1))

-- Strings of one length with one number are one string.
be_from_injective :
    (a b : ℕ) (xs ys : Bytes)
    → length xs ≡ length ys
    → All IsByte xs
    → All IsByte ys
    → be_from a xs ≡ be_from b ys
    → (a ≡ b) × (xs ≡ ys)
be_from_injective a b [] [] l hx hy e = (e, refl)
be_from_injective a b [] (y ∷ ys) l hx hy e = absurd (omega arith)
be_from_injective a b (x ∷ xs) [] l hx hy e = absurd (omega arith)
be_from_injective a b (x ∷ xs) (y ∷ ys) l hx hy e =
    ground (arith, be_from_injective (a * 256 + x) (b * 256 + y) xs ys (omega arith))

pub be_value_injective :
    (n : ℕ) (xs ys : Bytes) → IsBytes n xs → IsBytes n ys → be_value xs ≡ be_value ys → xs ≡ ys
be_value_injective n xs ys hx hy e = (be_from_injective 0 0 xs ys (omega arith) hx.1 hy.1 e).1

-- A string cut in two at `n`.
pub be_value_split :
    (n m : ℕ) (bs : Bytes)
    → length (drop n bs) ≡ m
    → be_value bs ≡ be_value (take n bs) * 256 ^ m + be_value (drop n bs)
be_value_split n m bs h =
    ap be_value (sym (take-append-drop n bs))
    ∙ be_value-append (take n bs) (drop n bs)
    ∙ ap (λ k. be_value (take n bs) * 256 ^ k + be_value (drop n bs)) h
