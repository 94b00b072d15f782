-- ===== src/Packing/Blob.antt =====
-- The prefix of a `paymasterAndData` blob: 20 bytes of address and two 128-bit gas limits.
use mathlib.Core.Path.{subst}
use ethera_bundler.Base.{
  ℕ, ◌+◌, ◌^◌, ◌≤◌, ◌<◌, ◌≡◌, ◌≢◌, String, Bool-cases, ltb→lt, ltb→le, inl, inr, refl, sym, ap, ◌∙◌,
  [], ◌∷◌, ◌++◌, some, ok, err, panic, arith, ltb, lt→ltb, le→ltb, le→leb, length, take, drop, All,
  All-take, All-drop, take-append-drop, length-take, length-drop, drop-drop, length-append,
  take-append, drop-append,
}
use ethera_bundler.Base.Bytes.{Bytes, IsByte, IsBytes, be_value, be_value-lt, be_value_injective}
use ethera_bundler.Alloy.{Uint, Address, u128_mod}
use ethera_bundler.Types.{IsAddress}
use ethera_bundler.Packing.{
  paymaster_and_data_too_short, paymaster_header_len, parse_paymaster_and_data,
}
use ethera_bundler.Packing.Words.{low_half}

-- The three parts of the prefix.
abbrev pub head : Bytes → Bytes
head blob = take 20 blob

abbrev pub limit_at : ℕ → Bytes → Bytes
limit_at n blob = take 16 (drop n blob)

pub take-IsBytes :
    (n k : ℕ) (blob : Bytes)
    → All IsByte blob
    → n + k ≤ length blob
    → IsBytes k (take k (drop n blob))
take-IsBytes n k blob h l = (
  omega (arith, length-take {0} k (drop n blob), length-drop {0} n blob),
  All-take IsByte k (drop n blob) (All-drop IsByte n blob h),
)

pub limit_bound : (bs : Bytes) → IsBytes 16 bs → be_value bs < u128_mod
limit_bound bs h = subst (λ n. be_value bs < 256 ^ n) h.0 (be_value-lt bs h.1)

module _ ⦃u : Uint⦄ where
  -- A blob that is not empty and is shorter than the prefix is an error with its length.
  pub parse_paymaster_and_data_short :
      (blob : Bytes)
      → 0 < length blob
      → length blob < paymaster_header_len
      → parse_paymaster_and_data blob ≡ err (paymaster_and_data_too_short (length blob))
  unfolding parse_paymaster_and_data
  parse_paymaster_and_data_short [] p q = absurd (omega arith)
  parse_paymaster_and_data_short (b ∷ blob) p q = rw (lt→ltb (length (b ∷ blob)) 52 q)

  parse_long :
      (blob : Bytes)
      → 52 ≤ length blob
      → parse_paymaster_and_data blob
        ≡ ok (
            some
              (head blob, u.from_be_slice (limit_at 20 blob), u.from_be_slice (limit_at 36 blob)))
  unfolding parse_paymaster_and_data
  parse_long [] h = absurd (omega arith)
  parse_long (b ∷ blob) h = rw (
    le→ltb (length (b ∷ blob)) 52 h,
    le→leb 20 (length (b ∷ blob)) (omega arith),
    le→leb 36 (length (b ∷ blob)) (omega arith),
    le→leb 52 (length (b ∷ blob)) h,
  )

  limit_lem :
      (n : ℕ) (blob : Bytes)
      → All IsByte blob
      → n + 16 ≤ length blob
      → u.from_be_slice (limit_at n blob) ≡ be_value (limit_at n blob)
  limit_lem n blob h l =
      let (len, bytes) = take-IsBytes n 16 blob h l in
      u.from_be_slice_lem (limit_at n blob) bytes (omega (arith, len))

  -- The 16 bytes of a gas limit.
  abbrev pub half : ℕ → Bytes
  half v = drop 16 (u.to_be_bytes v)

  half-be_value : (bs : Bytes) → IsBytes 16 bs → half (be_value bs) ≡ bs
  half-be_value bs h =
      let (is, value) = low_half (be_value bs) (limit_bound bs h) in
      be_value_injective 16 (half (be_value bs)) bs is h value

  -- The blob that `pack` writes for a paymaster.
  abbrev pub paymaster_blob : Address → ℕ → ℕ → Bytes → Bytes
  paymaster_blob pm ver post rest = pm ++ (half ver ++ (half post ++ rest))

  -- A blob of at least 52 bytes is parsed into its first 20 bytes and the two numbers after them.
  pub parse_paymaster_and_data_long :
      (blob : Bytes)
      → All IsByte blob
      → paymaster_header_len ≤ length blob
      → parse_paymaster_and_data blob
        ≡ ok (some (head blob, be_value (limit_at 20 blob), be_value (limit_at 36 blob)))
  parse_paymaster_and_data_long blob h l =
      rw (parse_long blob l, limit_lem 20 blob h (omega arith), limit_lem 36 blob h (omega arith))
        refl

  blob_parts :
      (blob : Bytes) → blob ≡ head blob ++ (limit_at 20 blob ++ (limit_at 36 blob ++ drop 52 blob))
  blob_parts blob =
      sym (take-append-drop 20 blob)
      ∙ ap (λ r. head blob ++ r) (sym (take-append-drop 16 (drop 20 blob)))
      ∙ ap (λ r. head blob ++ (limit_at 20 blob ++ r)) (drop-drop 20 16 36 blob refl)
      ∙ ap (λ r. head blob ++ (limit_at 20 blob ++ r)) (sym (take-append-drop 16 (drop 36 blob)))
      ∙ ap (λ r. head blob ++ (limit_at 20 blob ++ (limit_at 36 blob ++ r)))
          (drop-drop 36 16 52 blob refl)

  -- What a successful parse of a long enough blob says of it.
  pub record Parsed (blob : Bytes) : Type 0 where
    pub paymaster : Address
    pub ver : ℕ
    pub post : ℕ
    pub result : parse_paymaster_and_data blob ≡ ok (some (paymaster, ver, post))
    pub is_address : IsAddress paymaster
    pub ver_fits : ver < u128_mod
    pub post_fits : post < u128_mod
    pub whole : blob ≡ paymaster_blob paymaster ver post (drop 52 blob)

  -- A blob of at least 52 bytes is parsed without an error or a panic, into an address of 20 bytes
  -- and two limits below 2 ^ 128, whose encodings with the rest of the blob are the blob again.
  pub parse_paymaster_and_data-Parsed :
      (blob : Bytes) → All IsByte blob → paymaster_header_len ≤ length blob → Parsed blob
  parse_paymaster_and_data-Parsed blob h l = record {
    paymaster = head blob;
    ver = be_value (limit_at 20 blob);
    post = be_value (limit_at 36 blob);
    result = parse_paymaster_and_data_long blob h l;
    is_address = take-IsBytes 0 20 blob h (omega arith);
    ver_fits = limit_bound _ ver_bytes;
    post_fits = limit_bound _ post_bytes;
    whole = rw (half-be_value _ ver_bytes, half-be_value _ post_bytes) (blob_parts blob);
  }
    where
      ver_bytes : IsBytes 16 (limit_at 20 blob)
      ver_bytes = take-IsBytes 20 16 blob h (omega arith)

      post_bytes : IsBytes 16 (limit_at 36 blob)
      post_bytes = take-IsBytes 36 16 blob h (omega arith)

  -- The blob of an address and two limits below 2 ^ 128 is parsed into these three, whatever
  -- follows them.
  pub parse_paymaster_and_data-paymaster_blob :
      (pm : Address) (ver post : ℕ) (rest : Bytes)
      → IsAddress pm
      → ver < u128_mod
      → post < u128_mod
      → parse_paymaster_and_data (paymaster_blob pm ver post rest) ≡ ok (some (pm, ver, post))
  parse_paymaster_and_data-paymaster_blob pm ver post rest a hv hp =
      let blob : Bytes = paymaster_blob pm ver post rest in
      let (v, ev) = low_half ver hv in
      let (p, ep) = low_half post hp in
      let d20 : drop 20 blob ≡ half ver ++ (half post ++ rest) = drop-append 20 pm _ a.0 in
      let d36 : drop 36 blob ≡ half post ++ rest =
        sym (drop-drop 20 16 36 blob refl) ∙ ap (drop 16) d20 ∙ drop-append 16 (half ver) _ v.0 in
      let l1 = length-append {0} pm (half ver ++ (half post ++ rest)) in
      let l2 = length-append {0} (half ver) (half post ++ rest) in
      let l3 = length-append {0} (half post) rest in
      parse_long blob (omega (arith, l1, l2, l3, v.0, p.0, a.0))
      ∙ rw (
        take-append 20 pm (half ver ++ (half post ++ rest)) a.0,
        d20,
        d36,
        take-append 16 (half ver) (half post ++ rest) v.0,
        take-append 16 (half post) rest p.0,
        u.from_be_slice_lem (half ver) v.1 (omega (arith, v.0)),
        u.from_be_slice_lem (half post) p.1 (omega (arith, p.0)),
        ev,
        ep,
      )

  -- Parsing a blob does not panic: the slices are never out of range.
  pub parse_paymaster_and_data-ne-panic :
      (blob : Bytes) (m : String) → parse_paymaster_and_data blob ≢ panic m
  parse_paymaster_and_data-ne-panic [] m e = unfold parse_paymaster_and_data in cc
  parse_paymaster_and_data-ne-panic (b ∷ blob) m e =
      elim (Bool-cases (ltb (length (b ∷ blob)) 52)) [
        | inl short ↦ cc (
            parse_paymaster_and_data_short (b ∷ blob) (omega arith)
              (ltb→lt (length (b ∷ blob)) 52 short))
        | inr long ↦ cc (parse_long (b ∷ blob) (ltb→le (length (b ∷ blob)) 52 long))
      ]
