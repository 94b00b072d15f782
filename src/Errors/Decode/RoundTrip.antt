-- ===== src/Errors/Decode/RoundTrip.antt =====
-- Reverts that the entry point encodes are decoded into their errors, and nothing is lost of others.
use ethera_bundler.Base.{
  ℕ, ◌≡◌, refl, ◌∙◌, ◌⊎◌, inl, inr, String, Bool, true, false, ◌++◌, Option, none, some,
  if◌then◌else◌, ltb, le→ltb, length, take, drop, bytes_eq, bytes_eq_refl, bytes_eq→eq,
  length-append, take-append, drop-append, arith, min, Bool-cases,
}
use ethera_bundler.Base.Bytes.{Bytes}
use ethera_bundler.Alloy.{Address, u64_max}
use ethera_bundler.Contracts.{Abi}
use ethera_bundler.Errors.{HandleOpsRevertReason, unknown}
use ethera_bundler.Errors.Decode.{
  error_string_selector, panic_uint_selector, clamp_u64, decode_body, decode_handle_ops_revert,
  get_selector,
}

-- A clamped number is the smaller of the number and the largest `u64`.
pub clamp_u64_lem : (v : ℕ) → clamp_u64 v ≡ min v u64_max
unfolding clamp_u64
clamp_u64_lem v = ground arith

-- A revert that the contract may send: one of the four custom errors or of the two standard ones.
pub data Revert : Type 0 where
  failed_op : (op_index : ℕ) → (reason : String) → Revert
  failed_op_with_revert : (op_index : ℕ) → (reason : String) → (inner : Bytes) → Revert
  signature_validation_failed : Address → Revert
  post_op_reverted : Bytes → Revert
  standard_error : String → Revert
  panicked : ℕ → Revert

-- What the bundler makes of it, its numbers clamped to 64 bits.
abbrev pub reason_of : Revert → HandleOpsRevertReason
reason_of (Revert.failed_op i reason) = HandleOpsRevertReason.failed_op (min i u64_max) reason
reason_of (Revert.failed_op_with_revert i reason inner) =
    HandleOpsRevertReason.failed_op_with_revert (min i u64_max) reason inner
reason_of (Revert.signature_validation_failed a) =
    HandleOpsRevertReason.signature_validation_failed a
reason_of (Revert.post_op_reverted d) = HandleOpsRevertReason.post_op_reverted d
reason_of (Revert.standard_error m) = HandleOpsRevertReason.standard_error m
reason_of (Revert.panicked c) = HandleOpsRevertReason.panicked (min c u64_max)

module _ ⦃abi : Abi⦄ where
  abbrev pub selector_of : Revert → Bytes
  selector_of (Revert.failed_op i reason) = abi.failed_op_selector
  selector_of (Revert.failed_op_with_revert i reason inner) = abi.failed_op_with_revert_selector
  selector_of (Revert.signature_validation_failed a) = abi.signature_validation_failed_selector
  selector_of (Revert.post_op_reverted d) = abi.post_op_reverted_selector
  selector_of (Revert.standard_error m) = error_string_selector
  selector_of (Revert.panicked c) = panic_uint_selector

  -- `body` is the ABI encoding of the fields of the revert.
  abbrev pub Encodes : Bytes → Revert → Type 0
  Encodes body (Revert.failed_op i reason) = abi.decode_failed_op body ≡ some (i, reason)
  Encodes body (Revert.failed_op_with_revert i reason inner) =
      abi.decode_failed_op_with_revert body ≡ some (i, reason, inner)
  Encodes body (Revert.signature_validation_failed a) =
      abi.decode_signature_validation_failed body ≡ some a
  Encodes body (Revert.post_op_reverted d) = abi.decode_post_op_reverted body ≡ some d
  Encodes body (Revert.standard_error m) = abi.decode_string body ≡ some m
  Encodes body (Revert.panicked c) = abi.decode_uint body ≡ some c

-- The four custom selectors have four bytes, and the six selectors differ from one another.
pub record IsSelectors (abi : Abi) : Type 0 where
  pub len : (r : Revert) → length (selector_of ⦃abi = abi⦄ r) ≡ 4
  pub distinct_1 :
      (bytes_eq abi.failed_op_with_revert_selector abi.failed_op_selector ≡ false)
      × (bytes_eq abi.signature_validation_failed_selector abi.failed_op_selector ≡ false)
      × (bytes_eq abi.post_op_reverted_selector abi.failed_op_selector ≡ false)
      × (bytes_eq error_string_selector abi.failed_op_selector ≡ false)
      × (bytes_eq panic_uint_selector abi.failed_op_selector ≡ false)
  pub distinct_2 :
      (bytes_eq abi.signature_validation_failed_selector abi.failed_op_with_revert_selector ≡ false)
      × (bytes_eq abi.post_op_reverted_selector abi.failed_op_with_revert_selector ≡ false)
      × (bytes_eq error_string_selector abi.failed_op_with_revert_selector ≡ false)
      × (bytes_eq panic_uint_selector abi.failed_op_with_revert_selector ≡ false)
  pub distinct_3 :
      (bytes_eq abi.post_op_reverted_selector abi.signature_validation_failed_selector ≡ false)
      × (bytes_eq error_string_selector abi.signature_validation_failed_selector ≡ false)
      × (bytes_eq panic_uint_selector abi.signature_validation_failed_selector ≡ false)
  pub distinct_4 :
      (bytes_eq error_string_selector abi.post_op_reverted_selector ≡ false)
      × (bytes_eq panic_uint_selector abi.post_op_reverted_selector ≡ false)

get_selector-append :
    (selector body : Bytes) → length selector ≡ 4 → get_selector (selector ++ body) ≡ some selector
unfolding get_selector
get_selector-append selector body h = rw (
  le→ltb (length (selector ++ body)) 4 (omega (arith, length-append {0} selector body)),
  take-append 4 selector body h,
)

get_selector_cases :
    (revert : Bytes) → (get_selector revert ≡ none) ⊎ (get_selector revert ≡ some (take 4 revert))
unfolding get_selector
get_selector_cases revert = elim (Bool-cases (ltb (length revert) 4)) [
  | inl short ↦ inl (rw short)
  | inr long ↦ inr (rw long)
]

-- One link of the chain of tests: a property of its result from the three ways through it.
link :
    {A : Type 0} (P : HandleOpsRevertReason → Type 0) (test : Bool) (body : Option A)
    (found : A → HandleOpsRevertReason) (failed rest : HandleOpsRevertReason)
    → P failed
    → (test ≡ true → (v : A) → body ≡ some v → P (found v))
    → P rest
    → P (if test then elim body [ some v ↦ found v | none ↦ failed ] else rest)
link P true none found failed rest f s r = f
link P true (some v) found failed rest f s r = s refl v refl
link P false body found failed rest f s r = r

module _ ⦃abi : Abi⦄ where
  decode_long :
      (selector body : Bytes)
      → length selector ≡ 4
      → decode_handle_ops_revert (selector ++ body) ≡ decode_body (selector ++ body) selector body
  unfolding decode_handle_ops_revert
  decode_long selector body h =
      rw (
        get_selector-append selector body h,
        decode_handle_ops_revert,
        drop-append 4 selector body h,
      )

  decode_body_lem :
      (s : IsSelectors abi) (whole body : Bytes) (r : Revert)
      → Encodes body r
      → decode_body whole (selector_of r) body ≡ reason_of r
  unfolding decode_body
  decode_body_lem s whole body (Revert.failed_op i reason) e =
      rw (bytes_eq_refl abi.failed_op_selector, e, clamp_u64_lem i)
  decode_body_lem s whole body (Revert.failed_op_with_revert i reason inner) e =
      rw (s.distinct_1.0, bytes_eq_refl abi.failed_op_with_revert_selector, e, clamp_u64_lem i)
  decode_body_lem s whole body (Revert.signature_validation_failed a) e =
      rw (s.distinct_1.1, s.distinct_2.0, bytes_eq_refl abi.signature_validation_failed_selector, e)
  decode_body_lem s whole body (Revert.post_op_reverted d) e = rw (
    s.distinct_1.2,
    s.distinct_2.1,
    s.distinct_3.0,
    bytes_eq_refl abi.post_op_reverted_selector,
    e,
  )
  decode_body_lem s whole body (Revert.standard_error m) e =
      rw (s.distinct_1.3, s.distinct_2.2, s.distinct_3.1, s.distinct_4.0, e)
  decode_body_lem s whole body (Revert.panicked c) e =
      rw (s.distinct_1.4, s.distinct_2.3, s.distinct_3.2, s.distinct_4.1, e, clamp_u64_lem c)

  -- With selectors of four bytes that differ, the bytes of a revert, its selector and the encoding
  -- of its fields, are decoded into that revert, its index or code clamped to 64 bits.
  pub decode_handle_ops_revert-reason_of :
      (s : IsSelectors abi) (r : Revert) (body : Bytes)
      → Encodes body r
      → decode_handle_ops_revert (selector_of r ++ body) ≡ reason_of r
  decode_handle_ops_revert-reason_of s r body e =
      decode_long (selector_of r) body (s.len r)
      ∙ decode_body_lem s (selector_of r ++ body) body r e

  -- A revert that these bytes, a selector and a body, encode.
  abbrev pub Known : Bytes → Bytes → Type 0
  Known selector body = (r : Revert) × (selector ≡ selector_of r) × Encodes body r

  abbrev Decoded : Bytes → Bytes → Bytes → HandleOpsRevertReason → Type 0
  Decoded whole selector body reason =
      (reason ≡ unknown whole) ⊎ ((k : Known selector body) × (reason ≡ reason_of k.0))

  decode_body_cases :
      (whole selector body : Bytes) → Decoded whole selector body (decode_body whole selector body)
  unfolding decode_body
  decode_body_cases whole selector body =
      let D = Decoded whole selector body in
      let eq = bytes_eq→eq selector in
      link D _ (abi.decode_failed_op body) _ _ _ (inl refl)
        (λ t (i, reason) e. inr ((Revert.failed_op i reason, eq _ t, e), rw (clamp_u64_lem i)))
        (link D _ (abi.decode_failed_op_with_revert body) _ _ _ (inl refl)
          (λ t (i, reason, inner) e.
            inr ((Revert.failed_op_with_revert i reason inner, eq _ t, e), rw (clamp_u64_lem i)))
          (link D _ (abi.decode_signature_validation_failed body) _ _ _ (inl refl)
            (λ t a e. inr ((Revert.signature_validation_failed a, eq _ t, e), refl))
            (link D _ (abi.decode_post_op_reverted body) _ _ _ (inl refl)
              (λ t d e. inr ((Revert.post_op_reverted d, eq _ t, e), refl))
              (link D _ (abi.decode_string body) _ _ _ (inl refl)
                (λ t m e. inr ((Revert.standard_error m, eq _ t, e), refl))
                (link D _ (abi.decode_uint body) _ _ _ (inl refl)
                  (λ t c e. inr ((Revert.panicked c, eq _ t, e), rw (clamp_u64_lem c)))
                  (inl refl))))))

  -- An undecoded revert keeps all its bytes, and every other result is the reason of a revert
  -- whose selector the bytes begin with and whose fields the rest of them encodes.
  pub decode_handle_ops_revert_cases :
      (revert : Bytes)
      → (decode_handle_ops_revert revert ≡ unknown revert)
        ⊎ ((k : Known (take 4 revert) (drop 4 revert)) × (decode_handle_ops_revert revert
              ≡ reason_of k.0))
  unfolding decode_handle_ops_revert
  decode_handle_ops_revert_cases revert = elim (get_selector_cases revert) [
    | inl short ↦ inl (rw (short, decode_handle_ops_revert))
    | inr long ↦
        rw (long, decode_handle_ops_revert)
          (decode_body_cases revert (take 4 revert) (drop 4 revert))
  ]
