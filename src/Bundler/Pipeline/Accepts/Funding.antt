-- ===== src/Bundler/Pipeline/Accepts/Funding.antt =====
-- Whose deposit pays an operation, read off the operation, against what `check_prefund` parses.
use ethera_bundler.Base.{
  ℕ, ◌≤◌, ◌<◌, ◌≡◌, refl, sym, inl, inr, Bool, Bool-cases, true, false, not, ◌&&◌, [], ◌∷◌, ◌++◌,
  String, All, All-front, Option, none, some, ok, ltb, ltb→lt, ltb→le, length, if◌then◌else◌, arith,
}
use mathlib.Core.Path.{subst}
use ethera_bundler.Base.Bytes.{Bytes, IsByte, be_value}
use ethera_bundler.Alloy.{Uint, Address, is_zero, u128_mod}
use ethera_bundler.Types.{UserOpV07, IsUserOp, IsOptAddress, bytes_is_empty}
use ethera_bundler.Packing.{parse_paymaster_and_data, paymaster_header_len}
use ethera_bundler.Packing.Blob.{
  head, limit_at, limit_bound, take-IsBytes, paymaster_blob, parse_paymaster_and_data_long,
  parse_paymaster_and_data_short, parse_paymaster_and_data-paymaster_blob,
}
use ethera_bundler.Packing.Fields.{
  packed_blob, packed_numbers, limit_numbers, gas_numbers, fee_numbers,
}
use ethera_bundler.Bundler.Policy.{sponsor_of}
use ethera_bundler.Bundler.Pipeline.Accepts.{payer, charged_for, charged, IsWhole}

-- The form of the operation decides: a blob, a paymaster, or neither.
abbrev writes : Bytes → Option Address → Bool
writes blob paymaster =
    bytes_is_empty blob && elim paymaster [ some pm ↦ not (is_zero pm) | none ↦ false ]

abbrev new_address : Option Address → Option Address
new_address paymaster = elim paymaster [
  | some pm ↦ if is_zero pm then none else some pm
  | none ↦ none
]

abbrev blob_for : ⦃u : Uint⦄ → UserOpV07 → Bytes → Option Address → Bytes
blob_for op blob paymaster =
    if bytes_is_empty blob
    then elim (new_address paymaster) [
      | some pm ↦
          paymaster_blob pm op.paymaster_verification_gas_limit op.paymaster_post_op_gas_limit
            op.paymaster_data
      | none ↦ []
    ]
    else blob

module _ ⦃u : Uint⦄ (op : UserOpV07) where
  -- What is parsed from the packed blob leads to the payer, whose limits fit 128 bits.
  abbrev pub Leads : Bytes → Address × ℕ × ℕ → Type 0
  Leads blob charge =
      (parsed : Option (Address × ℕ × ℕ)) × (parse_paymaster_and_data blob ≡ ok parsed)
      × (sponsor_of op parsed ≡ charge)
      × (charge.1 < u128_mod)
      × (charge.2 < u128_mod)

  some-payer :
      (blob : Bytes) (pm : Address) (ver post : ℕ)
      → parse_paymaster_and_data blob ≡ ok (some (pm, ver, post))
      → ver < u128_mod
      → post < u128_mod
      → Leads blob (payer op pm ver post)
  unfolding sponsor_of
  some-payer blob pm ver post e hv hp = elim (Bool-cases (is_zero pm)) [
    | inl z ↦ (some (pm, ver, post), e, rw z refl, rw z (omega arith), rw z (omega arith))
    | inr z ↦ (some (pm, ver, post), e, rw z refl, rw z hv, rw z hp)
  ]

  no_payer : Leads [] (op.sender, 0, 0)
  unfolding parse_paymaster_and_data sponsor_of
  no_payer = (none, refl, refl, omega arith, omega arith)

  leads :
      (blob : Bytes) (paymaster : Option Address)
      → All IsByte blob
      → IsOptAddress paymaster
      → (writes blob paymaster ≡ true
          → (op.paymaster_verification_gas_limit < u128_mod)
            × (op.paymaster_post_op_gas_limit < u128_mod))
      → IsWhole blob
      → Leads (blob_for op blob paymaster) (charged_for op blob paymaster)
  leads [] none h a fits w = no_payer
  leads [] (some pm) h a fits w =
      let ver : ℕ = op.paymaster_verification_gas_limit in
      let post : ℕ = op.paymaster_post_op_gas_limit in
      elim (Bool-cases (is_zero pm)) [
        | inl z ↦
            let no_blob : blob_for op [] (some pm) ≡ [] = rw z refl in
            let sender : payer op pm ver post ≡ (op.sender, 0, 0) = rw z refl in
            subst (λ c. Leads (blob_for op [] (some pm)) c) (sym sender)
              (subst (λ b. Leads b (op.sender, 0, 0)) (sym no_blob) no_payer)
        | inr z ↦
            let new_blob : blob_for op [] (some pm) ≡ paymaster_blob pm ver post op.paymaster_data =
              rw z refl in
            let (hv, hp) = fits (rw z refl) in
            subst (λ b. Leads b (payer op pm ver post)) (sym new_blob)
              (some-payer (paymaster_blob pm ver post op.paymaster_data) pm ver post
                (parse_paymaster_and_data-paymaster_blob pm ver post op.paymaster_data a hv hp) hv
                hp)
      ]
  leads (x ∷ blob) paymaster h a fits w =
      let whole : Bytes = x ∷ blob in
      let long : paymaster_header_len ≤ length whole = elim w [ inl e ↦ cc | inr l ↦ l ] in
      some-payer whole (head whole) (be_value (limit_at 20 whole)) (be_value (limit_at 36 whole))
        (parse_paymaster_and_data_long whole h long)
        (limit_bound (limit_at 20 whole) (take-IsBytes 20 16 whole h (omega (arith, long))))
        (limit_bound (limit_at 36 whole) (take-IsBytes 36 16 whole h (omega (arith, long))))

  IsWhole-if_parsed :
      (blob : Bytes) (paymaster : Option Address) (parsed : Option (Address × ℕ × ℕ))
      → parse_paymaster_and_data (blob_for op blob paymaster) ≡ ok parsed
      → IsWhole blob
  IsWhole-if_parsed [] paymaster parsed e = inl refl
  IsWhole-if_parsed (x ∷ blob) paymaster parsed e =
      elim (Bool-cases (ltb (length (x ∷ blob)) paymaster_header_len)) [
        | inr long ↦ inr (ltb→le (length (x ∷ blob)) 52 long)
        | inl short ↦ cc (
            parse_paymaster_and_data_short (x ∷ blob) (omega arith)
              (ltb→lt (length (x ∷ blob)) 52 short))
      ]

  limits_fit :
      All (λ n. n.0 < u128_mod) (packed_numbers op)
      → writes op.paymaster_and_data op.paymaster ≡ true
      → (op.paymaster_verification_gas_limit < u128_mod)
        × (op.paymaster_post_op_gas_limit < u128_mod)
  limits_fit fits e =
      let Fits : ℕ × String → Type 0 = λ n. n.0 < u128_mod in
      let limits : All Fits (limit_numbers op) =
        All-front Fits (limit_numbers op) (gas_numbers op ++ fee_numbers op) fits in
      let both = rw e at limits in (both.0, both.1.0)

  -- The blob of a packed operation in the ranges of its types leads to the payer of the operation
  -- exactly if the given blob is missing or whole.
  pub packed_blob-charged :
      IsUserOp op
      → All (λ n. n.0 < u128_mod) (packed_numbers op)
      → IsWhole op.paymaster_and_data
      → Leads (packed_blob op) (charged op)
  packed_blob-charged w fits whole =
      leads op.paymaster_and_data op.paymaster w.paymaster_and_data w.paymaster (limits_fit fits)
        whole

  pub packed_blob-IsWhole :
      (parsed : Option (Address × ℕ × ℕ))
      → parse_paymaster_and_data (packed_blob op) ≡ ok parsed
      → IsWhole op.paymaster_and_data
  packed_blob-IsWhole = IsWhole-if_parsed op.paymaster_and_data op.paymaster

  given_blob :
      (blob : Bytes) (paymaster : Option Address)
      → 0 < length blob
      → blob_for op blob paymaster ≡ blob
  given_blob [] paymaster h = absurd (omega arith)
  given_blob (x ∷ blob) paymaster h = refl

  -- A given blob is packed as it is.
  pub packed_blob_given : 0 < length op.paymaster_and_data → packed_blob op ≡ op.paymaster_and_data
  packed_blob_given = given_blob op.paymaster_and_data op.paymaster
