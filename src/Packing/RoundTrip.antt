-- ===== src/Packing/RoundTrip.antt =====
-- What the chain and the prefund check read back from a packed operation.
use mathlib.Core.Path.{subst}
use ethera_bundler.Base.{
  All-front, All-back, ℕ, ◌<◌, ◌≡◌, refl, sym, ap, ◌∙◌, List, [], ◌∷◌, ◌++◌, Option, none, some,
  String, ok, arith, true, false, All,
}
use ethera_bundler.Alloy.{Uint, Address, u128_mod, is_zero}
use ethera_bundler.Contracts.{PackedUserOperation}
use ethera_bundler.Types.{IsOptAddress, UserOpV07, IsUserOp, bytes_is_empty}
use ethera_bundler.Packing.{pack, parse_paymaster_and_data}
use ethera_bundler.Packing.Words.{unpack_uints, unpack_uints-pair_word}
use ethera_bundler.Packing.Blob.{paymaster_blob, parse_paymaster_and_data-paymaster_blob}
use ethera_bundler.Packing.Fields.{
  first_wide, packed_numbers, checked, packed, packed_blob, pack_lem, limit_numbers, gas_numbers,
  fee_numbers,
}

abbrev Fits : ℕ × String → Type 0
Fits n = n.0 < u128_mod

first_wide-none : (xs : List (ℕ × String)) → first_wide xs ≡ none → All Fits xs
first_wide-none [] h = tt
first_wide-none ((v, f) ∷ xs) h = ground (arith, first_wide-none xs)

checked-eq-ok {ℓ} :
    {A : Type ℓ} (o : Option String) (a b : A) → checked o a ≡ ok b → (o ≡ none) × (a ≡ b)
checked-eq-ok none a b h = (refl, cc)
checked-eq-ok (some f) a b h = cc

limit_numbers-Fits :
    (op : UserOpV07) (pm : Address)
    → bytes_is_empty op.paymaster_and_data ≡ true
    → op.paymaster ≡ some pm
    → is_zero pm ≡ false
    → All Fits (limit_numbers op)
    → (op.paymaster_verification_gas_limit < u128_mod) × (op.paymaster_post_op_gas_limit < u128_mod)
limit_numbers-Fits op pm empty has nonzero h = ground arith

packed_blob_lem :
    ⦃u : Uint⦄ (op : UserOpV07) (pm : Address)
    → bytes_is_empty op.paymaster_and_data ≡ true
    → op.paymaster ≡ some pm
    → is_zero pm ≡ false
    → packed_blob op
      ≡ paymaster_blob pm op.paymaster_verification_gas_limit op.paymaster_post_op_gas_limit
          op.paymaster_data
packed_blob_lem op pm empty has nonzero = ground arith

module _ ⦃u : Uint⦄ (op : UserOpV07) (w : IsUserOp op) (p : PackedUserOperation) where
  pub pack-eq-packed : pack op ≡ ok p → All Fits (packed_numbers op) × (packed op ≡ p)
  pack-eq-packed e =
      let (narrow, same) =
        checked-eq-ok (first_wide (packed_numbers op)) (packed op) p (sym (pack_lem op w) ∙ e) in
      (first_wide-none (packed_numbers op) narrow, same)

  -- After a successful `pack` of an operation in the ranges of its types, the chain's `unpackUints`
  -- of the two words gives the operation's gas limits, verification first, and its fees, the tip
  -- first.
  pub pack-unpack_uints :
      pack op ≡ ok p
      → (unpack_uints p.account_gas_limits ≡ (op.verification_gas_limit, op.call_gas_limit))
        × (unpack_uints p.gas_fees ≡ (op.max_priority_fee_per_gas, op.max_fee_per_gas))
  pack-unpack_uints e =
      let (fit, same) = pack-eq-packed e in
      let (v, (c, (t, (m, _)))) =
        All-back Fits (limit_numbers op) (gas_numbers op ++ fee_numbers op) fit in
      (
        ap (λ (q : PackedUserOperation). unpack_uints q.account_gas_limits) (sym same)
            ∙ unpack_uints-pair_word op.verification_gas_limit op.call_gas_limit v c,
        ap (λ (q : PackedUserOperation). unpack_uints q.gas_fees) (sym same)
            ∙ unpack_uints-pair_word op.max_priority_fee_per_gas op.max_fee_per_gas t m,
      )

  -- After a successful `pack` of an operation, in the ranges of its types and with a nonzero
  -- paymaster in the unpacked form, the parser reads the paymaster and its two gas limits back from
  -- the packed blob.
  pub pack-parse_paymaster_and_data :
      (pm : Address)
      → bytes_is_empty op.paymaster_and_data ≡ true
      → op.paymaster ≡ some pm
      → is_zero pm ≡ false
      → pack op ≡ ok p
      → parse_paymaster_and_data p.paymaster_and_data
        ≡ ok (some (pm, op.paymaster_verification_gas_limit, op.paymaster_post_op_gas_limit))
  pack-parse_paymaster_and_data pm empty has nonzero e =
      let (fit, same) = pack-eq-packed e in
      let limits = All-front Fits (limit_numbers op) (gas_numbers op ++ fee_numbers op) fit in
      let (v, q) = limit_numbers-Fits op pm empty has nonzero limits in
      ap (λ (q : PackedUserOperation). parse_paymaster_and_data q.paymaster_and_data) (sym same)
      ∙ ap parse_paymaster_and_data (packed_blob_lem op pm empty has nonzero)
      ∙ parse_paymaster_and_data-paymaster_blob pm op.paymaster_verification_gas_limit
          op.paymaster_post_op_gas_limit op.paymaster_data (subst IsOptAddress has w.paymaster) v q
