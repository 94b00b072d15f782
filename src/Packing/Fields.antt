-- ===== src/Packing/Fields.antt =====
-- `pack` field by field: when it fails and with which field, and what a packed operation holds.
use ethera_bundler.Base.{
  ℕ, ◌<◌, ◌≡◌, ◌≢◌, refl, sym, ap, ◌∙◌, List, [], ◌∷◌, ◌++◌, Option, none, some, Result, ok, err,
  String, Bool, not, ◌&&◌, inl, inr, panic, ◌>>=◌, arith, leb, if◌then◌else◌, false, Bool-cases,
  Option-cases,
}
use ethera_bundler.Base.Bytes.{Bytes}
use ethera_bundler.Alloy.{Uint, Address, u128_mod, u256_mod, is_zero}
use ethera_bundler.Contracts.{PackedUserOperation}
use ethera_bundler.Types.{UserOpV07, IsUserOp, bytes_is_empty}
use ethera_bundler.Packing.{
  PackError, overflow, pack, pack_pair_to_bytes32, pack_init_code, pack_paymaster,
  pack_paymaster_and_data,
}
use ethera_bundler.Packing.Words.{bit_len_test, pair_word}
use ethera_bundler.Packing.Blob.{paymaster_blob}

-- Whether `pack` writes the paymaster's gas limits into a new blob.
abbrev pub writes_limits : UserOpV07 → Bool
writes_limits op =
    bytes_is_empty op.paymaster_and_data
    && elim op.paymaster [ some pm ↦ not (is_zero pm) | none ↦ false ]

abbrev pub limit_numbers : UserOpV07 → List (ℕ × String)
limit_numbers op =
    if writes_limits op
    then (op.paymaster_verification_gas_limit, "paymasterVerificationGasLimit")
      ∷ (op.paymaster_post_op_gas_limit, "paymasterPostOpGasLimit")
      ∷ []
    else []

abbrev pub gas_numbers : UserOpV07 → List (ℕ × String)
gas_numbers op =
    (op.verification_gas_limit, "accountGasLimits") ∷ (op.call_gas_limit, "accountGasLimits") ∷ []

abbrev pub fee_numbers : UserOpV07 → List (ℕ × String)
fee_numbers op = (op.max_priority_fee_per_gas, "gasFees") ∷ (op.max_fee_per_gas, "gasFees") ∷ []

-- The numbers that must fit 128 bits, in the order of the checks, with the field of the error.
abbrev pub packed_numbers : UserOpV07 → List (ℕ × String)
packed_numbers op = limit_numbers op ++ (gas_numbers op ++ fee_numbers op)

abbrev pub first_wide : List (ℕ × String) → Option String
first_wide [] = none
first_wide ((v, field) ∷ rest) = if leb u128_mod v then some field else first_wide rest

-- The value if there is no wide field, and the overflow of the field if there is one.
abbrev pub checked {ℓ} : {A : Type ℓ} → Option String → A → Result PackError A
checked none a = ok a
checked (some field) a = err (overflow field)

abbrev or_first : Option String → Option String → Option String
or_first none p = p
or_first (some f) p = some f

or_first-none : (o : Option String) → or_first o none ≡ o
or_first-none none = refl
or_first-none (some f) = refl

checked_bind {ℓ κ} :
    {A : Type ℓ} {B : Type κ} {a : A} (b : B) (o p : Option String) (f : A → Result PackError B)
    → f a ≡ checked p b
    → (checked o a >>= f) ≡ checked (or_first o p) b
checked_bind b none p f e = e
checked_bind b (some s) p f e = refl

first_wide-append :
    (xs ys : List (ℕ × String)) → first_wide (xs ++ ys) ≡ or_first (first_wide xs) (first_wide ys)
first_wide-append [] ys = refl
first_wide-append ((v, f) ∷ xs) ys = elim (Bool-cases (leb u128_mod v)) [
  | inl e ↦ rw e
  | inr e ↦ rw e (first_wide-append xs ys)
]

-- The address that `pack` puts in front of a new blob: none where it writes no blob.
abbrev nonzero : Option Address → Option Address
nonzero none = none
nonzero (some a) = if is_zero a then none else some a

-- The given blob if there is one, else the new one if there is an address for it, else none.
abbrev chosen_blob : Bytes → Option Bytes → Bytes
chosen_blob [] none = []
chosen_blob [] (some new) = new
chosen_blob (b ∷ given) new = b ∷ given

abbrev with_data : Bytes → Option Address → Option Bytes
with_data own none = none
with_data own (some f) = some (f ++ own)

-- A factory and its data, one behind the other.
abbrev factory_blob : UserOpV07 → Option Bytes
factory_blob op = with_data op.factory_data (nonzero op.factory)

-- The two shapes of the code that deploys the account.
abbrev pub init_blob : UserOpV07 → Bytes
init_blob op = chosen_blob op.init_code (factory_blob op)

init_blob_lem : (op : UserOpV07) → pack_init_code op ≡ init_blob op
unfolding pack_init_code
init_blob_lem op = by_parts op.init_code op.factory
  where
    by_parts :
        (given : Bytes) (factory : Option Address)
        → (if not (bytes_is_empty given) then given else elim factory [
          | some f ↦ if not (is_zero f) then f ++ op.factory_data else []
          | none ↦ []
        ])
          ≡ chosen_blob given (with_data op.factory_data (nonzero factory))
    by_parts [] none = refl
    by_parts [] (some f) = elim (Bool-cases (is_zero f)) [ inl e ↦ rw e | inr e ↦ rw e ]
    by_parts (b ∷ given) factory = refl

module _ ⦃u : Uint⦄ where
  -- The blob of a packed operation: the given one if there is one, else the paymaster's, else none.
  abbrev pub packed_blob : UserOpV07 → Bytes
  packed_blob op =
      if bytes_is_empty op.paymaster_and_data
      then elim (nonzero op.paymaster) [
        | some pm ↦
            paymaster_blob pm op.paymaster_verification_gas_limit op.paymaster_post_op_gas_limit
              op.paymaster_data
        | none ↦ []
      ]
      else op.paymaster_and_data

  abbrev pub packed : UserOpV07 → PackedUserOperation
  packed op = record {
    sender = op.sender;
    nonce = op.nonce;
    init_code = init_blob op;
    call_data = op.call_data;
    account_gas_limits = pair_word op.verification_gas_limit op.call_gas_limit;
    pre_verification_gas = op.pre_verification_gas;
    gas_fees = pair_word op.max_priority_fee_per_gas op.max_fee_per_gas;
    paymaster_and_data = packed_blob op;
    signature = op.signature;
  }

  pair_checked :
      (hi lo : ℕ) (field : String)
      → hi < u256_mod
      → lo < u256_mod
      → pack_pair_to_bytes32 hi lo field
        ≡ checked (first_wide ((hi, field) ∷ (lo, field) ∷ [])) (pair_word hi lo)
  unfolding pack_pair_to_bytes32
  pair_checked hi lo field hh hl = rw (bit_len_test hi hh, bit_len_test lo hl) (ground arith)

  paymaster_checked :
      (op : UserOpV07) (pm : Address)
      → IsUserOp op
      → pack_paymaster op pm
        ≡ checked
            (first_wide (
              (op.paymaster_verification_gas_limit, "paymasterVerificationGasLimit")
              ∷ (op.paymaster_post_op_gas_limit, "paymasterPostOpGasLimit")
              ∷ []))
            (paymaster_blob pm op.paymaster_verification_gas_limit op.paymaster_post_op_gas_limit
              op.paymaster_data)
  unfolding pack_paymaster
  paymaster_checked op pm w =
      rw
        (
          bit_len_test op.paymaster_verification_gas_limit w.paymaster_verification_gas_limit,
          bit_len_test op.paymaster_post_op_gas_limit w.paymaster_post_op_gas_limit,
        )
        (ground arith)

  blob_checked :
      (op : UserOpV07)
      → IsUserOp op
      → pack_paymaster_and_data op ≡ checked (first_wide (limit_numbers op)) (packed_blob op)
  unfolding pack_paymaster_and_data
  blob_checked op w = elim (Option-cases op.paymaster) [
    | inl e ↦ ground arith
    | inr (pm, e) ↦ ground (arith, paymaster_checked op pm w)
  ]

  -- On an operation in the ranges of its types, `pack` fails exactly if one of the numbers that it
  -- packs does not fit 128 bits, with the field of the first such number. Otherwise it yields the
  -- operation `packed`: the words of the gas limits and of the fees, as code the given `initCode` or
  -- else a nonzero factory with its data behind it or else nothing, as paymaster blob the given one
  -- or else that of a nonzero paymaster or else nothing, and the other fields unchanged.
  pub pack_lem :
      (op : UserOpV07)
      → IsUserOp op
      → pack op ≡ checked (first_wide (packed_numbers op)) (packed op)
  unfolding pack
  pack_lem op w =
      let gas : Option String = first_wide (gas_numbers op) in
      let fees : Option String = first_wide (fee_numbers op) in
      rw
        (
          init_blob_lem op,
          blob_checked op w,
          pair_checked op.verification_gas_limit op.call_gas_limit "accountGasLimits"
              w.verification_gas_limit w.call_gas_limit,
          pair_checked op.max_priority_fee_per_gas op.max_fee_per_gas "gasFees"
              w.max_priority_fee_per_gas w.max_fee_per_gas,
        )
        (checked_bind (packed op) (first_wide (limit_numbers op)) (or_first gas fees) _ (
            checked_bind (packed op) gas fees _ (
              checked_bind (packed op) fees none _ refl
              ∙ ap (λ o. checked o (packed op)) (or_first-none fees)))
          ∙ ap (λ o. checked o (packed op)) (sym joined))
    where
      joined :
          first_wide (packed_numbers op)
          ≡ or_first
              (first_wide (limit_numbers op))
              (or_first (first_wide (gas_numbers op)) (first_wide (fee_numbers op)))
      joined =
          first_wide-append (limit_numbers op) (gas_numbers op ++ fee_numbers op)
          ∙ ap (or_first (first_wide (limit_numbers op)))
              (first_wide-append (gas_numbers op) (fee_numbers op))

  -- Packing an operation does not panic.
  pub pack-ne-panic : (op : UserOpV07) → IsUserOp op → (m : String) → pack op ≢ panic m
  pack-ne-panic op w m e =
      not_panic (first_wide (packed_numbers op)) (packed op) (sym (pack_lem op w) ∙ e)
    where
      not_panic : (o : Option String) (a : PackedUserOperation) → checked o a ≡ panic m → ⊥
      not_panic none a h = cc
      not_panic (some s) a h = cc
