-- ===== src/Packing.antt =====
-- crates/bundler/src/packing.rs: from the wire format of an operation to the on-chain struct, and
-- the prefix of a `paymasterAndData` blob.
pub mod Words
pub mod Blob
pub mod Fields
pub mod RoundTrip
use ethera_bundler.Base.{
  ℕ, ◌+◌, Bool, true, false, ◌||◌, not, List, [], ◌∷◌, ◌++◌, Option, none, some, String, Result, ok,
  err, panic, ◌>>=◌, if◌then◌else◌, ltb, length, drop,
}
use ethera_bundler.Base.Bytes.{Bytes, slice}
use ethera_bundler.Alloy.{Uint, Address, Hash, is_zero}
use ethera_bundler.Contracts.{PackedUserOperation}
use ethera_bundler.Types.{UserOpV07, bytes_is_empty}

-- `PackError`
pub data PackError : Type 0 where
  overflow : String → PackError
  paymaster_and_data_too_short : ℕ → PackError

abbrev pub paymaster_header_len : ℕ
paymaster_header_len = 52

abbrev pub address_len : ℕ
address_len = 20

abbrev pub u128_len : ℕ
u128_len = 16

-- The choice between the two shapes of `initCode` in `pack`.
unfoldable pub pack_init_code : UserOpV07 → Bytes
pack_init_code op = if not (bytes_is_empty op.init_code) then op.init_code else elim op.factory [
  | some f ↦ if not (is_zero f) then f ++ op.factory_data else []
  | none ↦ []
]

module _ ⦃u : Uint⦄ where
  unfoldable pub pack_pair_to_bytes32 : ℕ → ℕ → String → Result PackError Hash
  pack_pair_to_bytes32 hi lo field =
      if ltb 128 (u.bit_len hi) || ltb 128 (u.bit_len lo)
      then err (overflow field)
      else ok (drop 16 (u.to_be_bytes hi) ++ drop 16 (u.to_be_bytes lo))

  -- The blob of the paymaster `pm` of `pack`, with the two checks in front of it.
  unfoldable pub pack_paymaster : UserOpV07 → Address → Result PackError Bytes
  pack_paymaster op pm =
      if ltb 128 (u.bit_len op.paymaster_verification_gas_limit)
      then err (overflow "paymasterVerificationGasLimit")
      else if ltb 128 (u.bit_len op.paymaster_post_op_gas_limit)
      then err (overflow "paymasterPostOpGasLimit")
      else ok (
          pm
          ++ (drop 16 (u.to_be_bytes op.paymaster_verification_gas_limit)
              ++ (drop 16 (u.to_be_bytes op.paymaster_post_op_gas_limit) ++ op.paymaster_data)))

  -- The choice between the two shapes of `paymasterAndData` in `pack`.
  unfoldable pub pack_paymaster_and_data : UserOpV07 → Result PackError Bytes
  pack_paymaster_and_data op =
      if not (bytes_is_empty op.paymaster_and_data)
      then ok op.paymaster_and_data
      else elim op.paymaster [
        | some pm ↦ if not (is_zero pm) then pack_paymaster op pm else ok []
        | none ↦ ok []
      ]

  unfoldable pub pack : UserOpV07 → Result PackError PackedUserOperation
  pack op = do
    let init_code = pack_init_code op
    paymaster_and_data ← pack_paymaster_and_data op
    account_gas_limits ←
        pack_pair_to_bytes32 op.verification_gas_limit op.call_gas_limit "accountGasLimits"
    gas_fees ← pack_pair_to_bytes32 op.max_priority_fee_per_gas op.max_fee_per_gas "gasFees"
    ok (record {
      sender = op.sender;
      nonce = op.nonce;
      init_code = init_code;
      call_data = op.call_data;
      account_gas_limits = account_gas_limits;
      pre_verification_gas = op.pre_verification_gas;
      gas_fees = gas_fees;
      paymaster_and_data = paymaster_and_data;
      signature = op.signature;
    })

  unfoldable pub parse_paymaster_and_data : Bytes → Result PackError (Option (Address × ℕ × ℕ))
  unfolding slice
  parse_paymaster_and_data blob =
      if bytes_is_empty blob
      then ok none
      else if ltb (length blob) paymaster_header_len
      then err (paymaster_and_data_too_short (length blob))
      else do
        paymaster ← slice blob 0 address_len
        ver ← slice blob address_len (address_len + u128_len)
        post ← slice blob (address_len + u128_len) paymaster_header_len
        ok (some (paymaster, u.from_be_slice ver, u.from_be_slice post))
