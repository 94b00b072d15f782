-- ===== src/Types/Wire.antt =====
-- crates/bundler/src/types.rs: the JSON objects of the three types, by their `serde` attributes. An
-- object is the list of its named values. The values themselves, and how a number, a byte string or
-- an address is one, are parameters. Of a refused object only that it is refused is modelled.
pub mod Fields
pub mod RoundTrip
pub mod Given
pub mod Reading
use text.Mathlib.Text.{◌==◌}
use ethera_bundler.Base.{
  ℕ, ◌<◌, ◌≡◌, String, Bool, true, false, List, [], ◌∷◌, ◌++◌, map, All, Option, none, some,
  if◌then◌else◌,
}
use ethera_bundler.Base.Bytes.{Bytes, IsByte, IsBytes}
use ethera_bundler.Alloy.{Address, Hash, u64_mod}
use ethera_bundler.Types.{
  UserOpV07, BuildOpts, SignedTxResp, IsAddress, IsU256, bytes_is_empty, default_submit,
}

-- A type as a JSON value: what is written can be read again.
pub record Codec (Value A : Type 0) (IsValid : A → Type 0) : Type 0 where
  pub to_value : A → Value
  pub from_value : Value → Option A
  pub from_value-to_value : (a : A) → IsValid a → from_value (to_value a) ≡ some a

abbrev pub IsHashes : List Hash → Type 0
IsHashes hashes = All (IsBytes 32) hashes

-- The values of `serde_json` and the codecs of the field types. No address is written as `null`.
pub record Serde : Type 1 where
  pub Value : Type 0
  pub is_null : Value → Bool
  pub address : Codec Value Address IsAddress
  pub u256 : Codec Value ℕ IsU256
  pub bytes : Codec Value Bytes (All IsByte)
  pub b256 : Codec Value Hash (IsBytes 32)
  pub u64 : Codec Value ℕ (λ n. n < u64_mod)
  pub bool : Codec Value Bool (λ _. Unit)
  pub hashes : Codec Value (List Hash) IsHashes
  pub address-not_null : (a : Address) → is_null (address.to_value a) ≡ false

infixl 5 ◌>>=◌
abbrev pub ◌>>=◌ {ℓ κ} : {A : Type ℓ} {B : Type κ} → Option A → (A → Option B) → Option B
none >>= f = none
some a >>= f = f a

abbrev pub Object : Type 0 → Type 0
Object Value = List (String × Value)

module _ {Value : Type 0} where
  -- All values of a name. A second value is refused as a duplicate.
  abbrev pub values : String → Object Value → List Value
  values name [] = []
  values name ((n, v) ∷ rest) = if name == n then v ∷ values name rest else values name rest

  -- The names in their order, each with no value or one.
  abbrev pub written : List (String × List Value) → Object Value
  written [] = []
  written ((n, vs) ∷ rest) = map (λ v. (n, v)) vs ++ written rest

  module _ {A : Type 0} {IsValid : A → Type 0} (codec : Codec Value A IsValid) where
    -- A field without attributes.
    abbrev pub required : List Value → Option A
    required (v ∷ []) = codec.from_value v
    required _ = none

    -- `default`
    abbrev pub defaulted : A → List Value → Option A
    defaulted value [] = some value
    defaulted value (v ∷ []) = codec.from_value v
    defaulted value _ = none

    abbrev pub always : A → List Value
    always a = codec.to_value a ∷ []

module _ (serde : Serde) where
  -- `default` of an optional field: `null` stands for none, too.
  abbrev pub optional : List serde.Value → Option (Option Address)
  optional [] = some none
  optional (v ∷ []) =
      if serde.is_null v then some none else (serde.address.from_value v >>= λ a. some (some a))
  optional _ = none

  -- `skip_serializing_if = "bytes_is_empty"`
  abbrev pub unless_empty : Bytes → List serde.Value
  unless_empty bs = if bytes_is_empty bs then [] else always serde.bytes bs

  -- `skip_serializing_if = "Option::is_none"`
  abbrev pub unless_none : Option Address → List serde.Value
  unless_none none = []
  unless_none (some a) = always serde.address a

  -- The fields of `UserOpV07` as they are serialized.
  abbrev pub user_op_fields : UserOpV07 → List (String × List serde.Value)
  user_op_fields op =
      ("sender", always serde.address op.sender)
      ∷ ("nonce", always serde.u256 op.nonce)
      ∷ ("initCode", unless_empty op.init_code)
      ∷ ("factory", unless_none op.factory)
      ∷ ("factoryData", unless_empty op.factory_data)
      ∷ ("callData", always serde.bytes op.call_data)
      ∷ ("callGasLimit", always serde.u256 op.call_gas_limit)
      ∷ ("verificationGasLimit", always serde.u256 op.verification_gas_limit)
      ∷ ("preVerificationGas", always serde.u256 op.pre_verification_gas)
      ∷ ("maxFeePerGas", always serde.u256 op.max_fee_per_gas)
      ∷ ("maxPriorityFeePerGas", always serde.u256 op.max_priority_fee_per_gas)
      ∷ ("paymaster", unless_none op.paymaster)
      ∷ ("paymasterVerificationGasLimit", always serde.u256 op.paymaster_verification_gas_limit)
      ∷ ("paymasterPostOpGasLimit", always serde.u256 op.paymaster_post_op_gas_limit)
      ∷ ("paymasterData", unless_empty op.paymaster_data)
      ∷ ("paymasterAndData", unless_empty op.paymaster_and_data)
      ∷ ("signature", always serde.bytes op.signature)
      ∷ []

  unfoldable pub serialize_user_op : UserOpV07 → Object serde.Value
  serialize_user_op op = written (user_op_fields op)

  unfoldable pub deserialize_user_op : Object serde.Value → Option UserOpV07
  deserialize_user_op o = do
    sender ← required serde.address (values "sender" o)
    nonce ← required serde.u256 (values "nonce" o)
    init_code ← defaulted serde.bytes [] (values "initCode" o)
    factory ← optional (values "factory" o)
    factory_data ← defaulted serde.bytes [] (values "factoryData" o)
    call_data ← required serde.bytes (values "callData" o)
    call_gas_limit ← required serde.u256 (values "callGasLimit" o)
    verification_gas_limit ← required serde.u256 (values "verificationGasLimit" o)
    pre_verification_gas ← required serde.u256 (values "preVerificationGas" o)
    max_fee_per_gas ← required serde.u256 (values "maxFeePerGas" o)
    max_priority_fee_per_gas ← required serde.u256 (values "maxPriorityFeePerGas" o)
    paymaster ← optional (values "paymaster" o)
    pm_ver ← defaulted serde.u256 0 (values "paymasterVerificationGasLimit" o)
    pm_post ← defaulted serde.u256 0 (values "paymasterPostOpGasLimit" o)
    paymaster_data ← defaulted serde.bytes [] (values "paymasterData" o)
    paymaster_and_data ← defaulted serde.bytes [] (values "paymasterAndData" o)
    signature ← defaulted serde.bytes [] (values "signature" o)
    some (record {
      sender = sender;
      nonce = nonce;
      init_code = init_code;
      factory = factory;
      factory_data = factory_data;
      call_data = call_data;
      call_gas_limit = call_gas_limit;
      verification_gas_limit = verification_gas_limit;
      pre_verification_gas = pre_verification_gas;
      max_fee_per_gas = max_fee_per_gas;
      max_priority_fee_per_gas = max_priority_fee_per_gas;
      paymaster = paymaster;
      paymaster_verification_gas_limit = pm_ver;
      paymaster_post_op_gas_limit = pm_post;
      paymaster_data = paymaster_data;
      paymaster_and_data = paymaster_and_data;
      signature = signature;
    })

  -- `BuildOpts`
  unfoldable pub serialize_opts : BuildOpts → Object serde.Value
  serialize_opts opts =
      written (
        ("chainId", always serde.u64 opts.chain_id)
        ∷ ("submit", always serde.bool opts.submit)
        ∷ [])

  unfoldable pub deserialize_opts : Object serde.Value → Option BuildOpts
  deserialize_opts o = do
    chain_id ← required serde.u64 (values "chainId" o)
    submit ← defaulted serde.bool default_submit (values "submit" o)
    some (record { chain_id = chain_id; submit = submit })

  -- `SignedTxResp`
  unfoldable pub serialize_resp : SignedTxResp → Object serde.Value
  serialize_resp resp = written (
      ("raw", always serde.bytes resp.raw)
      ∷ ("hash", always serde.b256 resp.hash)
      ∷ ("to", always serde.address resp.to)
      ∷ ("chainId", always serde.u64 resp.chain_id)
      ∷ ("gas", always serde.u256 resp.gas)
      ∷ ("maxFeePerGas", always serde.u256 resp.max_fee_per_gas)
      ∷ ("maxPriorityFeePerGas", always serde.u256 resp.max_priority_fee_per_gas)
      ∷ ("userOpHashes", always serde.hashes resp.user_op_hashes)
      ∷ [])

  unfoldable pub deserialize_resp : Object serde.Value → Option SignedTxResp
  deserialize_resp o = do
    raw ← required serde.bytes (values "raw" o)
    hash ← required serde.b256 (values "hash" o)
    to ← required serde.address (values "to" o)
    chain_id ← required serde.u64 (values "chainId" o)
    gas ← required serde.u256 (values "gas" o)
    max_fee_per_gas ← required serde.u256 (values "maxFeePerGas" o)
    max_priority_fee_per_gas ← required serde.u256 (values "maxPriorityFeePerGas" o)
    user_op_hashes ← required serde.hashes (values "userOpHashes" o)
    some (record {
      raw = raw;
      hash = hash;
      to = to;
      chain_id = chain_id;
      gas = gas;
      max_fee_per_gas = max_fee_per_gas;
      max_priority_fee_per_gas = max_priority_fee_per_gas;
      user_op_hashes = user_op_hashes;
    })
