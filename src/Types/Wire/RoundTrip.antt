-- ===== src/Types/Wire/RoundTrip.antt =====
-- What is written is read as it was.
use ethera_bundler.Base.{◌<◌, ◌≡◌, refl, ap, ◌∙◌, String, List, [], ◌∷◌, map, All, Option, some}
use ethera_bundler.Base.Bytes.{IsByte, IsBytes}
use ethera_bundler.Alloy.{u64_mod}
use ethera_bundler.Types.{UserOpV07, BuildOpts, SignedTxResp, IsUserOp, IsU256, IsAddress}
use ethera_bundler.Types.Wire.Given.{Given}
use ethera_bundler.Types.Wire.{
  Serde, Object, values, written, required, defaulted, optional, IsHashes, user_op_fields,
  serialize_user_op, deserialize_user_op, serialize_opts, deserialize_opts, serialize_resp,
  deserialize_resp,
}
use ethera_bundler.Types.Wire.Fields.{
  found, values-written, defaulted-unless_empty, optional-unless_none,
}

-- The ranges of all fields, those of `IsUserOp` with the ones that packing does not need.
pub record IsWireOp (op : UserOpV07) : Type 0 where
  pub ranged : IsUserOp op
  pub nonce : IsU256 op.nonce
  pub init_code : All IsByte op.init_code
  pub factory_data : All IsByte op.factory_data
  pub call_data : All IsByte op.call_data
  pub paymaster_data : All IsByte op.paymaster_data
  pub signature : All IsByte op.signature

pub record IsResp (resp : SignedTxResp) : Type 0 where
  pub raw : All IsByte resp.raw
  pub hash : IsBytes 32 resp.hash
  pub to : IsAddress resp.to
  pub chain_id : resp.chain_id < u64_mod
  pub gas : IsU256 resp.gas
  pub max_fee_per_gas : IsU256 resp.max_fee_per_gas
  pub max_priority_fee_per_gas : IsU256 resp.max_priority_fee_per_gas
  pub user_op_hashes : IsHashes resp.user_op_hashes

module _ (serde : Serde) where
  -- A field read from the written fields.
  read_back :
      {A : Type 0} (fields : List (String × List serde.Value)) (name : String)
      (read : List serde.Value → Option A) (a : A)
      → read (found name fields) ≡ some a
      → read (values name (written fields)) ≡ some a
  read_back fields name read a h = ap read (values-written name fields) ∙ h

  -- An operation in the ranges of its types, in the packed or the unpacked form, is read from the
  -- JSON object that it is written to as it was: the fields that are left out are those whose
  -- default they have.
  pub deserialize_user_op-serialize_user_op :
      (op : UserOpV07)
      → IsWireOp op
      → deserialize_user_op serde (serialize_user_op serde op) ≡ some op
  unfolding serialize_user_op deserialize_user_op
  deserialize_user_op-serialize_user_op op w =
      let fields : List (String × List serde.Value) = user_op_fields serde op in
      let r = w.ranged in
      rw
        (
          read_back fields "sender" (required serde.address) op.sender
              (serde.address.from_value-to_value op.sender r.sender),
          read_back fields "nonce" (required serde.u256) op.nonce
              (serde.u256.from_value-to_value op.nonce w.nonce),
          read_back fields "initCode" (defaulted serde.bytes []) op.init_code
              (defaulted-unless_empty serde op.init_code w.init_code),
          read_back fields "factory" (optional serde) op.factory
              (optional-unless_none serde op.factory r.factory),
          read_back fields "factoryData" (defaulted serde.bytes []) op.factory_data
              (defaulted-unless_empty serde op.factory_data w.factory_data),
          read_back fields "callData" (required serde.bytes) op.call_data
              (serde.bytes.from_value-to_value op.call_data w.call_data),
          read_back fields "callGasLimit" (required serde.u256) op.call_gas_limit
              (serde.u256.from_value-to_value op.call_gas_limit r.call_gas_limit),
          read_back fields "verificationGasLimit" (required serde.u256) op.verification_gas_limit
              (serde.u256.from_value-to_value op.verification_gas_limit r.verification_gas_limit),
          read_back fields "preVerificationGas" (required serde.u256) op.pre_verification_gas
              (serde.u256.from_value-to_value op.pre_verification_gas r.pre_verification_gas),
          read_back fields "maxFeePerGas" (required serde.u256) op.max_fee_per_gas
              (serde.u256.from_value-to_value op.max_fee_per_gas r.max_fee_per_gas),
          read_back fields "maxPriorityFeePerGas" (required serde.u256) op.max_priority_fee_per_gas
              (serde.u256.from_value-to_value op.max_priority_fee_per_gas
                r.max_priority_fee_per_gas),
          read_back fields "paymaster" (optional serde) op.paymaster
              (optional-unless_none serde op.paymaster r.paymaster),
          read_back fields "paymasterVerificationGasLimit" (defaulted serde.u256 0)
              op.paymaster_verification_gas_limit
              (serde.u256.from_value-to_value op.paymaster_verification_gas_limit
                r.paymaster_verification_gas_limit),
          read_back fields "paymasterPostOpGasLimit" (defaulted serde.u256 0)
              op.paymaster_post_op_gas_limit
              (serde.u256.from_value-to_value op.paymaster_post_op_gas_limit
                r.paymaster_post_op_gas_limit),
          read_back fields "paymasterData" (defaulted serde.bytes []) op.paymaster_data
              (defaulted-unless_empty serde op.paymaster_data w.paymaster_data),
          read_back fields "paymasterAndData" (defaulted serde.bytes []) op.paymaster_and_data
              (defaulted-unless_empty serde op.paymaster_and_data r.paymaster_and_data),
          read_back fields "signature" (defaulted serde.bytes []) op.signature
              (serde.bytes.from_value-to_value op.signature w.signature),
        )
        refl

  -- The options of a request are read from the object that they are written to as they were.
  pub deserialize_opts-serialize_opts :
      (opts : BuildOpts)
      → opts.chain_id < u64_mod
      → deserialize_opts serde (serialize_opts serde opts) ≡ some opts
  unfolding serialize_opts deserialize_opts
  deserialize_opts-serialize_opts opts h =
      rw
        (
          serde.u64.from_value-to_value opts.chain_id h,
          serde.bool.from_value-to_value opts.submit tt,
        )
        refl

  -- The `SignedTxResp` object of the README: these eight names in this order, each with the value
  -- of its field.
  pub record IsDocumented (o : Object serde.Value) (resp : SignedTxResp) : Type 0 where
    pub names :
        map (λ (n, v). n) o
        ≡ "raw" ∷ "hash" ∷ "to" ∷ "chainId" ∷ "gas" ∷ "maxFeePerGas" ∷ "maxPriorityFeePerGas"
          ∷ "userOpHashes" ∷ []
    pub raw : Given serde.bytes (values "raw" o) resp.raw
    pub hash : Given serde.b256 (values "hash" o) resp.hash
    pub to : Given serde.address (values "to" o) resp.to
    pub chain_id : Given serde.u64 (values "chainId" o) resp.chain_id
    pub gas : Given serde.u256 (values "gas" o) resp.gas
    pub max_fee_per_gas : Given serde.u256 (values "maxFeePerGas" o) resp.max_fee_per_gas
    pub max_priority_fee_per_gas :
        Given serde.u256 (values "maxPriorityFeePerGas" o) resp.max_priority_fee_per_gas
    pub user_op_hashes : Given serde.hashes (values "userOpHashes" o) resp.user_op_hashes

  deserialize_resp-serialize_resp :
      (resp : SignedTxResp)
      → IsResp resp
      → deserialize_resp serde (serialize_resp serde resp) ≡ some resp
  unfolding serialize_resp deserialize_resp
  deserialize_resp-serialize_resp resp w =
      rw
        (
          serde.bytes.from_value-to_value resp.raw w.raw,
          serde.b256.from_value-to_value resp.hash w.hash,
          serde.address.from_value-to_value resp.to w.to,
          serde.u64.from_value-to_value resp.chain_id w.chain_id,
          serde.u256.from_value-to_value resp.gas w.gas,
          serde.u256.from_value-to_value resp.max_fee_per_gas w.max_fee_per_gas,
          serde.u256.from_value-to_value resp.max_priority_fee_per_gas w.max_priority_fee_per_gas,
          serde.hashes.from_value-to_value resp.user_op_hashes w.user_op_hashes,
        )
        refl

  -- A response in the ranges of its types is written as the `SignedTxResp` object of the README,
  -- with the eight names `raw`, `hash`, `to`, `chainId`, `gas`, `maxFeePerGas`,
  -- `maxPriorityFeePerGas` and `userOpHashes`, each with the value of its field, and is read from
  -- that object as it was.
  pub serialize_resp-IsDocumented :
      (resp : SignedTxResp)
      → IsResp resp
      → IsDocumented (serialize_resp serde resp) resp
        × (deserialize_resp serde (serialize_resp serde resp) ≡ some resp)
  unfolding serialize_resp
  serialize_resp-IsDocumented resp w = (
    record {
      names = refl;
      raw = (_, refl, serde.bytes.from_value-to_value resp.raw w.raw);
      hash = (_, refl, serde.b256.from_value-to_value resp.hash w.hash);
      to = (_, refl, serde.address.from_value-to_value resp.to w.to);
      chain_id = (_, refl, serde.u64.from_value-to_value resp.chain_id w.chain_id);
      gas = (_, refl, serde.u256.from_value-to_value resp.gas w.gas);
      max_fee_per_gas =
          (_, refl, serde.u256.from_value-to_value resp.max_fee_per_gas w.max_fee_per_gas);
      max_priority_fee_per_gas = (
        _,
        refl,
        serde.u256.from_value-to_value resp.max_priority_fee_per_gas w.max_priority_fee_per_gas,
      );
      user_op_hashes =
          (_, refl, serde.hashes.from_value-to_value resp.user_op_hashes w.user_op_hashes);
    },
    deserialize_resp-serialize_resp resp w,
  )
