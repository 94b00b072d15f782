-- ===== src/Types/Wire/Reading.antt =====
-- Which JSON objects are an operation, field by field.
use ethera_bundler.Base.{[]}
use ethera_bundler.Types.{UserOpV07}
use ethera_bundler.Types.Wire.{Serde, Object, values}
use ethera_bundler.Types.Wire.Given.{Given, GivenOr, GivenOrNull}

module _ (serde : Serde) where
  -- The fields of an operation in an object. Other names do not matter.
  pub record IsRead (o : Object serde.Value) (op : UserOpV07) : Type 0 where
    pub sender : Given serde.address (values "sender" o) op.sender
    pub nonce : Given serde.u256 (values "nonce" o) op.nonce
    pub init_code : GivenOr serde.bytes [] (values "initCode" o) op.init_code
    pub factory : GivenOrNull serde (values "factory" o) op.factory
    pub factory_data : GivenOr serde.bytes [] (values "factoryData" o) op.factory_data
    pub call_data : Given serde.bytes (values "callData" o) op.call_data
    pub call_gas_limit : Given serde.u256 (values "callGasLimit" o) op.call_gas_limit
    pub verification_gas_limit :
        Given serde.u256 (values "verificationGasLimit" o) op.verification_gas_limit
    pub pre_verification_gas :
        Given serde.u256 (values "preVerificationGas" o) op.pre_verification_gas
    pub max_fee_per_gas : Given serde.u256 (values "maxFeePerGas" o) op.max_fee_per_gas
    pub max_priority_fee_per_gas :
        Given serde.u256 (values "maxPriorityFeePerGas" o) op.max_priority_fee_per_gas
    pub paymaster : GivenOrNull serde (values "paymaster" o) op.paymaster
    pub paymaster_verification_gas_limit :
        GivenOr serde.u256 0
          (values "paymasterVerificationGasLimit" o)
          op.paymaster_verification_gas_limit
    pub paymaster_post_op_gas_limit :
        GivenOr serde.u256 0 (values "paymasterPostOpGasLimit" o) op.paymaster_post_op_gas_limit
    pub paymaster_data : GivenOr serde.bytes [] (values "paymasterData" o) op.paymaster_data
    pub paymaster_and_data :
        GivenOr serde.bytes [] (values "paymasterAndData" o) op.paymaster_and_data
    pub signature : GivenOr serde.bytes [] (values "signature" o) op.signature
