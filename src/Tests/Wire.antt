-- ===== src/Tests/Wire.antt =====
-- JSON values that keep the types of the fields apart, and an operation through them.
use ethera_bundler.Base.{
  ℕ, ◌≡◌, refl, Bool, true, false, List, [], ◌∷◌, Option, none, some, replicate, arith,
}
use ethera_bundler.Base.Bytes.{Bytes}
use ethera_bundler.Types.{UserOpV07}
use ethera_bundler.Types.Wire.{
  Serde, Object, serialize_user_op, deserialize_user_op, serialize_resp, deserialize_resp,
}
use ethera_bundler.Types.Wire.RoundTrip.{
  IsWireOp, IsResp, IsDocumented, deserialize_user_op-serialize_user_op,
  serialize_resp-IsDocumented,
}
use ethera_bundler.Tests.Data.{op, op-IsUserOp, replicate-IsBytes}
use ethera_bundler.Tests.Requests.{expected}

data Json : Type 0 where
  null : Json
  number : ℕ → Json
  flag : Bool → Json
  text : Bytes → Json
  texts : List Bytes → Json

abbrev number_of : Json → Option ℕ
number_of (number n) = some n
number_of _ = none

abbrev flag_of : Json → Option Bool
flag_of (flag b) = some b
flag_of _ = none

abbrev text_of : Json → Option Bytes
text_of (text bs) = some bs
text_of _ = none

abbrev texts_of : Json → Option (List Bytes)
texts_of (texts bs) = some bs
texts_of _ = none

abbrev is_null : Json → Bool
is_null null = true
is_null _ = false

abbrev serde : Serde
serde = record {
  Value = Json;
  is_null = is_null;
  address = record { to_value = text; from_value = text_of; from_value-to_value = λ a h. refl };
  u256 = record { to_value = number; from_value = number_of; from_value-to_value = λ a h. refl };
  bytes = record { to_value = text; from_value = text_of; from_value-to_value = λ a h. refl };
  b256 = record { to_value = text; from_value = text_of; from_value-to_value = λ a h. refl };
  u64 = record { to_value = number; from_value = number_of; from_value-to_value = λ a h. refl };
  bool = record { to_value = flag; from_value = flag_of; from_value-to_value = λ a h. refl };
  hashes = record { to_value = texts; from_value = texts_of; from_value-to_value = λ a h. refl };
  address-not_null = λ a. refl;
}

op-IsWireOp : IsWireOp op
op-IsWireOp = record {
  ranged = op-IsUserOp;
  nonce = omega arith;
  init_code = tt;
  factory_data = tt;
  call_data = (omega arith, (omega arith, tt));
  paymaster_data = (omega arith, tt);
  signature = (omega arith, tt);
}

deserialize_user_op-serialize_user_op_example :
    deserialize_user_op serde (serialize_user_op serde op) ≡ some op
deserialize_user_op-serialize_user_op_example =
    deserialize_user_op-serialize_user_op serde op op-IsWireOp

-- Only the required names, and a name that is unknown.
abbrev small : Object Json
small =
    ("sender", text (replicate 20 1))
    ∷ ("nonce", number 3)
    ∷ ("callData", text [])
    ∷ ("callGasLimit", number 4)
    ∷ ("unknown", null)
    ∷ ("verificationGasLimit", number 5)
    ∷ ("preVerificationGas", number 6)
    ∷ ("maxFeePerGas", number 7)
    ∷ ("maxPriorityFeePerGas", number 8)
    ∷ []

abbrev small_op : UserOpV07
small_op = record {
  sender = replicate 20 1;
  nonce = 3;
  init_code = [];
  factory = none;
  factory_data = [];
  call_data = [];
  call_gas_limit = 4;
  verification_gas_limit = 5;
  pre_verification_gas = 6;
  max_fee_per_gas = 7;
  max_priority_fee_per_gas = 8;
  paymaster = none;
  paymaster_verification_gas_limit = 0;
  paymaster_post_op_gas_limit = 0;
  paymaster_data = [];
  paymaster_and_data = [];
  signature = [];
}

small_read : deserialize_user_op serde small ≡ some small_op
unfolding deserialize_user_op
small_read = refl

twice_refused : deserialize_user_op serde (("nonce", number 3) ∷ small) ≡ none
unfolding deserialize_user_op
twice_refused = refl

expected-IsResp : IsResp expected
expected-IsResp = record {
  raw = (omega arith, (omega arith, tt));
  hash = replicate-IsBytes 32 6 (omega arith);
  to = (refl, ground arith);
  chain_id = omega arith;
  gas = omega arith;
  max_fee_per_gas = omega arith;
  max_priority_fee_per_gas = omega arith;
  user_op_hashes =
      (replicate-IsBytes 32 5 (omega arith), (replicate-IsBytes 32 5 (omega arith), tt));
}

serialize_resp-IsDocumented_example :
    IsDocumented serde (serialize_resp serde expected) expected
    × (deserialize_resp serde (serialize_resp serde expected) ≡ some expected)
serialize_resp-IsDocumented_example = serialize_resp-IsDocumented serde expected expected-IsResp
