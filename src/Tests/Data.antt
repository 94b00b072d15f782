-- ===== src/Tests/Data.antt =====
-- One operation with a paymaster, a node that accepts it, and the conditions that they meet.
use ethera_bundler.Base.{
  ℕ, zero, suc, ◌^◌, ◌<◌, ◌≡◌, refl, true, List, [], ◌∷◌, Option, none, some, ok, inl, length,
  replicate, arith,
}
use ethera_bundler.Base.Bytes.{Bytes, IsBytes}
use ethera_bundler.Alloy.{Uint, Address}
use ethera_bundler.Alloy.Native.{native_uint}
use ethera_bundler.Config.{BundlerConfig, default_config}
use ethera_bundler.Contracts.{PackedUserOperation, ValidationResult, Abi}
use ethera_bundler.Types.{UserOpV07, BuildOpts, IsUserOp}
use ethera_bundler.Packing.{pack}
use ethera_bundler.Packing.Fields.{packed, pack_lem}
use ethera_bundler.Errors.{Format}
use ethera_bundler.Provider.{
  chain_id, base_fee, max_priority_fee, pending_nonce, balance, get_code, balance_of, user_op_hash,
  estimate_handle_ops_gas, send_raw_transaction, wait_for_receipt, try_call_for_revert,
  simulate_validation,
}
use ethera_bundler.Program.{Call, Answer, query, unix_now, sign_eip1559, lock, unlock, warn, World}
use ethera_bundler.Program.Laws.{IsTyped}
use ethera_bundler.Bundler.Pipeline.{Bundler}
use ethera_bundler.Bundler.Pipeline.Stage.{discipline, Possible}

instance abbrev pub uint : Uint
uint = native_uint

instance abbrev pub format : Format
format = record { show = λ n. "n"; show_hex = λ n. "x"; debug = λ bs. "0x"; hex_encode = λ bs. "" }

-- A body is the bytes of one number, or nothing.
abbrev first_byte : Bytes → Option ℕ
first_byte [] = none
first_byte (b ∷ bs) = some b

instance abbrev pub abi : Abi
abi = record {
  encode_handle_ops = λ ops beneficiary. length ops ∷ beneficiary;
  failed_op_selector = 0x22 ∷ 0x02 ∷ 0x66 ∷ 0xb6 ∷ [];
  decode_failed_op = λ body. elim (first_byte body) [ none ↦ none | some b ↦ some (b, "AA31") ];
  failed_op_with_revert_selector = 0x65 ∷ 0xc8 ∷ 0xfd ∷ 0x4d ∷ [];
  decode_failed_op_with_revert = λ body. none;
  signature_validation_failed_selector = 0x86 ∷ 0xa9 ∷ 0xf7 ∷ 0x50 ∷ [];
  decode_signature_validation_failed = λ body. none;
  post_op_reverted_selector = 0xad ∷ 0x79 ∷ 0x54 ∷ 0xbc ∷ [];
  decode_post_op_reverted = λ body. some body;
  decode_string = λ body. none;
  decode_uint = first_byte;
}

pub replicate-IsBytes : (n b : ℕ) → b < 256 → IsBytes n (replicate n b)
replicate-IsBytes zero b h = (refl, tt)
replicate-IsBytes (suc n) b h =
    let (len, bytes) = replicate-IsBytes n b h in (omega (arith, len), (h, bytes))

abbrev pub account : Address
account = replicate 20 0xaa

abbrev pub sponsor : Address
sponsor = replicate 20 0xbb

-- An operation with a fee cap.
abbrev with_cap : ℕ → UserOpV07
with_cap cap = record {
  sender = account;
  nonce = 4;
  init_code = [];
  factory = none;
  factory_data = [];
  call_data = 1 ∷ 2 ∷ [];
  call_gas_limit = 90_000;
  verification_gas_limit = 80_000;
  pre_verification_gas = 50_000;
  max_fee_per_gas = cap;
  max_priority_fee_per_gas = 20_000_000;
  paymaster = some sponsor;
  paymaster_verification_gas_limit = 70_000;
  paymaster_post_op_gas_limit = 60_000;
  paymaster_data = 7 ∷ [];
  paymaster_and_data = [];
  signature = 9 ∷ [];
}

with_cap-IsUserOp : (cap : ℕ) → cap < 2 ^ 256 → IsUserOp (with_cap cap)
with_cap-IsUserOp cap h = record {
  sender = replicate-IsBytes 20 0xaa (omega arith);
  factory = tt;
  call_gas_limit = omega arith;
  verification_gas_limit = omega arith;
  pre_verification_gas = omega arith;
  max_fee_per_gas = h;
  max_priority_fee_per_gas = omega arith;
  paymaster = replicate-IsBytes 20 0xbb (omega arith);
  paymaster_verification_gas_limit = omega arith;
  paymaster_post_op_gas_limit = omega arith;
  paymaster_and_data = tt;
}

abbrev pub op : UserOpV07
op = with_cap 3_000_000_000

pub op-IsUserOp : IsUserOp op
op-IsUserOp = with_cap-IsUserOp 3_000_000_000 (omega arith)

-- Its fee cap does not fit 128 bits.
abbrev pub wide_op : UserOpV07
wide_op = with_cap (2 ^ 200)

pub wide_op-IsUserOp : IsUserOp wide_op
wide_op-IsUserOp = with_cap-IsUserOp (2 ^ 200) (omega arith)

abbrev pub packed_op : PackedUserOperation
packed_op = packed op

pub pack-packed_op : pack op ≡ ok packed_op
pack-packed_op = pack_lem op op-IsUserOp

abbrev pub config : BundlerConfig
config = default_config 901 "http://127.0.0.1:8545" (replicate 32 1)

abbrev pub bundler : Bundler
bundler = record { cfg = config; signer_address = replicate 20 0xcc; simulations_code = 0x60 ∷ [] }

abbrev pub options : BuildOpts
options = record { chain_id = 901; submit = true }

abbrev pub ops : List UserOpV07
ops = op ∷ op ∷ []

abbrev pub accepted : ValidationResult
accepted = record {
  return_info = record {
    pre_op_gas = 40_000;
    prefund = 1_000_000;
    account_validation_data = 0;
    paymaster_validation_data = 0;
    paymaster_context = [];
  };
  sender_info = record { stake = 0; unstake_delay = 0 };
  factory_info = record { stake = 0; unstake_delay = 0 };
  paymaster_info = record { stake = 0; unstake_delay = 0 };
  aggregator_info = record {
    aggregator = account;
    stake_info = record { stake = 0; unstake_delay = 0 };
  };
}

-- A node at which everything succeeds.
abbrev pub answer : (c : Call) → Answer c
answer (query chain_id) = inl 901
answer (query base_fee) = inl 1_000_000_000
answer (query max_priority_fee) = inl 5_000_000
answer (query (pending_nonce a)) = inl 12
answer (query (balance a)) = inl 0
answer (query (get_code a)) = inl (0x60 ∷ [])
answer (query (balance_of e a)) = inl (10 ^ 30)
answer (query (user_op_hash e p)) = inl (replicate 32 5)
answer (query (estimate_handle_ops_gas f t d)) = inl 300_000
answer (query (send_raw_transaction raw)) = inl (replicate 32 6)
answer (query (wait_for_receipt h t)) =
    inl (some (record { tx_hash = h; block_number = 77; success = true }))
answer (query (try_call_for_revert f t d)) = inl none
answer (query (simulate_validation e c p)) = inl accepted
answer unix_now = 1_700_000_000
answer (sign_eip1559 tx) =
    inl (record { encoded_2718 = 2 ∷ tx.nonce ∷ []; tx_hash = replicate 32 6 })
answer lock = tt
answer unlock = tt
answer (warn s) = tt

abbrev pub world : World
world log c = answer c

pub answer-Possible : (c : Call) → Possible c (answer c)
answer-Possible (query base_fee) = omega arith
answer-Possible (query max_priority_fee) = omega arith
answer-Possible (query (estimate_handle_ops_gas f t d)) = omega arith
answer-Possible _ = tt

pub world-IsTyped : IsTyped (discipline bundler true) world
world-IsTyped log c = answer-Possible c
