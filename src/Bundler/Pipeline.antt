-- ===== src/Bundler/Pipeline.antt =====
-- crates/bundler/src/bundler.rs: the asynchronous code of `Bundler`.
pub mod Stage
pub mod Checks
pub mod Prepare
pub mod Build
pub mod Receipt
pub mod Built
pub mod Told
pub mod Requests
pub mod Broadcasts
pub mod Promises
pub mod Shutdown
pub mod Cancel
pub mod Accepts
use ethera_bundler.Base.{
  ℕ, zero, suc, ◌+◌, Bool, true, false, not, List, [], ◌∷◌, ◌++◌, Option, none, some, Result, ok,
  err, panic, map_err, if◌then◌else◌, ltb, ◌==◌, length, inl, inr,
}
use ethera_bundler.Base.Bytes.{Bytes}
use ethera_bundler.Alloy.{Uint, Address, Hash}
use ethera_bundler.Config.{BundlerConfig}
use ethera_bundler.Contracts.{PackedUserOperation, Abi}
use ethera_bundler.Types.{UserOpV07, BuildOpts, SignedTxResp}
use ethera_bundler.Packing.{parse_paymaster_and_data}
use ethera_bundler.Packing
use ethera_bundler.Provider.{
  ReceiptInfo, base_fee, max_priority_fee, pending_nonce, balance_of, user_op_hash,
  estimate_handle_ops_gas, send_raw_transaction, wait_for_receipt, try_call_for_revert,
}
use ethera_bundler.Signer.{TxEip1559, TxEnvelope}
use ethera_bundler.Validator.{simulate}
use ethera_bundler.Program.{
  Program, Call, query, warn, done, ask, bind, ◌>>=◌, ◌>>◌, call, answered, unix_now, sign_eip1559,
  lock, unlock,
}
use ethera_bundler.Errors.{
  Format, HandleOpsRevertReason, BundlerError, wrong_chain_id, invalid_batch, batch_too_large,
  cancelled, receipt_timeout, handle_ops_reverted, pack, validation, provider, signer, unknown,
}
use ethera_bundler.Errors.Decode.{decode_handle_ops_revert}
use ethera_bundler.Bundler.Policy.{
  check_per_op_fees, check_deposit, required_prefund, sponsor_of, choose_outer_fees, update_min,
  u128_from_u256, gas_with_margin, expect,
}

-- `Bundler`, with the address of its signer. The provider, the signer, the lock and the shutdown
-- signal are the world that a program runs against.
pub record Bundler : Type 0 where
  pub cfg : BundlerConfig
  pub signer_address : Address
  pub simulations_code : Bytes

-- `Bundler::with_cancellation`, with the address of its signer and the embedded bytecode. The
-- cancellation token is the argument `fires` of each request.
abbrev pub with_cancellation :
    BundlerConfig
    → (signer_address : Address) → (simulations_runtime : Bytes) → Result BundlerError Bundler
with_cancellation cfg signer_address simulations_runtime =
    ok (record {
      cfg = cfg;
      signer_address = signer_address;
      simulations_code = simulations_runtime;
    })

-- `RECEIPT_TIMEOUT`, in milliseconds.
abbrev pub receipt_timeout_ms : ℕ
receipt_timeout_ms = 30_000

-- The variables of the loop over the operations.
pub record Batch : Type 0 where
  pub packed_ops : List PackedUserOperation
  pub user_op_hashes : List Hash
  pub min_user_tip : Option ℕ
  pub min_user_fee_cap : Option ℕ

abbrev pub no_ops : Batch
no_ops = record {
  packed_ops = [];
  user_op_hashes = [];
  min_user_tip = none;
  min_user_fee_cap = none;
}

-- The outer transaction, before its nonce is known.
pub record Outer : Type 0 where
  pub gas : ℕ
  pub tip : ℕ
  pub fee_cap : ℕ
  pub call_data : Bytes

-- The pure step that may fail, as a program.
abbrev pub lift : {E A : Type 0} → Result E A → Program (Result E A)
lift r = done r

-- The guard of `submit_lock`: it is dropped however the body ends.
abbrev pub locked : {E A : Type 0} → Program (Result E A) → Program (Result E A)
locked body = ask lock (λ _. bind body (λ r. ask unlock (λ _. done r)))

-- The reason of a revert by the bytes of the replayed call, if it reverted again.
unfoldable pub replayed_reason : ⦃abi : Abi⦄ → Option Bytes → HandleOpsRevertReason
replayed_reason (some revert) = decode_handle_ops_revert revert
replayed_reason none = unknown []

module _ ⦃u : Uint⦄ ⦃f : Format⦄ ⦃abi : Abi⦄ (b : Bundler) where
  open b use {cfg, signer_address, simulations_code}

  unfoldable pub check_prefund :
      ℕ → UserOpV07 → PackedUserOperation → Program (Result BundlerError (Unit {0}))
  check_prefund i op packed = do
    parsed ← lift (map_err pack (parse_paymaster_and_data packed.paymaster_and_data))
    let (sponsor, pm_ver, pm_post) = sponsor_of op parsed
    let required = required_prefund op pm_ver pm_post
    deposit ← call provider (balance_of cfg.entrypoint_address sponsor)
    lift (check_deposit cfg i sponsor required deposit)

  -- The body of the loop.
  unfoldable pub check_op :
      (base now : ℕ) → ℕ → UserOpV07 → Batch → Program (Result BundlerError Batch)
  check_op base now i op batch = do
    lift (check_per_op_fees cfg i op base)
    packed ← lift (map_err pack (Packing.pack op))
    check_prefund i op packed
    report ←
        bind (simulate cfg.entrypoint_address simulations_code packed now)
          (λ r. done (map_err validation r))
    hash ← call provider (user_op_hash cfg.entrypoint_address packed)
    done (
        ok (record {
          packed_ops = batch.packed_ops ++ (packed ∷ []);
          user_op_hashes = batch.user_op_hashes ++ (hash ∷ []);
          min_user_tip = update_min batch.min_user_tip op.max_priority_fee_per_gas;
          min_user_fee_cap = update_min batch.min_user_fee_cap op.max_fee_per_gas;
        }))

  unfoldable pub check_ops :
      (base now : ℕ) → ℕ → List UserOpV07 → Batch → Program (Result BundlerError Batch)
  check_ops base now i [] batch = done (ok batch)
  check_ops base now i (op ∷ ops) batch =
      check_op base now i op batch >>= λ batch'. check_ops base now (i + 1) ops batch'

  -- From the reading of the nonce to the signature.
  unfoldable pub sign_outer : Outer → Program (Result BundlerError TxEnvelope)
  sign_outer outer = do
    nonce ← call provider (pending_nonce signer_address)
    max_fee_per_gas ← lift (u128_from_u256 outer.fee_cap "outer maxFeePerGas")
    max_priority_fee_per_gas ← lift (u128_from_u256 outer.tip "outer maxPriorityFeePerGas")
    let tx : TxEip1559 = record {
      chain_id = cfg.chain_id;
      nonce = nonce;
      gas_limit = outer.gas;
      max_fee_per_gas = max_fee_per_gas;
      max_priority_fee_per_gas = max_priority_fee_per_gas;
      to = cfg.entrypoint_address;
      value = 0;
      input = outer.call_data;
    }
    ask (sign_eip1559 tx) (λ r. done (answered signer r))

  -- The signature and the broadcast, under the lock.
  unfoldable pub sign_and_send : Outer → Program (Result BundlerError TxEnvelope)
  unfolding sign_outer
  sign_and_send outer = do
    envelope ← sign_outer outer
    submitted ← call provider (send_raw_transaction envelope.encoded_2718)
    done (ok envelope)

  -- The reason of a failed receipt, by replaying the call.
  unfoldable pub explain_revert :
      Outer → TxEnvelope → ReceiptInfo → Program (Result BundlerError (Unit {0}))
  explain_revert outer envelope receipt = do
    replayed ←
        call provider (try_call_for_revert signer_address cfg.entrypoint_address outer.call_data)
    let reason = replayed_reason replayed
    done (err (handle_ops_reverted envelope.tx_hash receipt.block_number reason))

  -- What is made of the answer about the receipt.
  unfoldable pub check_receipt :
      Outer → TxEnvelope → Option ReceiptInfo → Program (Result BundlerError (Unit {0}))
  unfolding explain_revert
  check_receipt outer envelope none = done (err (receipt_timeout envelope.tx_hash))
  check_receipt outer envelope (some receipt) =
      if not receipt.success then explain_revert outer envelope receipt else done (ok tt)

  -- The end of `build_inner`: signature, and in submit mode broadcast and receipt.
  unfoldable pub finish : Bool → Outer → Program (Result BundlerError TxEnvelope)
  unfolding sign_outer sign_and_send check_receipt
  finish false outer = sign_outer outer
  finish true outer = do
    envelope ← locked (sign_and_send outer)
    receipt ← call provider (wait_for_receipt envelope.tx_hash receipt_timeout_ms)
    check_receipt outer envelope receipt
    done (ok envelope)

  -- From the loop's result to the outer transaction.
  unfoldable pub prepare : (base suggested_tip : ℕ) → Batch → Program (Result BundlerError Outer)
  prepare base suggested_tip batch = do
    let call_data = abi.encode_handle_ops batch.packed_ops signer_address
    estimated ←
        call provider (estimate_handle_ops_gas signer_address cfg.entrypoint_address call_data)
    let gas = gas_with_margin estimated cfg.gas_margin_pct
    min_user_tip ← lift (expect batch.min_user_tip "non-empty batch")
    min_user_fee_cap ← lift (expect batch.min_user_fee_cap "non-empty batch")
    (tip, fee_cap) ← lift (choose_outer_fees cfg base suggested_tip min_user_tip min_user_fee_cap)
    done (ok (record { gas = gas; tip = tip; fee_cap = fee_cap; call_data = call_data }))

  abbrev pub response : Outer → Batch → TxEnvelope → SignedTxResp
  response outer batch envelope = record {
    raw = envelope.encoded_2718;
    hash = envelope.tx_hash;
    to = cfg.entrypoint_address;
    chain_id = cfg.chain_id;
    gas = outer.gas;
    max_fee_per_gas = outer.fee_cap;
    max_priority_fee_per_gas = outer.tip;
    user_op_hashes = batch.user_op_hashes;
  }

  -- `build_inner` behind its three tests of the request.
  unfoldable pub build_batch : List UserOpV07 → Bool → Program (Result BundlerError SignedTxResp)
  build_batch ops submit = do
    base ← call provider base_fee
    suggested_tip ← call provider max_priority_fee
    now ← ask unix_now (λ now. done (ok now))
    batch ← check_ops base now 0 ops no_ops
    outer ← prepare base suggested_tip batch
    envelope ← finish submit outer
    done (ok (response outer batch envelope))

  unfoldable pub build_inner :
      List UserOpV07 → BuildOpts → Program (Result BundlerError SignedTxResp)
  build_inner ops opts =
      if not (opts.chain_id == cfg.chain_id)
      then done (err (wrong_chain_id cfg.chain_id opts.chain_id))
      else if length ops == 0
      then done (err (invalid_batch "empty userOps"))
      else if ltb cfg.max_batch_size (length ops)
      then done (err (batch_too_large (length ops) cfg.max_batch_size))
      else build_batch ops opts.submit
