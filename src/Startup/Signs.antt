-- ===== src/Startup/Signs.antt =====
-- What the response of a server that signs with `LocalSigner` holds.
use ethera_bundler.Base.{
  ℕ, ◌≡◌, refl, sym, ◌∙◌, List, [], map, All, Option, ok, ◌⊎◌, inl, inr, String,
}
use ethera_bundler.Alloy.{Uint}
use ethera_bundler.Contracts.{Abi, PackedUserOperation}
use ethera_bundler.Types.{UserOpV07, BuildOpts, SignedTxResp, IsUserOp, IsU256}
use ethera_bundler.Packing
use ethera_bundler.Signer.{
  signing, TxEip1559, TxEnvelope, PrivateKeys, LocalSigner, local_sign_eip1559,
}
use ethera_bundler.Program.{World, Log, run, sign_eip1559}
use ethera_bundler.Program.Laws.{IsTyped, run-Answered}
use ethera_bundler.Errors.{Format}
use ethera_bundler.Bundler.Pipeline.{Bundler}
use ethera_bundler.Bundler.Pipeline.Shutdown.{build_signed_user_ops_tx}
use ethera_bundler.Bundler.Pipeline.Stage.{discipline}
use ethera_bundler.Bundler.Pipeline.Told.{replay-Signs}
use ethera_bundler.Bundler.Pipeline.Cancel.{run-IsBuilt}

module _ (keys : PrivateKeys) (signer : LocalSigner keys) where
  -- An envelope that the signer makes has a signature of its key in it.
  local_sign_eip1559-inl :
      (tx : TxEip1559) (envelope : TxEnvelope)
      → local_sign_eip1559 keys signer tx ≡ inl envelope
      → (signature : keys.Signature) × (keys.sign_transaction_sync signer.inner tx ≡ inl signature)
        × (keys.into_signed tx signature ≡ envelope)
  unfolding local_sign_eip1559
  local_sign_eip1559-inl tx envelope h = made (keys.sign_transaction_sync signer.inner tx) h
    where
      made :
          (x : keys.Signature ⊎ String)
          → (elim x [
            | inl signature ↦ inl (keys.into_signed tx signature)
            | inr e ↦ inr (signing e)
          ])
            ≡ inl envelope
          → (signature : keys.Signature) × (x ≡ inl signature)
            × (keys.into_signed tx signature ≡ envelope)
      made (inl signature) h =
          let same : keys.into_signed tx signature ≡ envelope = cc in (signature, refl, same)
      made (inr e) h = cc

  module _ ⦃u : Uint⦄ ⦃abi : Abi⦄ (b : Bundler) (ops : List UserOpV07) (resp : SignedTxResp) where
    -- The transaction of a response, for a nonce and packed operations: a call of `handleOps` on
    -- the chain and to the entry point that the response names, with its gas and fees.
    abbrev pub outer_of_response : ℕ → List PackedUserOperation → TxEip1559
    outer_of_response nonce packed_ops = record {
      chain_id = resp.chain_id;
      nonce = nonce;
      gas_limit = resp.gas;
      max_fee_per_gas = resp.max_fee_per_gas;
      max_priority_fee_per_gas = resp.max_priority_fee_per_gas;
      to = resp.to;
      value = 0;
      input = abi.encode_handle_ops packed_ops b.signer_address;
    }

    -- The raw bytes and the hash of the response are those of that transaction with the key's
    -- signature, on the packed operations of the request.
    pub record IsSigned : Type 0 where
      pub nonce : ℕ
      pub packed_ops : List PackedUserOperation
      pub packed : map Packing.pack ops ≡ map ok packed_ops
      pub signature : keys.Signature
      pub signs :
          keys.sign_transaction_sync signer.inner (outer_of_response nonce packed_ops)
          ≡ inl signature
      pub bytes :
          keys.into_signed (outer_of_response nonce packed_ops) signature
          ≡ record { encoded_2718 = resp.raw; tx_hash = resp.hash }

  -- Where signatures are asked of `LocalSigner`, every response of a request carries a transaction
  -- that is signed with its key: a call of `handleOps` on the packed operations of the request, on
  -- the chain and to the entry point that the response names, with its gas and fees and without
  -- value. This is for operations, a minimum fee and answers in the ranges of their types.
  pub response-IsSigned :
      ⦃u : Uint⦄ ⦃f : Format⦄ ⦃abi : Abi⦄ (b : Bundler) (world : World)
      → ((log : Log) (tx : TxEip1559)
          → world log (sign_eip1559 tx) ≡ local_sign_eip1559 keys signer tx)
      → (ops : List UserOpV07) (opts : BuildOpts) (fires : Option ℕ) (resp : SignedTxResp)
      → IsU256 b.cfg.min_priority_fee_wei
      → All IsUserOp ops
      → IsTyped (discipline b opts.submit) world
      → (run world (build_signed_user_ops_tx b fires ops opts) []).0 ≡ ok resp
      → IsSigned b ops resp
  response-IsSigned b world local ops opts fires resp hm w typed h =
      let program = build_signed_user_ops_tx b fires ops opts in
      let g = run-IsBuilt b ops opts hm w fires world typed resp h in
      let tx : TxEip1559 = outer_of_response b ops resp g.nonce g.packed_ops in
      let envelope : TxEnvelope = record { encoded_2718 = resp.raw; tx_hash = resp.hash } in
      let (log, answer) =
        replay-Signs world b opts.submit tx envelope (run world program []).1
          (run-Answered world program [] tt) g.signed in
      let (signature, signs, bytes) =
        local_sign_eip1559-inl tx envelope (sym (local log tx) ∙ answer) in
      record {
        nonce = g.nonce;
        packed_ops = g.packed_ops;
        packed = g.packed;
        signature = signature;
        signs = signs;
        bytes = bytes;
      }
