-- ===== src/Bundler/Pipeline/Accepts/Response.antt =====
-- A request that `build_inner` accepts, and the end of `build_inner` from the loop to the response.
use ethera_bundler.Base.{
  ℕ, ◌+◌, ◌≤◌, ◌<◌, ◌≡◌, refl, sym, ap, ◌∙◌, min, Bool, true, List, [], map, All, some, Result, ok,
  inl, length,
}
use mathlib.Core.Path.{subst}
use ethera_bundler.Alloy.{Uint, Hash}
use ethera_bundler.Contracts.{Abi}
use ethera_bundler.Types.{UserOpV07, BuildOpts, SignedTxResp, IsU256}
use ethera_bundler.Packing.Fields.{packed}
use ethera_bundler.Provider.{base_fee, max_priority_fee, pending_nonce, estimate_handle_ops_gas}
use ethera_bundler.Signer.{TxEnvelope}
use ethera_bundler.Program.{
  unix_now, ask, call, Call, Answer, query, sign_eip1559, Program, done, continue, bind,
}
use ethera_bundler.Program.Steady.{outcome, outcome-eq-ok}
use ethera_bundler.Errors.{Format, BundlerError, provider}
use ethera_bundler.Bundler.Policy.{gas_with_margin}
use ethera_bundler.Bundler.Policy.Fees.{least, u256_max}
use ethera_bundler.Bundler.Policy.Outer.{outer_tip}
use ethera_bundler.Bundler.Pipeline.{
  Bundler, check_ops, Batch, no_ops, Outer, prepare, finish, response,
}
use ethera_bundler.Bundler.Pipeline.Build.{outer_tx}
use ethera_bundler.Bundler.Pipeline.Checks.{tips_of, caps_of}
use ethera_bundler.Bundler.Pipeline.Prepare.{outer_of}
use ethera_bundler.Bundler.Pipeline.Accepts.{IsPassing, Hashed}
use ethera_bundler.Bundler.Pipeline.Accepts.Loop.{gather, gather-IsGathered}
use ethera_bundler.Bundler.Pipeline.Accepts.Outer.{Mined, prepare-ok_iff}
use ethera_bundler.Bundler.Pipeline.Accepts.Submission.{finish-ok_iff}

-- The transaction of a response.
abbrev pub envelope_of : SignedTxResp → TxEnvelope
envelope_of resp = record { encoded_2718 = resp.raw; tx_hash = resp.hash }

module _ ⦃u : Uint⦄ ⦃abi : Abi⦄ (b : Bundler) where
  -- The outer transaction of a response to these operations.
  abbrev pub outer_for : List UserOpV07 → SignedTxResp → Outer
  outer_for ops resp = record {
    gas = resp.gas;
    tip = resp.max_priority_fee_per_gas;
    fee_cap = resp.max_fee_per_gas;
    call_data = abi.encode_handle_ops (map packed ops) b.signer_address;
  }

  module _ (answers : (c : Call) → Answer c) where
    -- A batch that the node lets pass, and the response that is built from its answers.
    pub record IsBuildable (ops : List UserOpV07) (submit : Bool) (resp : SignedTxResp)
        : Type 0 where
      pub base : ℕ
      pub base_read : answers (query base_fee) ≡ inl base
      pub suggested : ℕ
      pub suggested_read : answers (query max_priority_fee) ≡ inl suggested
      pub passing : All (IsPassing answers b base) ops
      pub hashed : Hashed answers b ops resp.user_op_hashes
      pub estimate : ℕ
      pub estimated :
          answers (
            query (
              estimate_handle_ops_gas b.signer_address b.cfg.entrypoint_address
                (abi.encode_handle_ops (map packed ops) b.signer_address)))
          ≡ inl estimate
      pub gas : resp.gas ≡ gas_with_margin estimate b.cfg.gas_margin_pct
      pub min_tip : ℕ
      pub min_tip_least : least (tips_of ops) ≡ some min_tip
      pub tip : resp.max_priority_fee_per_gas ≡ outer_tip b.cfg suggested min_tip
      pub cap : least (caps_of ops) ≡ some resp.max_fee_per_gas
      pub covers : min (base + resp.max_priority_fee_per_gas) u256_max ≤ resp.max_fee_per_gas
      pub to : resp.to ≡ b.cfg.entrypoint_address
      pub chain_id : resp.chain_id ≡ b.cfg.chain_id
      pub nonce : ℕ
      pub nonce_read : answers (query (pending_nonce b.signer_address)) ≡ inl nonce
      pub signed :
          answers (sign_eip1559 (outer_tx b (outer_for ops resp) nonce)) ≡ inl (envelope_of resp)
      pub mined : submit ≡ true → Mined answers (envelope_of resp)

    -- A request that is for this chain, with a batch that is neither empty nor too large.
    pub record IsAccepted (ops : List UserOpV07) (opts : BuildOpts) (resp : SignedTxResp)
        : Type 0 where
      pub for_chain : opts.chain_id ≡ b.cfg.chain_id
      pub some_ops : 0 < length ops
      pub few_ops : length ops ≤ b.cfg.max_batch_size
      pub buildable : IsBuildable ops opts.submit resp

-- The variables of the loop after these operations.
abbrev pub batch_of : ⦃u : Uint⦄ → List UserOpV07 → List Hash → (min_tip min_cap : ℕ) → Batch
batch_of ops hashes min_tip min_cap = record {
  packed_ops = map packed ops;
  user_op_hashes = hashes;
  min_user_tip = some min_tip;
  min_user_fee_cap = some min_cap;
}

pub gather-batch_of :
    ⦃u : Uint⦄ (answers : (c : Call) → Answer c) (b : Bundler) (ops : List UserOpV07)
    (hashes : List Hash) (mt mc : ℕ)
    → Hashed answers b ops hashes
    → least (tips_of ops) ≡ some mt
    → least (caps_of ops) ≡ some mc
    → gather no_ops ops hashes ≡ batch_of ops hashes mt mc
gather-batch_of answers b ops hashes mt mc h et ec =
    let g =
      gather-IsGathered answers b [] ops [] hashes no_ops h
        (record { packed_ops = refl; hashes = refl; tips = refl; caps = refl }) in
    same_batch (gather no_ops ops hashes) g.packed_ops g.hashes (g.tips ∙ et) (g.caps ∙ ec)
  where
    same_batch :
        (batch : Batch)
        → batch.packed_ops ≡ map packed ops
        → batch.user_op_hashes ≡ hashes
        → batch.min_user_tip ≡ some mt
        → batch.min_user_fee_cap ≡ some mc
        → batch ≡ batch_of ops hashes mt mc
    same_batch batch p h t c = cc

module _ ⦃u : Uint⦄ ⦃f : Format⦄ ⦃abi : Abi⦄ (answers : (c : Call) → Answer c) (b : Bundler)
    (submit : Bool) (ops : List UserOpV07) (base suggested : ℕ) where
  abbrev pub respond : Outer → Batch → TxEnvelope → Program (Result BundlerError SignedTxResp)
  respond outer batch envelope = done (ok (response b outer batch envelope))

  abbrev pub complete : Batch → Outer → Program (Result BundlerError SignedTxResp)
  complete batch outer = bind (finish b submit outer) (continue (respond outer batch))

  -- From the loop's result to the response.
  abbrev pub after_loop : Batch → Program (Result BundlerError SignedTxResp)
  after_loop batch = bind (prepare b base suggested batch) (continue (complete batch))

  module _ (hb : IsU256 base) (base_read : answers (query base_fee) ≡ inl base)
      (suggested_read : answers (query max_priority_fee) ≡ inl suggested)
      (passing : All (IsPassing answers b base) ops) where
    pub after_loop_built :
        (hashes : List Hash) (mt mc : ℕ) (resp : SignedTxResp)
        → IsU256 mt
        → Hashed answers b ops hashes
        → least (tips_of ops) ≡ some mt
        → least (caps_of ops) ≡ some mc
        → outcome answers (after_loop (batch_of ops hashes mt mc)) ≡ ok resp
        → IsBuildable b answers ops submit resp
    after_loop_built hashes mt mc resp ht told et ec h =
        let batch : Batch = batch_of ops hashes mt mc in
        let (outer, e, h1) =
          outcome-eq-ok answers (prepare b base suggested batch) (complete batch) resp h in
        let (envelope, ends, h2) =
          outcome-eq-ok answers (finish b submit outer) (respond outer batch) resp h1 in
        let (estimate, estimated, covers, same) =
          (prepare-ok_iff answers b base suggested mt mc batch outer hb ht refl refl).0 e in
        let chosen : Outer = outer_of b batch suggested estimate mt mc in
        let ((narrow, low, (nonce, nonce_read, signed)), mined) =
          (finish-ok_iff answers b chosen submit envelope).0
            (ap (λ o. outcome answers (finish b submit o)) (sym same) ∙ ends) in
        let whole : response b chosen batch envelope ≡ resp = cc in
        subst (IsBuildable b answers ops submit) whole (record {
          base = base;
          base_read = base_read;
          suggested = suggested;
          suggested_read = suggested_read;
          passing = passing;
          hashed = told;
          estimate = estimate;
          estimated = estimated;
          gas = refl;
          min_tip = mt;
          min_tip_least = et;
          tip = refl;
          cap = ec;
          covers = covers;
          to = refl;
          chain_id = refl;
          nonce = nonce;
          nonce_read = nonce_read;
          signed = signed;
          mined = mined;
        })

module _ ⦃u : Uint⦄ ⦃f : Format⦄ ⦃abi : Abi⦄ (answers : (c : Call) → Answer c) (b : Bundler)
    (submit : Bool) (ops : List UserOpV07) where
  -- `build_batch` from the base fee on, and from the suggested tip on.
  abbrev pub with_suggested : ℕ → ℕ → Program (Result BundlerError SignedTxResp)
  with_suggested base suggested = ask unix_now (λ now.
      bind (check_ops b base now 0 ops no_ops)
        (continue (after_loop answers b submit ops base suggested)))

  abbrev pub with_base : ℕ → Program (Result BundlerError SignedTxResp)
  with_base base = bind (call provider max_priority_fee) (continue (with_suggested base))
