-- ===== src/Bundler/Pipeline/Accepts/Settled.antt =====
-- How a request in submit mode ends, once its transaction is signed: the broadcast, the receipt, and
-- the replay of a reverted call.
use mathlib.Core.Path.{subst}
use ethera_bundler.Base.{
  length, arith, ℕ, ◌<◌, ◌≡◌, refl, sym, ap, ◌∙◌, Bool-cases, true, false, List, [], ◌∷◌, map, All,
  Option, Option-cases, none, some, Result, ok, err, ◌⊎◌, inl, inr, sum-cases,
}
use ethera_bundler.Base.Bytes.{Bytes}
use ethera_bundler.Alloy.{Uint, Hash}
use ethera_bundler.Contracts.{Abi}
use ethera_bundler.Types.{UserOpV07, SignedTxResp, IsUserOp, IsU256}
use ethera_bundler.Packing.Fields.{packed}
use ethera_bundler.Provider.{
  ProviderError, ReceiptInfo, base_fee, send_raw_transaction, wait_for_receipt, try_call_for_revert,
}
use ethera_bundler.Signer.{TxEnvelope}
use ethera_bundler.Program.{
  Call, Answer, query, Program, done, ask, continue, call, answered, bind, unlock, run,
}
use ethera_bundler.Program.Steady.{
  steady, outcome, outcome-bind, outcome-continue_ok, outcome-continue_err, outcome-then_ok,
  outcome-then_err, run-steady,
}
use ethera_bundler.Errors.{
  Format, BundlerError, HandleOpsRevertReason, unknown, provider, receipt_timeout,
  handle_ops_reverted,
}
use ethera_bundler.Errors.Decode.{decode_handle_ops_revert}
use ethera_bundler.Bundler.Pipeline.{
  Bundler, Outer, sign_outer, sign_and_send, explain_revert, check_receipt, finish, build_batch,
  build_inner, receipt_timeout_ms, replayed_reason,
}
use ethera_bundler.Bundler.Pipeline.Accepts.Outer.{sign_outer-ok_iff}
use ethera_bundler.Bundler.Pipeline.Accepts.Response.{
  envelope_of, outer_for, batch_of, respond, IsBuildable,
}
use ethera_bundler.Bundler.Pipeline.Accepts.Batch.{built-complete, built-Signed}
use ethera_bundler.Bundler.Pipeline.Accepts.Requests.{build_inner-ok_iff}
use ethera_bundler.Bundler.Pipeline.Accepts.Reported.{tests_passed}
use ethera_bundler.Bundler.Pipeline.Accepts.Modes.{submitting, sign_only}

module _ ⦃abi : Abi⦄ (answers : (c : Call) → Answer c) (b : Bundler) (input : Bytes)
    (envelope : TxEnvelope) where
  abbrev sending : Hash ⊎ ProviderError
  sending = answers (query (send_raw_transaction envelope.encoded_2718))

  abbrev waiting : Option ReceiptInfo ⊎ ProviderError
  waiting = answers (query (wait_for_receipt envelope.tx_hash receipt_timeout_ms))

  -- The same call again, without a transaction.
  abbrev replaying : Option Bytes ⊎ ProviderError
  replaying = answers (query (try_call_for_revert b.signer_address b.cfg.entrypoint_address input))

  -- What comes of a signed transaction, by the answers of the node. `value` is what is returned if
  -- it is mined.
  pub data Settles {A : Type 0} (value : A) (r : Result BundlerError A) : Type 0 where
    not_taken : (e : ProviderError) → sending ≡ inr e → r ≡ err (provider e) → Settles value r
    not_told :
        (sent : Hash) (e : ProviderError)
        → sending ≡ inl sent
        → waiting ≡ inr e
        → r ≡ err (provider e)
        → Settles value r
    too_late :
        (sent : Hash)
        → sending ≡ inl sent
        → waiting ≡ inl none
        → r ≡ err (receipt_timeout envelope.tx_hash)
        → Settles value r
    mined :
        (sent : Hash) (info : ReceiptInfo)
        → sending ≡ inl sent
        → waiting ≡ inl (some info)
        → info.success ≡ true
        → r ≡ ok value
        → Settles value r
    not_replayed :
        (sent : Hash) (info : ReceiptInfo) (e : ProviderError)
        → sending ≡ inl sent
        → waiting ≡ inl (some info)
        → info.success ≡ false
        → replaying ≡ inr e
        → r ≡ err (provider e)
        → Settles value r
    -- The replayed call does not revert.
    unexplained :
        (sent : Hash) (info : ReceiptInfo)
        → sending ≡ inl sent
        → waiting ≡ inl (some info)
        → info.success ≡ false
        → replaying ≡ inl none
        → r ≡ err (handle_ops_reverted envelope.tx_hash info.block_number (unknown []))
        → Settles value r
    explained :
        (sent : Hash) (info : ReceiptInfo) (bytes : Bytes)
        → sending ≡ inl sent
        → waiting ≡ inl (some info)
        → info.success ≡ false
        → replaying ≡ inl (some bytes)
        → r
          ≡ err (
              handle_ops_reverted envelope.tx_hash info.block_number
                (decode_handle_ops_revert bytes))
        → Settles value r

module _ ⦃u : Uint⦄ ⦃f : Format⦄ ⦃abi : Abi⦄ (answers : (c : Call) → Answer c) (b : Bundler)
    (outer : Outer) (envelope : TxEnvelope)
    (signs : outcome answers (sign_outer b outer) ≡ ok envelope) where
  abbrev broadcast : TxEnvelope → Hash → Program (Result BundlerError TxEnvelope)
  broadcast signed _ = done (ok signed)

  abbrev release : Result BundlerError TxEnvelope → Program (Result BundlerError TxEnvelope)
  release r = ask unlock (λ _. done r)

  abbrev conclude : TxEnvelope → Unit {0} → Program (Result BundlerError TxEnvelope)
  conclude signed _ = done (ok signed)

  abbrev settle : TxEnvelope → Option ReceiptInfo → Program (Result BundlerError TxEnvelope)
  settle signed receipt = bind (check_receipt b outer signed receipt) (continue (conclude signed))

  abbrev wait : TxEnvelope → Program (Result BundlerError TxEnvelope)
  wait signed =
      bind (call provider (wait_for_receipt signed.tx_hash receipt_timeout_ms))
        (continue (settle signed))

  -- Under the lock the transaction is broadcast.
  sent_to :
      (z : Result BundlerError TxEnvelope)
      → outcome answers (
          continue
            (broadcast envelope)
            (answered provider (sending answers b outer.call_data envelope)))
        ≡ z
      → outcome answers (bind (sign_and_send b outer) release) ≡ z
  unfolding sign_and_send
  sent_to z h =
      outcome-bind answers (sign_and_send b outer) release
      ∙ outcome-then_ok answers (sign_outer b outer) _ envelope z signs h

  not_sent :
      (e : ProviderError)
      → sending answers b outer.call_data envelope ≡ inr e
      → outcome answers (finish b true outer) ≡ err (provider e)
  unfolding finish
  not_sent e told =
      outcome-then_err answers (bind (sign_and_send b outer) release) wait (provider e)
        (sent_to (err (provider e)) (rw told refl))

  waits :
      (sent : Hash) (z : Result BundlerError TxEnvelope)
      → sending answers b outer.call_data envelope ≡ inl sent
      → outcome answers (wait envelope) ≡ z
      → outcome answers (finish b true outer) ≡ z
  unfolding finish
  waits sent z told h =
      outcome-then_ok answers (bind (sign_and_send b outer) release) wait envelope z
        (sent_to (ok envelope) (rw told refl)) h

  checks :
      (receipt : Option ReceiptInfo) (z : Result BundlerError TxEnvelope)
      → waiting answers b outer.call_data envelope ≡ inl receipt
      → outcome answers (settle envelope receipt) ≡ z
      → outcome answers (wait envelope) ≡ z
  checks receipt z told h =
      outcome-continue_ok answers (settle envelope)
        (answered provider (waiting answers b outer.call_data envelope)) receipt z
        (ap (answered provider) told) h

  failed :
      (info : ReceiptInfo) (e : BundlerError)
      → info.success ≡ false
      → outcome answers (explain_revert b outer envelope info) ≡ err e
      → outcome answers (settle envelope (some info)) ≡ err e
  unfolding check_receipt
  failed info e bad h =
      outcome-then_err answers (check_receipt b outer envelope (some info)) (conclude envelope) e
        (rw (bad, check_receipt) h)

  abbrev report : ReceiptInfo → Option Bytes → Program (Result BundlerError (Unit {0}))
  report info replayed =
      done (err (handle_ops_reverted envelope.tx_hash info.block_number (replayed_reason replayed)))

  not_explained :
      (info : ReceiptInfo) (e : ProviderError)
      → replaying answers b outer.call_data envelope ≡ inr e
      → outcome answers (explain_revert b outer envelope info) ≡ err (provider e)
  unfolding explain_revert
  not_explained info e told =
      outcome-continue_err answers (report info)
        (answered provider (replaying answers b outer.call_data envelope)) (provider e)
        (ap (answered provider) told)

  explains :
      (info : ReceiptInfo) (replayed : Option Bytes) (reason : HandleOpsRevertReason)
      → replaying answers b outer.call_data envelope ≡ inl replayed
      → replayed_reason replayed ≡ reason
      → outcome answers (explain_revert b outer envelope info)
        ≡ err (handle_ops_reverted envelope.tx_hash info.block_number reason)
  unfolding explain_revert
  explains info replayed reason told same =
      outcome-continue_ok answers (report info)
        (answered provider (replaying answers b outer.call_data envelope)) replayed
        (err (handle_ops_reverted envelope.tx_hash info.block_number reason))
        (ap (answered provider) told)
        (ap (λ x. err (handle_ops_reverted envelope.tx_hash info.block_number x)) same)

  abbrev Ending : Type 0
  Ending =
      Settles answers b outer.call_data envelope envelope (outcome answers (finish b true outer))

  module _ (sent : Hash) (told : sending answers b outer.call_data envelope ≡ inl sent) where
    -- A receipt of failure.
    reverts :
        (info : ReceiptInfo)
        → waiting answers b outer.call_data envelope ≡ inl (some info)
        → info.success ≡ false
        → Ending
    unfolding replayed_reason
    reverts info got bad =
        let ends =
          λ (e : BundlerError) (h : outcome answers (explain_revert b outer envelope info) ≡ err e).
            waits sent (err e) told (checks (some info) (err e) got (failed info e bad h)) in
        elim (sum-cases (replaying answers b outer.call_data envelope)) [
          | inr (e, lost) ↦
              not_replayed sent info e told got bad lost
                (ends (provider e) (not_explained info e lost))
          | inl (replayed, again) ↦ elim (Option-cases replayed) [
            | inl quiet ↦
                let same = again ∙ ap (λ x. inl x) quiet in
                unexplained sent info told got bad same (ends _ (explains info none _ same refl))
            | inr (bytes, loud) ↦
                let same = again ∙ ap (λ x. inl x) loud in
                explained sent info bytes told got bad same
                  (ends _ (explains info (some bytes) _ same refl))
          ]
        ]

    mines :
        (info : ReceiptInfo)
        → waiting answers b outer.call_data envelope ≡ inl (some info)
        → info.success ≡ true
        → Ending
    unfolding check_receipt
    mines info got good = mined sent info told got good (
        waits sent (ok envelope) told (
          checks (some info) (ok envelope) got (
            outcome-then_ok answers (check_receipt b outer envelope (some info)) (conclude envelope)
              tt (ok envelope) (rw (good, check_receipt) refl) refl)))

    receives :
        (receipt : Option ReceiptInfo)
        → waiting answers b outer.call_data envelope ≡ inl receipt
        → Ending
    unfolding check_receipt
    receives none got = too_late sent told got (
        waits sent (err (receipt_timeout envelope.tx_hash)) told
          (checks none (err (receipt_timeout envelope.tx_hash)) got refl))
    receives (some info) got = elim (Bool-cases info.success) [
      | inl good ↦ mines info got good
      | inr bad ↦ reverts info got bad
    ]

    waited : Ending
    waited = elim (sum-cases (waiting answers b outer.call_data envelope)) [
      | inl (receipt, got) ↦ receives receipt got
      | inr (e, lost) ↦ not_told sent e told lost (
          waits sent (err (provider e)) told (
            outcome-continue_err answers (settle envelope)
              (answered provider (waiting answers b outer.call_data envelope)) (provider e)
              (ap (answered provider) lost)))
    ]

  -- The end of a request in submit mode whose transaction is signed.
  finish-Settles : Ending
  finish-Settles = elim (sum-cases (sending answers b outer.call_data envelope)) [
    | inl (sent, told) ↦ waited sent told
    | inr (e, told) ↦ not_taken e told (not_sent e told)
  ]

module _ ⦃abi : Abi⦄ (answers : (c : Call) → Answer c) (b : Bundler) (input : Bytes)
    (envelope : TxEnvelope) {A B : Type 0} (value : A) (value' : B)
    (p : Program (Result BundlerError A)) (k : A → Program (Result BundlerError B))
    (returns : outcome answers (k value) ≡ ok value') where
  -- A program that goes on after a settled one.
  then-Settles :
      Settles answers b input envelope value (outcome answers p)
      → Settles answers b input envelope value' (outcome answers (bind p (continue k)))
  then-Settles (not_taken e t h) = not_taken e t (outcome-then_err answers p k _ h)
  then-Settles (not_told s e t g h) = not_told s e t g (outcome-then_err answers p k _ h)
  then-Settles (too_late s t g h) = too_late s t g (outcome-then_err answers p k _ h)
  then-Settles (mined s i t g w h) =
      mined s i t g w (outcome-then_ok answers p k value (ok value') h returns)
  then-Settles (not_replayed s i e t g w l h) =
      not_replayed s i e t g w l (outcome-then_err answers p k _ h)
  then-Settles (unexplained s i t g w l h) =
      unexplained s i t g w l (outcome-then_err answers p k _ h)
  then-Settles (explained s i x t g w l h) =
      explained s i x t g w l (outcome-then_err answers p k _ h)

module _ ⦃u : Uint⦄ ⦃f : Format⦄ ⦃abi : Abi⦄ (answers : (c : Call) → Answer c) (b : Bundler)
    (chain_id : ℕ) (resp : SignedTxResp) (hm : IsU256 b.cfg.min_priority_fee_wei)
    (typed : (n : ℕ) → answers (query base_fee) ≡ inl n → IsU256 n) where
  batch-Settles :
      (ops : List UserOpV07)
      → All IsUserOp ops
      → 0 < length ops
      → IsBuildable b answers ops false resp
      → Settles answers b
          (abi.encode_handle_ops (map packed ops) b.signer_address)
          (envelope_of resp)
          resp
          (outcome answers (build_batch b ops true))
  batch-Settles [] w h g = absurd (omega arith)
  batch-Settles (op ∷ ops) w h g =
      let input = abi.encode_handle_ops (map packed (op ∷ ops)) b.signer_address in
      let outer : Outer = outer_for b (op ∷ ops) resp in
      let batch = batch_of (op ∷ ops) resp.user_op_hashes g.min_tip resp.max_fee_per_gas in
      let signs =
        (sign_outer-ok_iff answers b outer (envelope_of resp)).1
          (built-Signed answers b false op ops resp hm w typed g) in
      subst (Settles answers b input (envelope_of resp) resp)
        (sym (built-complete answers b true op ops resp hm w typed g _ refl))
        (then-Settles answers b input (envelope_of resp) (envelope_of resp) resp
          (finish b true outer) (respond answers b true (op ∷ ops) g.base g.suggested outer batch)
          (rw (sym g.to, sym g.chain_id) refl)
          (finish-Settles answers b outer (envelope_of resp) signs))

  -- Given operations, a minimum fee and an answered base fee in the ranges of their types, and a
  -- world that answers every call the same way whenever it is made, let a request in sign-only mode
  -- end in a response. Then the same request in submit mode ends as the node's answers about the
  -- transaction of that response tell: in the node's error if it does not take the transaction or
  -- does not tell about its receipt; in a timeout if it has no receipt; in the same response if the
  -- receipt is of success. If it is of failure, the call of handleOps on the packed operations is
  -- replayed from the same account, and the request ends in the node's error if that is not
  -- answered, and else in a revert of that transaction in the block of the receipt, decoded from
  -- the bytes of the replayed revert, or unknown and without bytes if the replay does not revert.
  pub build_inner-Settles :
      (ops : List UserOpV07)
      → All IsUserOp ops
      → (run (steady answers) (build_inner b ops (sign_only chain_id)) []).0 ≡ ok resp
      → Settles answers b
          (abi.encode_handle_ops (map packed ops) b.signer_address)
          (envelope_of resp)
          resp
          (run (steady answers) (build_inner b ops (submitting chain_id)) []).0
  build_inner-Settles ops w h =
      let g = (build_inner-ok_iff answers b (sign_only chain_id) ops resp hm w typed).0 h in
      let input = abi.encode_handle_ops (map packed ops) b.signer_address in
      subst (Settles answers b input (envelope_of resp) resp)
        (sym (
          run-steady answers (build_inner b ops (submitting chain_id)) []
          ∙ tests_passed answers b (submitting chain_id) ops hm w g.for_chain g.some_ops g.few_ops))
        (batch-Settles ops w g.some_ops g.buildable)
