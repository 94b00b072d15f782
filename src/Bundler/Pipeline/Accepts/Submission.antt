-- ===== src/Bundler/Pipeline/Accepts/Submission.antt =====
-- The end of `build_inner` against a steady world: in submit mode the broadcast and the receipt.
use ethera_bundler.Base.{
  ◌≡◌, ◌≢◌, ◌⊎◌, refl, sym, ap, ◌∙◌, ◌↔◌, Bool, true, false, not, Option, none, some, Result, ok,
  err, inl, if◌then◌else◌,
}
use ethera_bundler.Base.Bytes.{Bytes}
use ethera_bundler.Alloy.{Uint, Hash}
use ethera_bundler.Contracts.{Abi}
use ethera_bundler.Provider.{ProviderError, ReceiptInfo, send_raw_transaction, wait_for_receipt}
use ethera_bundler.Signer.{TxEnvelope}
use ethera_bundler.Program.{
  Call, Answer, query, Program, done, ask, continue, call, answered, bind, unlock,
}
use ethera_bundler.Program.Steady.{
  outcome, outcome-bind, outcome-continue, outcome-eq-ok, continue-eq-ok, bind-eq-ok,
  answered-eq-ok,
}
use ethera_bundler.Errors.{Format, BundlerError, provider, handle_ops_reverted}
use ethera_bundler.Bundler.Pipeline.{
  Bundler, Outer, sign_outer, sign_and_send, explain_revert, check_receipt, finish,
  receipt_timeout_ms, replayed_reason,
}
use ethera_bundler.Bundler.Pipeline.Accepts.Outer.{Signed, Mined, sign_outer-ok_iff}

module _ ⦃u : Uint⦄ ⦃f : Format⦄ ⦃abi : Abi⦄ (answers : (c : Call) → Answer c) (b : Bundler)
    (outer : Outer) where
  sign_and_send-ok_iff :
      (envelope : TxEnvelope)
      → (outcome answers (sign_and_send b outer) ≡ ok envelope) ↔ (
          Signed answers b outer envelope
          × ((sent : Hash) × (answers (query (send_raw_transaction envelope.encoded_2718))
                ≡ inl sent)))
  unfolding sign_and_send
  sign_and_send-ok_iff envelope =
      let return : TxEnvelope → Hash → Program (Result BundlerError TxEnvelope) =
        λ envelope _. done (ok envelope) in
      let send : TxEnvelope → Program (Result BundlerError TxEnvelope) = λ envelope.
        bind (call provider (send_raw_transaction envelope.encoded_2718))
          (continue (return envelope)) in
      (
        λ h.
            let (signed, e, h1) = outcome-eq-ok answers (sign_outer b outer) send envelope h in
            let (sent, told, h2) =
              outcome-continue answers (return signed)
                (answered provider (answers (query (send_raw_transaction signed.encoded_2718))))
                envelope h1 in
            let same : signed ≡ envelope = cc in
            (
              (sign_outer-ok_iff answers b outer envelope).0 (e ∙ ap ok same),
              (
                sent,
                ap (λ v. answers (query (send_raw_transaction v.encoded_2718))) (sym same)
                    ∙ answered-eq-ok provider _ sent told,
              ),
            ),
        λ (signs, (sent, told)).
            bind-eq-ok answers (sign_outer b outer) send envelope envelope
              ((sign_outer-ok_iff answers b outer envelope).1 signs)
              (continue-eq-ok answers (return envelope)
                (answered provider (answers (query (send_raw_transaction envelope.encoded_2718))))
                envelope sent (ap (answered provider) told) refl),
      )

  explain_revert-ne-ok :
      (envelope : TxEnvelope) (receipt : ReceiptInfo)
      → outcome answers (explain_revert b outer envelope receipt) ≢ ok tt
  unfolding explain_revert
  explain_revert-ne-ok envelope receipt h =
      let fail : Option Bytes → Program (Result BundlerError (Unit {0})) = λ replayed. done (
        err
          (handle_ops_reverted envelope.tx_hash receipt.block_number (replayed_reason replayed))) in
      let (replayed, _, h1) = outcome-continue answers fail _ tt h in cc

  settled :
      (success : Bool) (p : Program (Result BundlerError (Unit {0})))
      → outcome answers p ≢ ok tt
      → (outcome answers (if not success then p else done (ok tt)) ≡ ok tt) ↔ (success ≡ true)
  settled true p h = (λ _. refl, λ _. refl)
  settled false p h = (λ e. absurd (h e), λ e. cc)

  check_receipt-ok_iff :
      (envelope : TxEnvelope) (answer : Option ReceiptInfo)
      → (outcome answers (check_receipt b outer envelope answer) ≡ ok tt)
        ↔ ((info : ReceiptInfo) × (answer ≡ some info) × (info.success ≡ true))
  unfolding check_receipt
  check_receipt-ok_iff envelope none = (λ h. cc, λ (info, e, _). cc)
  check_receipt-ok_iff envelope (some receipt) =
      let by_success =
        settled receipt.success (explain_revert b outer envelope receipt)
          (explain_revert-ne-ok envelope receipt) in
      (
        λ h. (receipt, refl, by_success.0 h),
        λ (info, e, good). by_success.1 (let same : receipt ≡ info = cc in rw same good),
      )

  -- The end of a request yields a transaction exactly if it is signed, with fees that fit 128 bits,
  -- and in submit mode is taken by the node and has a receipt of success.
  pub finish-ok_iff :
      (submit : Bool) (envelope : TxEnvelope)
      → (outcome answers (finish b submit outer) ≡ ok envelope)
        ↔ (Signed answers b outer envelope × (submit ≡ true → Mined answers envelope))
  unfolding finish
  finish-ok_iff false envelope = (
    λ h. ((sign_outer-ok_iff answers b outer envelope).0 h, λ e. cc),
    λ (signs, _). (sign_outer-ok_iff answers b outer envelope).1 signs,
  )
  finish-ok_iff true envelope =
      let release : Result BundlerError TxEnvelope → Program (Result BundlerError TxEnvelope) =
        λ r. ask unlock (λ _. done r) in
      let return : TxEnvelope → Unit {0} → Program (Result BundlerError TxEnvelope) =
        λ envelope _. done (ok envelope) in
      let settle : TxEnvelope → Option ReceiptInfo → Program (Result BundlerError TxEnvelope) =
        λ envelope receipt.
          bind (check_receipt b outer envelope receipt) (continue (return envelope)) in
      let wait : TxEnvelope → Program (Result BundlerError TxEnvelope) = λ envelope.
        bind (call provider (wait_for_receipt envelope.tx_hash receipt_timeout_ms))
          (continue (settle envelope)) in
      let unlocked = outcome-bind answers (sign_and_send b outer) release in
      let receipt_of : TxEnvelope → Option ReceiptInfo ⊎ ProviderError =
        λ envelope. answers (query (wait_for_receipt envelope.tx_hash receipt_timeout_ms)) in
      (
        λ h.
            let (signed, e, h1) =
              outcome-eq-ok answers (bind (sign_and_send b outer) release) wait envelope h in
            let (answer, told, h2) =
              outcome-continue answers (settle signed) (answered provider (receipt_of signed))
                envelope h1 in
            let (_, checks, h3) =
              outcome-eq-ok answers (check_receipt b outer signed answer) (return signed) envelope
                h2 in
            let same : signed ≡ envelope = cc in
            let (signs, sent) = (sign_and_send-ok_iff envelope).0 (sym unlocked ∙ e ∙ ap ok same) in
            let (info, got, good) = (check_receipt-ok_iff signed answer).0 checks in
            (
              signs,
              λ _. (
                sent,
                (
                  info,
                  ap receipt_of (sym same)
                      ∙ answered-eq-ok provider (receipt_of signed) answer told
                      ∙ ap (λ a. inl a) got,
                  good,
                ),
              ),
            ),
        λ (signs, mines).
            let (sent, (info, got, good)) = mines refl in
            bind-eq-ok answers (bind (sign_and_send b outer) release) wait envelope envelope
              (unlocked ∙ (sign_and_send-ok_iff envelope).1 (signs, sent))
              (continue-eq-ok answers (settle envelope) (answered provider (receipt_of envelope))
                envelope (some info) (ap (answered provider) got)
                (bind-eq-ok answers (check_receipt b outer envelope (some info)) (return envelope)
                  envelope tt ((check_receipt-ok_iff envelope (some info)).1 (info, refl, good))
                  refl)),
      )
