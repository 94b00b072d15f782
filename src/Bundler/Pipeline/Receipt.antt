-- ===== src/Bundler/Pipeline/Receipt.antt =====
-- The end of `build_inner` after the broadcast: the receipt, and the end as a whole.
use ethera_bundler.Base.{
  ◌≡◌, ◌≢◌, refl, ◌∙◌, Bool, true, false, Bool-cases, Option, none, some, Result, ok, err, inl, inr,
}
use ethera_bundler.Alloy.{Uint}
use ethera_bundler.Contracts.{Abi}
use ethera_bundler.Provider.{ReceiptInfo, wait_for_receipt, try_call_for_revert}
use ethera_bundler.Signer.{TxEnvelope}
use ethera_bundler.Program.{Program, done, ask, unlock, continue, call, bind}
use ethera_bundler.Program.Laws.{Safe, Safe-bind, Safe-call}
use ethera_bundler.Errors.{Format, BundlerError, provider, receipt_timeout, handle_ops_reverted}
use ethera_bundler.Bundler.Pipeline.{
  Bundler, Outer, sign_and_send, explain_revert, check_receipt, finish, receipt_timeout_ms,
  replayed_reason,
}
use ethera_bundler.Bundler.Pipeline.Stage.{Stage, is_late, discipline}
use ethera_bundler.Bundler.Pipeline.Build.{
  outer_tx, IsFinished, IsTimely, sign_outer-Safe, sign_and_send-Safe,
}

module _ ⦃u : Uint⦄ ⦃f : Format⦄ ⦃abi : Abi⦄ (b : Bundler) (submit : Bool) (outer : Outer) where
  -- The receipt: from here on nothing is broadcast.
  check_receipt-Safe :
      (Q : Stage → Result BundlerError (Unit {0}) → Type 0) (t : Stage) (envelope : TxEnvelope)
      (answer : Option ReceiptInfo)
      → t.held ≡ false
      → t.sent ≢ none
      → ((e : BundlerError) → is_late e ≡ true → Q t (err e))
      → ((receipt : ReceiptInfo) → answer ≡ some receipt → receipt.success ≡ true → Q t (ok tt))
      → Safe (discipline b submit) t (check_receipt b outer envelope answer) Q
  unfolding check_receipt explain_revert
  check_receipt-Safe Q t envelope none free gone he ho = he (receipt_timeout envelope.tx_hash) refl
  check_receipt-Safe Q t envelope (some receipt) free gone he ho =
      elim (Bool-cases receipt.success) [
        | inl e ↦ rw e (ho receipt refl e)
        | inr e ↦ rw e (
            Safe-call (discipline b submit) Q t provider
              (try_call_for_revert b.signer_address b.cfg.entrypoint_address outer.call_data)
              (λ replayed. done (
                err (
                  handle_ops_reverted envelope.tx_hash receipt.block_number
                    (replayed_reason replayed))))
              (free, gone) (λ e. he (provider e) refl) (λ replayed _. he _ refl))
      ]

-- A receipt is asked for after the lock is released.
await-Safe :
    ⦃u : Uint⦄ ⦃f : Format⦄ ⦃abi : Abi⦄ (b : Bundler) (outer : Outer) (s : Stage)
    (Q : Stage → Result BundlerError TxEnvelope → Type 0) (envelope : TxEnvelope)
    → s.held ≡ false
    → s.sent ≢ none
    → ((t : Stage) → t.held ≡ s.held → (e : BundlerError) → is_late e ≡ true → Q t (err e))
    → ((info : ReceiptInfo)
        → info.success ≡ true
        → Q (record s { receipt = some (envelope.tx_hash, info) }) (ok envelope))
    → Safe
        (discipline b true)
        s
        (bind (call provider (wait_for_receipt envelope.tx_hash receipt_timeout_ms)) (
          continue (λ receipt.
            bind (check_receipt b outer envelope receipt) (continue (λ _. done (ok envelope))))))
        Q
await-Safe b outer s Q envelope free gone he ho =
    let P = discipline b true in
    let return : Unit {0} → Program (Result BundlerError TxEnvelope) = λ _. done (ok envelope) in
    Safe-call P Q s provider (wait_for_receipt envelope.tx_hash receipt_timeout_ms)
      (λ receipt. bind (check_receipt b outer envelope receipt) (continue return)) (free, gone)
      (λ e. he s refl (provider e) refl)
      (elim [
        | none ↦ λ _. Safe-bind P Q s (check_receipt b outer envelope none) (continue return) (
            check_receipt-Safe b true outer (λ t r. Safe P t (continue return r) Q) s envelope none
              free gone (he s refl) (λ receipt e. cc))
        | some info ↦ λ _.
            let t : Stage = record s { receipt = some (envelope.tx_hash, info) } in
            Safe-bind P Q t (check_receipt b outer envelope (some info)) (continue return) (
              check_receipt-Safe b true outer (λ t r. Safe P t (continue return r) Q) t envelope
                (some info) free gone (he t refl)
                (λ receipt e good. let same : info ≡ receipt = cc in ho info (rw same good)))
      ])

module _ ⦃u : Uint⦄ ⦃f : Format⦄ ⦃abi : Abi⦄ (b : Bundler) (outer : Outer) (s : Stage)
    (free : s.held ≡ false) (unsent : s.sent ≡ none) (fresh : s.nonce ≡ none) where
  -- Signature, and in submit mode broadcast and receipt: the lock is free at the end, only submit
  -- mode broadcasts, and what is sent is what was signed.
  pub finish-Safe :
      (submit : Bool) (Q : Stage → Result BundlerError TxEnvelope → Type 0)
      → ((t : Stage)
          → t.held ≡ false
          → (submit ≡ false → t.sent ≡ none)
          → (e : BundlerError) → IsTimely t e
          → Q t (err e))
      → ((t : Stage) (envelope : TxEnvelope)
          → IsFinished b submit outer s t envelope
          → Q t (ok envelope))
      → Safe (discipline b submit) s (finish b submit outer) Q
  unfolding finish
  finish-Safe false Q he ho =
      sign_outer-Safe b false outer Q s free fresh
        (λ t h e w. he t (h ∙ free) (λ _. e ∙ unsent) w (inl (e ∙ unsent)))
        (λ nonce envelope narrow. ho _ envelope (record {
          released = free;
          base = refl;
          suggested = refl;
          estimate = refl;
          nonce = nonce;
          read = refl;
          signed = refl;
          sent = unsent;
          narrow = narrow;
          confirmed = λ e. cc;
        }))
  finish-Safe true Q he ho =
      let P = discipline b true in
      let wait : TxEnvelope → Program (Result BundlerError TxEnvelope) = λ envelope.
        bind (call provider (wait_for_receipt envelope.tx_hash receipt_timeout_ms)) (
          continue (λ receipt.
            bind (check_receipt b outer envelope receipt) (continue (λ _. done (ok envelope))))) in
      let release : Result BundlerError TxEnvelope → Program (Result BundlerError TxEnvelope) =
        λ r. ask unlock (λ _. done r) in
      let Q' : Stage → Result BundlerError TxEnvelope → Type 0 =
        λ t r. Safe P t (continue wait r) Q in
      let Q'' : Stage → Result BundlerError TxEnvelope → Type 0 = λ t r. Safe P t (release r) Q' in
      let s' : Stage = record s { held = true } in
      (
        (refl, free, unsent, fresh),
        λ _ _. Safe-bind P Q s' (bind (sign_and_send b outer) release) (continue wait) (
            Safe-bind P Q' s' (sign_and_send b outer) release (
              sign_and_send-Safe b true outer Q'' s' refl refl unsent fresh
                (λ t e h l. (h, λ _ _. he (record t { held = false }) refl (λ c. cc) e l))
                (λ nonce envelope narrow.
                  let t : Stage = record s {
                    held = false;
                    nonce = some nonce;
                    signed = some (outer_tx b outer nonce, envelope);
                    sent = some envelope.encoded_2718;
                  } in
                  (
                    refl,
                    λ _ _.
                        await-Safe b outer t Q envelope refl (λ c. cc)
                          (λ t' h e l. he t' h (λ c. cc) e (inr l))
                          (λ info good.
                            ho (record t { receipt = some (envelope.tx_hash, info) }) envelope
                              (record {
                                released = refl;
                                base = refl;
                                suggested = refl;
                                estimate = refl;
                                nonce = nonce;
                                read = refl;
                                signed = refl;
                                sent = refl;
                                narrow = narrow;
                                confirmed = λ _. (info, refl, good);
                              })),
                  )))),
      )
