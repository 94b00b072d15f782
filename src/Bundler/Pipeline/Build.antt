-- ===== src/Bundler/Pipeline/Build.antt =====
-- The end of `build_inner` up to the broadcast: nonce, signature, broadcast.
use ethera_bundler.Base.{
  ℕ, ◌<◌, ◌≡◌, ◌⊎◌, refl, sym, ◌∙◌, Bool, true, false, none, some, Result, ok, err, if◌then◌else◌,
  inl, inr,
}
use ethera_bundler.Alloy.{Uint, u128_mod, Hash}
use ethera_bundler.Contracts.{Abi}
use ethera_bundler.Provider.{ReceiptInfo, pending_nonce, send_raw_transaction}
use ethera_bundler.Signer.{TxEip1559, TxEnvelope}
use ethera_bundler.Program.{Program, done, ask, sign_eip1559, continue, answered, call, bind}
use ethera_bundler.Program.Laws.{Safe, Safe-bind, Safe-call}
use ethera_bundler.Errors.{Format, BundlerError, provider, signer}
use ethera_bundler.Bundler.Policy.{u128_from_u256}
use ethera_bundler.Bundler.Pipeline.{Bundler, Outer, sign_outer, sign_and_send}
use ethera_bundler.Bundler.Pipeline.Stage.{Stage, is_late, IsBroadcast, discipline}
use ethera_bundler.Bundler.Pipeline.Checks.{u128-elim}

-- The transaction for the outer fields and a nonce.
abbrev pub outer_tx : Bundler → Outer → ℕ → TxEip1559
outer_tx b outer nonce = record {
  chain_id = b.cfg.chain_id;
  nonce = nonce;
  gas_limit = outer.gas;
  max_fee_per_gas = outer.fee_cap;
  max_priority_fee_per_gas = outer.tip;
  to = b.cfg.entrypoint_address;
  value = 0;
  input = outer.call_data;
}

-- The node has told a receipt of success for this hash.
abbrev pub IsConfirmed : Stage → Hash → Type 0
IsConfirmed t hash = (info : ReceiptInfo) × (t.receipt ≡ some (hash, info)) × (info.success ≡ true)

-- What has happened from the stage `s` to the stage `t` when the transaction is done.
pub record IsFinished (b : Bundler) (submit : Bool) (outer : Outer) (s t : Stage)
    (envelope : TxEnvelope) : Type 0 where
  pub released : t.held ≡ false
  pub base : t.base ≡ s.base
  pub suggested : t.suggested ≡ s.suggested
  pub estimate : t.estimate ≡ s.estimate
  pub nonce : ℕ
  pub read : t.nonce ≡ some nonce
  pub signed : t.signed ≡ some (outer_tx b outer nonce, envelope)
  pub sent : t.sent ≡ (if submit then some envelope.encoded_2718 else none)
  pub narrow : outer.fee_cap < u128_mod
  pub confirmed : submit ≡ true → IsConfirmed t envelope.tx_hash

-- An error comes before the broadcast, or is one of those that may come later.
abbrev pub IsTimely : Stage → BundlerError → Type 0
IsTimely t e = (t.sent ≡ none) ⊎ (is_late e ≡ true)

module _ ⦃u : Uint⦄ ⦃f : Format⦄ ⦃abi : Abi⦄ (b : Bundler) (submit : Bool) (outer : Outer) where
  -- Reading the nonce and signing: under the lock in submit mode.
  pub sign_outer-Safe :
      (Q : Stage → Result BundlerError TxEnvelope → Type 0) (s : Stage)
      → s.held ≡ submit
      → s.nonce ≡ none
      → ((t : Stage) → t.held ≡ s.held → t.sent ≡ s.sent → (e : BundlerError) → Q t (err e))
      → ((nonce : ℕ) (envelope : TxEnvelope)
          → outer.fee_cap < u128_mod
          → Q
              (record s { nonce = some nonce; signed = some (outer_tx b outer nonce, envelope) })
              (ok envelope))
      → Safe (discipline b submit) s (sign_outer b outer) Q
  unfolding sign_outer
  sign_outer-Safe Q s held fresh he ho =
      let P = discipline b submit in
      Safe-call P Q s provider (pending_nonce b.signer_address) _ (held, refl, fresh)
        (λ e. he s refl refl (provider e))
        (λ nonce _.
          let t : Stage = record s { nonce = some nonce } in
          let sign : ℕ → ℕ → Program (Result BundlerError TxEnvelope) = λ cap tip.
            ask
              (sign_eip1559 (record (outer_tx b outer nonce) {
                max_fee_per_gas = cap;
                max_priority_fee_per_gas = tip;
              }))
              (λ r. done (answered signer r)) in
          let check_tip : ℕ → Program (Result BundlerError TxEnvelope) =
            λ cap. continue (sign cap) (u128_from_u256 outer.tip "outer maxPriorityFeePerGas") in
          u128-elim (λ r. Safe P t (continue check_tip r) Q) outer.fee_cap "outer maxFeePerGas"
            (λ e. he t refl refl e)
            (λ narrow.
              u128-elim (λ r. Safe P t (continue (sign outer.fee_cap) r) Q) outer.tip
                "outer maxPriorityFeePerGas" (λ e. he t refl refl e)
                (λ _. (
                  (held, record { nonce = refl; chain_id = refl; to = refl; value = refl }),
                  elim [
                    | inl envelope ↦ λ _. ho nonce envelope narrow
                    | inr e ↦ λ _. he t refl refl (signer e)
                  ],
                ))))

  -- Signing and broadcasting under the lock: one broadcast, of the signed transaction.
  pub sign_and_send-Safe :
      (Q : Stage → Result BundlerError TxEnvelope → Type 0) (s : Stage)
      → submit ≡ true
      → s.held ≡ true
      → s.sent ≡ none
      → s.nonce ≡ none
      → ((t : Stage) (e : BundlerError) → t.held ≡ true → IsTimely t e → Q t (err e))
      → ((nonce : ℕ) (envelope : TxEnvelope)
          → outer.fee_cap < u128_mod
          → Q
              (record s {
                nonce = some nonce;
                signed = some (outer_tx b outer nonce, envelope);
                sent = some envelope.encoded_2718;
              })
              (ok envelope))
      → Safe (discipline b submit) s (sign_and_send b outer) Q
  unfolding sign_and_send
  sign_and_send-Safe Q s mode held unsent fresh he ho =
      let P = discipline b submit in
      let send : TxEnvelope → Program (Result BundlerError TxEnvelope) = λ envelope.
        bind (call provider (send_raw_transaction envelope.encoded_2718))
          (continue (λ _. done (ok envelope))) in
      Safe-bind P Q s (sign_outer b outer) (continue send) (
        sign_outer-Safe (λ t r. Safe P t (continue send r) Q) s (held ∙ sym mode) fresh
          (λ t h u e. he t e (h ∙ held) (inl (u ∙ unsent)))
          (λ nonce envelope narrow.
            let t : Stage = record s {
              nonce = some nonce;
              signed = some (outer_tx b outer nonce, envelope);
            } in
            let broadcast : IsBroadcast b submit t envelope.encoded_2718 = record {
              submits = mode;
              held = held;
              tx = outer_tx b outer nonce;
              envelope = envelope;
              signed = refl;
              bytes = refl;
              first = unsent;
            } in
            let t' : Stage = record t { sent = some envelope.encoded_2718 } in
            (
              broadcast,
              elim [
                | inl _ ↦ λ _. ho nonce envelope narrow
                | inr e ↦ λ _. he t' (provider e) held (inr refl)
              ],
            )))
