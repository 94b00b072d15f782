-- ===== src/Bundler/Pipeline/Told.antt =====
-- What the stage of a request holds was told by the world: receipts and signatures.
use mathlib.Core.Path.{subst}
use ethera_bundler.Base.{ℕ, ◌≡◌, sym, ap, ◌∙◌, Bool, [], ◌∷◌, none, some, ◌⊎◌, inl, inr}
use ethera_bundler.Alloy.{Hash}
use ethera_bundler.Provider.{
  ReceiptInfo, chain_id, balance, get_code, base_fee, max_priority_fee, pending_nonce, balance_of,
  user_op_hash, estimate_handle_ops_gas, send_raw_transaction, wait_for_receipt,
  try_call_for_revert, simulate_validation,
}
use ethera_bundler.Signer.{TxEip1559, TxEnvelope}
use ethera_bundler.Program.{
  Call, Answer, query, unix_now, sign_eip1559, lock, unlock, warn, Log, World,
}
use ethera_bundler.Program.Laws.{replay, Answered}
use ethera_bundler.Bundler.Pipeline.{Bundler}
use ethera_bundler.Bundler.Pipeline.Stage.{Stage, start, after, discipline}

module _ (world : World) where
  -- At some moment the world has answered with this receipt for the hash.
  abbrev pub Receives : Hash → ReceiptInfo → Type 0
  Receives hash info =
      (log : Log) × (timeout : ℕ) × (world log (query (wait_for_receipt hash timeout))
        ≡ inl (some info))

  -- At some moment the world has signed the transaction.
  abbrev pub Signs : TxEip1559 → TxEnvelope → Type 0
  Signs tx envelope = (log : Log) × (world log (sign_eip1559 tx) ≡ inl envelope)

  -- What the stage `t` holds more than `s` was told.
  abbrev Told : Stage → Stage → Type 0
  Told s t =
      ((hash : Hash) (info : ReceiptInfo)
        → t.receipt ≡ some (hash, info)
        → (s.receipt ≡ some (hash, info)) ⊎ Receives hash info)
      × ((tx : TxEip1559) (envelope : TxEnvelope)
          → t.signed ≡ some (tx, envelope)
          → (s.signed ≡ some (tx, envelope)) ⊎ Signs tx envelope)

  kept : (s : Stage) → Told s s
  kept s = (λ hash info e. inl e, λ tx envelope e. inl e)

  after-Told :
      (s : Stage) (log : Log) (c : Call) (r : Answer c) → r ≡ world log c → Told s (after s c r)
  after-Told s log (query (wait_for_receipt h t)) (inl (some i)) e = (
    λ hash info h'.
        let same : h ≡ hash = cc in
        let told : i ≡ info = cc in
        inr (
          log,
          t,
          subst (λ x. world log (query (wait_for_receipt x t)) ≡ inl (some info)) same
              (sym e ∙ ap (λ x. inl (some x)) told),
        ),
    λ tx envelope h'. inl h',
  )
  after-Told s log (sign_eip1559 tx) (inl envelope) e = (
    λ hash info h'. inl h',
    λ tx' envelope' h'.
        let same : tx ≡ tx' = cc in
        let told : envelope ≡ envelope' = cc in
        inr (
          log,
          subst (λ x. world log (sign_eip1559 x) ≡ inl envelope') same
              (sym e ∙ ap (λ x. inl x) told),
        ),
  )
  after-Told s log (query (wait_for_receipt h t)) (inl none) e = kept s
  after-Told s log (query (wait_for_receipt h t)) (inr x) e = kept s
  after-Told s log (query base_fee) (inl n) e = kept s
  after-Told s log (query base_fee) (inr x) e = kept s
  after-Told s log (query max_priority_fee) (inl n) e = kept s
  after-Told s log (query max_priority_fee) (inr x) e = kept s
  after-Told s log (query (estimate_handle_ops_gas _ _ _)) (inl n) e = kept s
  after-Told s log (query (estimate_handle_ops_gas _ _ _)) (inr x) e = kept s
  after-Told s log (query (pending_nonce _)) (inl n) e = kept s
  after-Told s log (query (pending_nonce _)) (inr x) e = kept s
  after-Told s log (query (send_raw_transaction _)) r e = kept s
  after-Told s log (query chain_id) r e = kept s
  after-Told s log (query (balance _)) r e = kept s
  after-Told s log (query (get_code _)) r e = kept s
  after-Told s log (query (balance_of _ _)) r e = kept s
  after-Told s log (query (user_op_hash _ _)) r e = kept s
  after-Told s log (query (try_call_for_revert _ _ _)) r e = kept s
  after-Told s log (query (simulate_validation _ _ _)) r e = kept s
  after-Told s log (sign_eip1559 tx) (inr x) e = kept s
  after-Told s log unix_now r e = kept s
  after-Told s log lock r e = kept s
  after-Told s log unlock r e = kept s
  after-Told s log (warn m) r e = kept s

  module _ (b : Bundler) (submit : Bool) where
    pub replay-Receives :
        (hash : Hash) (info : ReceiptInfo) (log : Log)
        → Answered world log
        → (replay (discipline b submit) start log).receipt ≡ some (hash, info)
        → Receives hash info
    replay-Receives hash info [] a h = cc
    replay-Receives hash info ((c, r) ∷ log) (e, a) h =
        elim ((after-Told (replay (discipline b submit) start log) log c r e).0 hash info h) [
          | inl before ↦ replay-Receives hash info log a before
          | inr told ↦ told
        ]

    pub replay-Signs :
        (tx : TxEip1559) (envelope : TxEnvelope) (log : Log)
        → Answered world log
        → (replay (discipline b submit) start log).signed ≡ some (tx, envelope)
        → Signs tx envelope
    replay-Signs tx envelope [] a h = cc
    replay-Signs tx envelope ((c, r) ∷ log) (e, a) h =
        elim ((after-Told (replay (discipline b submit) start log) log c r e).1 tx envelope h) [
          | inl before ↦ replay-Signs tx envelope log a before
          | inr told ↦ told
        ]
