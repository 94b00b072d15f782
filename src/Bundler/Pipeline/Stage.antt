-- ===== src/Bundler/Pipeline/Stage.antt =====
-- What the calls of one request have brought so far, and which call may come next.
use ethera_bundler.Base.{ℕ, ◌<◌, ◌≡◌, ◌≢◌, Bool, true, false, Option, none, some, inl}
use ethera_bundler.Base.Bytes.{Bytes}
use ethera_bundler.Alloy.{u64_mod, Hash}
use ethera_bundler.Types.{IsU256}
use ethera_bundler.Provider.{
  ReceiptInfo, base_fee, max_priority_fee, pending_nonce, estimate_handle_ops_gas,
  send_raw_transaction, wait_for_receipt, try_call_for_revert,
}
use ethera_bundler.Signer.{TxEip1559, TxEnvelope}
use ethera_bundler.Program.{Call, Answer, query, unix_now, sign_eip1559, lock, unlock, warn}
use ethera_bundler.Program.Laws.{Protocol}
use ethera_bundler.Errors.{BundlerError, provider, receipt_timeout, handle_ops_reverted}
use ethera_bundler.Bundler.Pipeline.{Bundler}

pub record Stage : Type 0 where
  pub base : Option ℕ
  pub suggested : Option ℕ
  pub estimate : Option ℕ
  pub held : Bool
  pub nonce : Option ℕ
  pub signed : Option (TxEip1559 × TxEnvelope)
  pub sent : Option Bytes
  pub receipt : Option (Hash × ReceiptInfo)

abbrev pub start : Stage
start = record {
  base = none;
  suggested = none;
  estimate = none;
  held = false;
  nonce = none;
  signed = none;
  sent = none;
  receipt = none;
}

-- An attempt to broadcast counts as sent, also if the node answers with an error.
abbrev pub after : Stage → (c : Call) → Answer c → Stage
after s (query base_fee) (inl n) = record s { base = some n }
after s (query max_priority_fee) (inl n) = record s { suggested = some n }
after s (query (estimate_handle_ops_gas _ _ _)) (inl n) = record s { estimate = some n }
after s (query (pending_nonce _)) (inl n) = record s { nonce = some n }
after s (query (send_raw_transaction raw)) _ = record s { sent = some raw }
after s (sign_eip1559 tx) (inl envelope) = record s { signed = some (tx, envelope) }
after s (query (wait_for_receipt hash _)) (inl (some info)) = record s {
  receipt = some (hash, info);
}
after s lock _ = record s { held = true }
after s unlock _ = record s { held = false }
after s _ _ = s

-- The ranges of the numbers in the answers.
abbrev pub Possible : (c : Call) → Answer c → Type 0
Possible (query base_fee) (inl n) = IsU256 n
Possible (query max_priority_fee) (inl n) = IsU256 n
Possible (query (estimate_handle_ops_gas _ _ _)) (inl n) = n < u64_mod
Possible _ _ = Unit

-- The errors that may come after the broadcast.
abbrev pub is_late : BundlerError → Bool
is_late (provider e) = true
is_late (receipt_timeout h) = true
is_late (handle_ops_reverted h n r) = true
is_late _ = false

module _ (b : Bundler) (submit : Bool) where
  -- The signed transaction: for the chain and the entry point, with the nonce that was read, and no
  -- value.
  pub record IsOuter (s : Stage) (tx : TxEip1559) : Type 0 where
    pub nonce : s.nonce ≡ some tx.nonce
    pub chain_id : tx.chain_id ≡ b.cfg.chain_id
    pub to : tx.to ≡ b.cfg.entrypoint_address
    pub value : tx.value ≡ 0

  -- A broadcast: in submit mode, under the lock, of the signed transaction, once.
  pub record IsBroadcast (s : Stage) (raw : Bytes) : Type 0 where
    pub submits : submit ≡ true
    pub held : s.held ≡ true
    pub tx : TxEip1559
    pub envelope : TxEnvelope
    pub signed : s.signed ≡ some (tx, envelope)
    pub bytes : envelope.encoded_2718 ≡ raw
    pub first : s.sent ≡ none

  abbrev pub Allowed : Stage → Call → Type 0
  Allowed s (query (pending_nonce a)) =
      (s.held ≡ submit) × (a ≡ b.signer_address) × (s.nonce ≡ none)
  Allowed s (query (send_raw_transaction raw)) = IsBroadcast s raw
  Allowed s (query (wait_for_receipt _ _)) = (s.held ≡ false) × (s.sent ≢ none)
  Allowed s (query (try_call_for_revert _ _ _)) = (s.held ≡ false) × (s.sent ≢ none)
  Allowed s (query _) = (s.held ≡ false) × (s.sent ≡ none)
  Allowed s (sign_eip1559 tx) = (s.held ≡ submit) × IsOuter s tx
  Allowed s lock = (submit ≡ true) × (s.held ≡ false) × (s.sent ≡ none) × (s.nonce ≡ none)
  Allowed s unlock = s.held ≡ true
  Allowed s unix_now = Unit
  Allowed s (warn _) = ⊥

  abbrev pub discipline : Protocol Stage
  discipline = record { allowed = Allowed; possible = Possible; after = after }
