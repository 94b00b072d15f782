-- ===== src/Bundler/Pipeline/Broadcasts.antt =====
-- The transactions that a request broadcasts, by its calls.
use ethera_bundler.Base.{
  ◌≡◌, refl, ap, ◌∙◌, Bool, List, [], ◌∷◌, ◌++◌, Option, none, some, inl, inr,
}
use ethera_bundler.Base.Bytes.{Bytes}
use ethera_bundler.Provider.{
  chain_id, balance, get_code, base_fee, max_priority_fee, pending_nonce, balance_of, user_op_hash,
  estimate_handle_ops_gas, send_raw_transaction, wait_for_receipt, try_call_for_revert,
  simulate_validation,
}
use ethera_bundler.Program.{Call, Answer, query, unix_now, sign_eip1559, lock, unlock, warn, Log}
use ethera_bundler.Program.Laws.{replay, Obeyed}
use ethera_bundler.Bundler.Pipeline.{Bundler}
use ethera_bundler.Bundler.Pipeline.Stage.{Stage, start, discipline}

abbrev pub broadcast_of : Call → List Bytes
broadcast_of (query (send_raw_transaction raw)) = raw ∷ []
broadcast_of _ = []

-- The latest first.
abbrev pub broadcasts : Log → List Bytes
broadcasts [] = []
broadcasts ((c, r) ∷ log) = broadcast_of c ++ broadcasts log

abbrev pub sent_list : Option Bytes → List Bytes
sent_list none = []
sent_list (some raw) = raw ∷ []

module _ (b : Bundler) (submit : Bool) where
  after-broadcast_of :
      (s : Stage) (c : Call) (r : Answer c)
      → (discipline b submit).allowed s c
      → broadcast_of c ++ sent_list s.sent ≡ sent_list ((discipline b submit).after s c r).sent
  after-broadcast_of s (query base_fee) (inl n) a = refl
  after-broadcast_of s (query base_fee) (inr e) a = refl
  after-broadcast_of s (query max_priority_fee) (inl n) a = refl
  after-broadcast_of s (query max_priority_fee) (inr e) a = refl
  after-broadcast_of s (query (estimate_handle_ops_gas _ _ _)) (inl n) a = refl
  after-broadcast_of s (query (estimate_handle_ops_gas _ _ _)) (inr e) a = refl
  after-broadcast_of s (query (pending_nonce _)) (inl n) a = refl
  after-broadcast_of s (query (pending_nonce _)) (inr e) a = refl
  after-broadcast_of s (query (balance_of _ _)) r a = refl
  after-broadcast_of s (query chain_id) r a = refl
  after-broadcast_of s (query (balance _)) r a = refl
  after-broadcast_of s (query (get_code _)) r a = refl
  after-broadcast_of s (warn _) r a = elim a [ ]
  after-broadcast_of s (query (user_op_hash _ _)) r a = refl
  after-broadcast_of s (query (wait_for_receipt _ _)) (inl none) a = refl
  after-broadcast_of s (query (wait_for_receipt _ _)) (inl (some info)) a = refl
  after-broadcast_of s (query (wait_for_receipt _ _)) (inr e) a = refl
  after-broadcast_of s (query (try_call_for_revert _ _ _)) r a = refl
  after-broadcast_of s (query (simulate_validation _ _ _)) r a = refl
  after-broadcast_of s (query (send_raw_transaction raw)) r a = rw a.first refl
  after-broadcast_of s (sign_eip1559 tx) (inl envelope) a = refl
  after-broadcast_of s (sign_eip1559 tx) (inr e) a = refl
  after-broadcast_of s unix_now r a = refl
  after-broadcast_of s lock r a = refl
  after-broadcast_of s unlock r a = refl

  -- A disciplined request has broadcast what its stage holds as sent.
  pub broadcasts-sent_list :
      (log : Log)
      → Obeyed (discipline b submit) start log
      → broadcasts log ≡ sent_list (replay (discipline b submit) start log).sent
  broadcasts-sent_list [] h = refl
  broadcasts-sent_list ((c, r) ∷ log) (a, h) =
      ap (λ sent. broadcast_of c ++ sent) (broadcasts-sent_list log h)
      ∙ after-broadcast_of (replay (discipline b submit) start log) c r a
