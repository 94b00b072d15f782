-- ===== src/Bundler/Pipeline/Accepts.antt =====
-- Which requests succeed: what `build_inner` asks of the request, of its operations and of the node.
pub mod Funding
pub mod Prefund
pub mod Operation
pub mod Failure
pub mod Named
pub mod Refused
pub mod Decided
pub mod Loop
pub mod Outer
pub mod Submission
pub mod Response
pub mod Batch
pub mod Requests
pub mod Reported
pub mod Modes
pub mod Settled
use ethera_bundler.Base.{
  ℕ, ◌*◌, ◌≤◌, ◌<◌, ◌≡◌, min, true, List, [], ◌∷◌, All, Option, some, none, ◌⊎◌, inl, length,
  if◌then◌else◌,
}
use ethera_bundler.Base.Bytes.{Bytes, be_value}
use ethera_bundler.Bundler.Policy.Prefund.{gas_sum}
use ethera_bundler.Packing.Blob.{head, limit_at}
use ethera_bundler.Packing.{paymaster_header_len}
use ethera_bundler.Alloy.{Uint, is_zero, Address, Hash, u128_mod}
use ethera_bundler.Contracts.{Abi, ValidationResult}
use ethera_bundler.Types.{UserOpV07, BuildOpts, SignedTxResp}
use ethera_bundler.Packing.{parse_paymaster_and_data}
use ethera_bundler.Packing.Fields.{packed, packed_numbers}
use ethera_bundler.Provider.{
  ProviderError, ReceiptInfo, base_fee, max_priority_fee, pending_nonce, balance_of, user_op_hash,
  estimate_handle_ops_gas, send_raw_transaction, wait_for_receipt, simulate_validation,
}
use ethera_bundler.Signer.{TxEip1559}
use ethera_bundler.Validator.Verdict.{IsAcceptable}
use ethera_bundler.Program.{Call, Answer, query, unix_now, sign_eip1559}
use ethera_bundler.Bundler.Policy.{required_prefund, sponsor_of, gas_with_margin}
use ethera_bundler.Bundler.Policy.Fees.{u256_max, IsPriced, least}
use ethera_bundler.Bundler.Policy.Outer.{outer_tip}
use ethera_bundler.Bundler.Pipeline.{Bundler, receipt_timeout_ms}
use ethera_bundler.Bundler.Pipeline.Checks.{tips_of, caps_of}

-- The payer of an operation with the gas limits of its paymaster: the paymaster, or the sender if it
-- is the zero address.
abbrev pub payer : UserOpV07 → Address → ℕ → ℕ → Address × ℕ × ℕ
payer op pm ver post = if is_zero pm then (op.sender, 0, 0) else (pm, ver, post)

-- By the packed form if there is one, else by the unpacked form.
abbrev pub charged_for : UserOpV07 → Bytes → Option Address → Address × ℕ × ℕ
charged_for op [] none = (op.sender, 0, 0)
charged_for op [] (some pm) =
    payer op pm op.paymaster_verification_gas_limit op.paymaster_post_op_gas_limit
charged_for op (x ∷ blob) paymaster =
    payer op (head (x ∷ blob)) (be_value (limit_at 20 (x ∷ blob)))
      (be_value (limit_at 36 (x ∷ blob)))

abbrev pub charged : UserOpV07 → Address × ℕ × ℕ
charged op = charged_for op op.paymaster_and_data op.paymaster

-- A blob is missing, or at least as long as its prefix.
abbrev pub IsWhole : Bytes → Type 0
IsWhole blob = (blob ≡ []) ⊎ (paymaster_header_len ≤ length blob)

module _ ⦃u : Uint⦄ (answers : (c : Call) → Answer c) (b : Bundler) where
  -- The deposit of the payer covers the largest cost of the operation.
  pub record IsFunded (op : UserOpV07) : Type 0 where
    pub whole : IsWhole op.paymaster_and_data
    pub deposit : ℕ
    pub deposited :
        answers (query (balance_of b.cfg.entrypoint_address (charged op).0)) ≡ inl deposit
    pub covered :
        min (gas_sum op (charged op).1 (charged op).2 * op.max_fee_per_gas) u256_max ≤ deposit

  -- An operation that the loop lets pass: its fees, its numbers, its deposit and its simulation.
  pub record IsPassing (base : ℕ) (op : UserOpV07) : Type 0 where
    pub priced : IsPriced b.cfg base op
    pub fits : All (λ n. n.0 < u128_mod) (packed_numbers op)
    pub funded : IsFunded op
    pub result : ValidationResult
    pub simulated :
        answers
          (query (simulate_validation b.cfg.entrypoint_address b.simulations_code (packed op)))
        ≡ inl result
    pub acceptable : IsAcceptable result (answers unix_now)

  -- What the node answers for the hash of an operation.
  abbrev pub hash_answer : UserOpV07 → Hash ⊎ ProviderError
  hash_answer op = answers (query (user_op_hash b.cfg.entrypoint_address (packed op)))

  -- The node has told these hashes for these operations.
  abbrev pub Hashed : List UserOpV07 → List Hash → Type 0
  Hashed [] [] = Unit
  Hashed (op ∷ ops) (hash ∷ hashes) = (hash_answer op ≡ inl hash) × Hashed ops hashes
  Hashed _ _ = ⊥
