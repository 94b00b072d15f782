-- ===== src/Bundler/Pipeline/Accepts/Failure.antt =====
-- Why the loop refuses an operation: the first of its checks that fails, with the error.
use ethera_bundler.Base.{ℕ, ◌*◌, ◌<◌, ◌≡◌, ◌⊎◌, min, String, All, some, err, inl, inr, length}
use ethera_bundler.Alloy.{Uint, u128_mod}
use ethera_bundler.Contracts.{ValidationResult}
use ethera_bundler.Types.{UserOpV07}
use ethera_bundler.Packing.{overflow, paymaster_and_data_too_short, paymaster_header_len}
use ethera_bundler.Packing.Fields.{packed, packed_numbers, first_wide}
use ethera_bundler.Provider.{ProviderError, balance_of, simulate_validation}
use ethera_bundler.Validator
use ethera_bundler.Validator.{ValidationReport, ValidationError}
use ethera_bundler.Validator.Verdict.{objection}
use ethera_bundler.Program.{Call, Answer, query, unix_now}
use ethera_bundler.Errors.{Format, BundlerError, pack, validation, provider, insufficient_deposit}
use ethera_bundler.Bundler.Policy.{check_per_op_fees}
use ethera_bundler.Bundler.Policy.Fees.{IsPriced, u256_max}
use ethera_bundler.Bundler.Policy.Prefund.{gas_sum}
use ethera_bundler.Bundler.Pipeline.{Bundler}
use ethera_bundler.Bundler.Pipeline.Accepts.{charged, IsWhole, IsFunded, IsPassing, hash_answer}

abbrev pub Fits : UserOpV07 → Type 0
Fits op = All (λ n. n.0 < u128_mod) (packed_numbers op)

-- The most that an operation may cost its payer.
abbrev pub cost : UserOpV07 → ℕ
cost op = min (gas_sum op (charged op).1 (charged op).2 * op.max_fee_per_gas) u256_max

module _ ⦃u : Uint⦄ ⦃f : Format⦄ (answers : (c : Call) → Answer c) (b : Bundler) (base i : ℕ)
    (op : UserOpV07) where
  abbrev pub balance_answer : ℕ ⊎ ProviderError
  balance_answer = answers (query (balance_of b.cfg.entrypoint_address (charged op).0))

  abbrev pub simulation_answer : ValidationResult ⊎ ProviderError
  simulation_answer =
      answers (query (simulate_validation b.cfg.entrypoint_address b.simulations_code (packed op)))

  -- The operation at the index `i` fails with this error.
  pub data Fails : BundlerError → Type 0 where
    unpriced : (e : BundlerError) → check_per_op_fees b.cfg i op base ≡ err e → Fails e
    too_wide :
        (field : String)
        → IsPriced b.cfg base op
        → first_wide (packed_numbers op) ≡ some field
        → Fails (pack (overflow field))
    short_blob :
        IsPriced b.cfg base op
        → Fits op
        → 0 < length op.paymaster_and_data
        → length op.paymaster_and_data < paymaster_header_len
        → Fails (pack (paymaster_and_data_too_short (length op.paymaster_and_data)))
    no_balance :
        (e : ProviderError)
        → IsPriced b.cfg base op
        → Fits op
        → IsWhole op.paymaster_and_data
        → balance_answer ≡ inr e
        → Fails (provider e)
    too_poor :
        (deposit : ℕ)
        → IsPriced b.cfg base op
        → Fits op
        → IsWhole op.paymaster_and_data
        → balance_answer ≡ inl deposit
        → deposit < cost op
        → Fails
            (insufficient_deposit i (f.debug (charged op).0) (f.show (cost op)) (f.show deposit))
    not_simulated :
        (e : ProviderError)
        → IsPriced b.cfg base op
        → Fits op
        → IsFunded answers b op
        → simulation_answer ≡ inr e
        → Fails (validation (Validator.provider e))
    rejected :
        (result : ValidationResult) (e : ValidationError)
        → IsPriced b.cfg base op
        → Fits op
        → IsFunded answers b op
        → simulation_answer ≡ inl result
        → objection result (answers unix_now) ≡ some e
        → Fails (validation e)
    no_hash :
        (e : ProviderError)
        → IsPassing answers b base op
        → hash_answer answers b op ≡ inr e
        → Fails (provider e)
