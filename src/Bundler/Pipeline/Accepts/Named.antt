-- ===== src/Bundler/Pipeline/Accepts/Named.antt =====
-- Whether the client is told which operation of its batch has failed.
use ethera_bundler.Base.{
  ℕ, ◌≡◌, refl, ap, ◌∙◌, Bool, true, false, none, some, err, if◌then◌else◌, arith,
}
use ethera_bundler.Alloy.{Uint}
use ethera_bundler.Types.{UserOpV07}
use ethera_bundler.Config.{BundlerConfig}
use ethera_bundler.Errors.{Format, BundlerError}
use ethera_bundler.Errors.Json.{get}
use ethera_bundler.Errors.Classify.{classify}
use ethera_bundler.Errors.Classify.Data.{op_index, map_num, classify-op_index}
use ethera_bundler.Program.{Call, Answer}
use ethera_bundler.Bundler.Policy.{check_per_op_fees}
use ethera_bundler.Bundler.Pipeline.{Bundler}
use ethera_bundler.Bundler.Pipeline.Accepts.Failure.{
  Fails, unpriced, too_wide, short_blob, no_balance, too_poor, not_simulated, rejected, no_hash,
}

fees-op_index :
    ⦃u : Uint⦄ ⦃f : Format⦄ (cfg : BundlerConfig) (i base : ℕ) (op : UserOpV07) (e : BundlerError)
    → check_per_op_fees cfg i op base ≡ err e
    → op_index e ≡ some i
unfolding check_per_op_fees
fees-op_index cfg i base op e h = ground arith

module _ ⦃u : Uint⦄ ⦃f : Format⦄ (answers : (c : Call) → Answer c) (b : Bundler) (base i : ℕ)
    (op : UserOpV07) where
  -- The operation fails the fee policy, or its payer has too small a deposit.
  abbrev pub is_named : (e : BundlerError) → Fails answers b base i op e → Bool
  is_named _ (unpriced _ _) = true
  is_named _ (too_poor _ _ _ _ _ _) = true
  is_named _ _ = false

  failure-op_index :
      (e : BundlerError) (failure : Fails answers b base i op e)
      → op_index e ≡ (if is_named e failure then some i else none)
  failure-op_index e (unpriced _ h) = fees-op_index b.cfg i base op e h
  failure-op_index _ (too_wide _ _ _) = refl
  failure-op_index _ (short_blob _ _ _ _) = refl
  failure-op_index _ (no_balance _ _ _ _ _) = refl
  failure-op_index _ (too_poor _ _ _ _ _ _) = refl
  failure-op_index _ (not_simulated _ _ _ _ _) = refl
  failure-op_index _ (rejected _ _ _ _ _ _ _) = refl
  failure-op_index _ (no_hash _ _ _) = refl

  -- The data of the error of a failing operation names the operation, by its index in the batch,
  -- exactly if it fails the fee policy or its payer has too small a deposit. An operation that does
  -- not pack, is not simulated or is rejected by its simulation is not named.
  pub get-classify_failed :
      (e : BundlerError) (failure : Fails answers b base i op e)
      → get "opIndex" (classify e).1 ≡ map_num (if is_named e failure then some i else none)
  get-classify_failed e failure = classify-op_index e ∙ ap map_num (failure-op_index e failure)
