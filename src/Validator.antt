-- ===== src/Validator.antt =====
-- crates/bundler/src/validator.rs: the simulation of one operation, and the validation data that the
-- entry point packs into a 256-bit word.
pub mod Window
pub mod Verdict
use Prim.Native.Nat.{bit_and}
use mathlib.Core.Option.{get_or}
use ethera_bundler.Base.{
  ℕ, ◌+◌, ◌-◌, ◌/◌, ◌^◌, Bool, not, ◌&&◌, ◌||◌, [], ◌∷◌, ◌++◌, Result, ok, err, if◌then◌else◌, ltb,
  ◌==◌, bytes_eq, drop, replicate,
}
use ethera_bundler.Base.Bytes.{Bytes}
use ethera_bundler.Alloy.{Uint, Address, is_zero, try_u64}
use ethera_bundler.Contracts.{PackedUserOperation, ValidationResult}
use ethera_bundler.Provider.{ProviderError, simulate_validation}
use ethera_bundler.Program.{Program, done, ◌>>=◌, call}

-- `Address::with_last_byte(1)`
abbrev pub sig_validation_failed : Address
sig_validation_failed = replicate 19 0 ++ (1 ∷ [])

abbrev pub uint48_max : ℕ
uint48_max = 2 ^ 48 - 1

-- `ValidationWindow`
pub record ValidationWindow : Type 0 where
  pub aggregator : Address
  pub valid_after : ℕ
  pub valid_until : ℕ

-- `ValidationReport`
pub record ValidationReport : Type 0 where
  pub pre_op_gas : ℕ
  pub prefund : ℕ
  pub account : ValidationWindow
  pub paymaster : ValidationWindow

-- `ValidationError`
pub data ValidationError : Type 0 where
  provider : ProviderError → ValidationError
  account_signature_failed : ValidationError
  paymaster_signature_failed : ValidationError
  out_of_time_range : (now a_after a_until p_after p_until : ℕ) → ValidationError
  unsupported_aggregator : ValidationError

unfoldable pub signature_failed : ValidationWindow → Bool
signature_failed w = bytes_eq w.aggregator sig_validation_failed

unfoldable pub requires_aggregator : ValidationWindow → Bool
requires_aggregator w = not (is_zero w.aggregator) && not (signature_failed w)

unfoldable pub is_out_of_time_range : ValidationWindow → ℕ → Bool
is_out_of_time_range w now = ltb w.valid_until now || ltb now w.valid_after

module _ ⦃u : Uint⦄ where
  unfoldable pub parse_window : ℕ → ValidationWindow
  parse_window word =
      let mask_160 : ℕ = 2 ^ 160 - 1 in
      let mask_48 : ℕ = uint48_max in
      let aggregator_bits = bit_and word mask_160 in
      let valid_until_raw = get_or (try_u64 (bit_and (word / 2 ^ 160) mask_48)) uint48_max in
      record {
        aggregator = drop 12 (u.to_be_bytes aggregator_bits);
        valid_after = get_or (try_u64 (bit_and (word / 2 ^ (160 + 48)) mask_48)) 0;
        valid_until = if valid_until_raw == 0 then uint48_max else valid_until_raw;
      }

  -- What `simulate` makes of the answer of the simulation.
  unfoldable pub judge : ValidationResult → ℕ → Result ValidationError ValidationReport
  judge raw now_unix =
      let account = parse_window raw.return_info.account_validation_data in
      let paymaster = parse_window raw.return_info.paymaster_validation_data in
      if signature_failed account
      then err account_signature_failed
      else if signature_failed paymaster
      then err paymaster_signature_failed
      else if requires_aggregator account || requires_aggregator paymaster
      then err unsupported_aggregator
      else if is_out_of_time_range account now_unix || is_out_of_time_range paymaster now_unix
      then err (
          out_of_time_range now_unix account.valid_after account.valid_until paymaster.valid_after
            paymaster.valid_until)
      else ok (record {
        pre_op_gas = raw.return_info.pre_op_gas;
        prefund = raw.return_info.prefund;
        account = account;
        paymaster = paymaster;
      })

  unfoldable pub simulate :
      Address → Bytes → PackedUserOperation → ℕ → Program (Result ValidationError ValidationReport)
  unfolding judge
  simulate entrypoint simulations_code op now_unix = do
    raw ← call provider (simulate_validation entrypoint simulations_code op)
    done (judge raw now_unix)
