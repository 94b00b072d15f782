-- ===== src/Bundler/Pipeline/Accepts/Prefund.antt =====
-- The prefund check against a steady world: it passes exactly if the payer of the operation is funded.
use ethera_bundler.Base.{
  ℕ, ◌≤◌, ◌<◌, ◌*◌, min, ◌≡◌, sym, ap, ◌∙◌, ◌↔◌, All, Option, Result, ok, map_err, inl, arith,
}
use ethera_bundler.Alloy.{Uint, Address, u128_mod}
use ethera_bundler.Contracts.{Abi}
use ethera_bundler.Types.{UserOpV07, IsUserOp}
use ethera_bundler.Packing.{parse_paymaster_and_data}
use ethera_bundler.Packing.Fields.{packed, packed_blob, packed_numbers}
use ethera_bundler.Provider.{balance_of}
use ethera_bundler.Program.{Call, Answer, query, Program, done, ◌>>=◌, call, answered}
use ethera_bundler.Program.Steady.{
  outcome, outcome-continue, outcome_after, answered-eq-ok, continue-eq-ok,
}
use ethera_bundler.Errors.{Format, BundlerError, pack, provider}
use ethera_bundler.Bundler.Policy.{check_deposit, required_prefund, sponsor_of}
use ethera_bundler.Bundler.Policy.Fees.{u256_max}
use ethera_bundler.Bundler.Policy.Prefund.{gas_sum, required_prefund_lem, check_deposit-ok_iff}
use ethera_bundler.Bundler.Pipeline.{Bundler, check_prefund}
use ethera_bundler.Bundler.Pipeline.Checks.{map_err-eq-ok}
use ethera_bundler.Bundler.Pipeline.Accepts.Funding.{packed_blob-charged, packed_blob-IsWhole}
use ethera_bundler.Bundler.Pipeline.Accepts.{charged, IsFunded}

module _ ⦃u : Uint⦄ ⦃f : Format⦄ ⦃abi : Abi⦄ (answers : (c : Call) → Answer c) (b : Bundler) (i : ℕ)
    (op : UserOpV07) where
  -- What follows the parsing of the blob, for the payer and its limits.
  abbrev pub paid : Address × ℕ × ℕ → Program (Result BundlerError (Unit {0}))
  paid (sponsor, ver, post) =
      call provider (balance_of b.cfg.entrypoint_address sponsor) >>= λ deposit.
      done (check_deposit b.cfg i sponsor (required_prefund op ver post) deposit)

  abbrev pub cost_of : Address × ℕ × ℕ → ℕ
  cost_of charge = min (gas_sum op charge.1 charge.2 * op.max_fee_per_gas) u256_max

  paid-ok_iff :
      (charge : Address × ℕ × ℕ)
      → IsUserOp op
      → charge.1 < u128_mod
      → charge.2 < u128_mod
      → (outcome answers (paid charge) ≡ ok tt) ↔ (
          (deposit : ℕ) × (answers (query (balance_of b.cfg.entrypoint_address charge.0))
            ≡ inl deposit)
          × (cost_of charge ≤ deposit))
  paid-ok_iff (sponsor, ver, post) w hv hp =
      let reply = answers (query (balance_of b.cfg.entrypoint_address sponsor)) in
      let test : ℕ → Program (Result BundlerError (Unit {0})) =
        λ deposit. done (check_deposit b.cfg i sponsor (required_prefund op ver post) deposit) in
      let cost = required_prefund_lem op ver post w (omega (arith, hv)) (omega (arith, hp)) in
      (
        λ h.
            let (deposit, e, h1) = outcome-continue answers test (answered provider reply) tt h in
            (
              deposit,
              answered-eq-ok provider reply deposit e,
              omega (arith, cost, (check_deposit-ok_iff b.cfg i sponsor _ deposit).0 h1),
            ),
        λ (deposit, e, covers).
            continue-eq-ok answers test (answered provider reply) tt deposit
              (ap (answered provider) e)
              ((check_deposit-ok_iff b.cfg i sponsor _ deposit).1 (omega (arith, cost, covers))),
      )

  pub check_prefund-ok_iff :
      IsUserOp op
      → All (λ n. n.0 < u128_mod) (packed_numbers op)
      → (outcome answers (check_prefund b i op (packed op)) ≡ ok tt) ↔ IsFunded answers b op
  unfolding check_prefund
  check_prefund-ok_iff w fits =
      let parse = map_err pack (parse_paymaster_and_data (packed_blob op)) in
      let pay : Option (Address × ℕ × ℕ) → Program (Result BundlerError (Unit {0})) =
        λ parsed. paid (sponsor_of op parsed) in
      (
        λ h.
            let (parsed', e', _) = outcome-continue answers pay parse tt h in
            let whole = packed_blob-IsWhole op parsed' (map_err-eq-ok pack _ parsed' e') in
            let (parsed, e, payer_is, hv, hp) = packed_blob-charged op w fits whole in
            let h1 = outcome_after answers pay parse tt parsed (ap (map_err pack) e) h in
            let (deposit, told, covers) =
              (paid-ok_iff (charged op) w hv hp).0
                (ap (λ c. outcome answers (paid c)) (sym payer_is) ∙ h1) in
            record { whole = whole; deposit = deposit; deposited = told; covered = covers },
        λ g.
            let (parsed, e, payer_is, hv, hp) = packed_blob-charged op w fits g.whole in
            continue-eq-ok answers pay parse tt parsed (ap (map_err pack) e) (
              ap (λ c. outcome answers (paid c)) payer_is
              ∙ (paid-ok_iff (charged op) w hv hp).1 (g.deposit, g.deposited, g.covered)),
      )
