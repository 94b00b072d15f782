-- ===== src/Bundler/Pipeline/Accepts/Operation.antt =====
-- The body of the loop: it lets an operation pass exactly if the node funds and accepts it.
use ethera_bundler.Base.{
  ℕ, ◌<◌, ◌≡◌, refl, sym, ap, ◌∙◌, ◌↔◌, String, List, [], ◌∷◌, All, Option, none, some, Result, ok,
  map_err, ◌⊎◌, inl, arith,
}
use ethera_bundler.Alloy.{Uint, Hash, u128_mod}
use ethera_bundler.Contracts.{Abi, ValidationResult, PackedUserOperation}
use ethera_bundler.Types.{UserOpV07, IsUserOp, IsU256}
use ethera_bundler.Packing.{PackError, parse_paymaster_and_data}
use ethera_bundler.Packing
use ethera_bundler.Packing.Fields.{packed, packed_numbers, first_wide, checked, pack_lem}
use ethera_bundler.Provider.{ProviderError, user_op_hash, simulate_validation}
use ethera_bundler.Validator
use ethera_bundler.Validator.{ValidationReport, ValidationError, simulate, judge}
use ethera_bundler.Validator.Verdict.{IsAcceptable, judge-ok_iff}
use ethera_bundler.Program.{
  Call, Answer, query, unix_now, Program, done, bind, continue, ◌>>=◌, call, answered,
}
use ethera_bundler.Program.Steady.{
  outcome, outcome-bind, outcome-continue, outcome_after, outcome-eq-ok, answered-eq-ok,
  continue-eq-ok, bind-eq-ok,
}
use ethera_bundler.Errors.{Format, BundlerError, pack, validation, provider}
use ethera_bundler.Bundler.Policy.{check_per_op_fees}
use ethera_bundler.Bundler.Policy.Fees.{check_per_op_fees-ok_iff}
use ethera_bundler.Bundler.Pipeline.{Bundler, Batch, check_prefund, check_op}
use ethera_bundler.Bundler.Pipeline.Checks.{with_op, map_err-eq-ok}
use ethera_bundler.Bundler.Pipeline.Accepts.Prefund.{check_prefund-ok_iff}
use ethera_bundler.Bundler.Pipeline.Accepts.{IsPassing, hash_answer}

pub first_wide-none :
    (ns : List (ℕ × String)) → (first_wide ns ≡ none) ↔ All (λ n. n.0 < u128_mod) ns
first_wide-none [] = (λ _. tt, λ _. refl)
first_wide-none ((v, field) ∷ ns) = ground (arith, first_wide-none ns)

checked-eq-ok :
    {A : Type 0} (o : Option String) (a b : A) → checked o a ≡ ok b → (o ≡ none) × (b ≡ a)
checked-eq-ok none a b e = (refl, cc)
checked-eq-ok (some s) a b e = cc

module _ ⦃u : Uint⦄ (op : UserOpV07) (w : IsUserOp op) where
  pub pack-ok_iff :
      (p : PackedUserOperation)
      → (Packing.pack op ≡ ok p) ↔ (All (λ n. n.0 < u128_mod) (packed_numbers op) × (p ≡ packed op))
  pack-ok_iff p = (
    λ e.
        let (n, same) =
          checked-eq-ok (first_wide (packed_numbers op)) (packed op) p (sym (pack_lem op w) ∙ e) in
        ((first_wide-none (packed_numbers op)).0 n, same),
    λ (fits, same). rw (pack_lem op w, (first_wide-none (packed_numbers op)).1 fits, same) refl,
  )

module _ ⦃u : Uint⦄ ⦃f : Format⦄ ⦃abi : Abi⦄ (answers : (c : Call) → Answer c) (b : Bundler) (i : ℕ)
    (op : UserOpV07) where
  -- The simulation, with its errors as those of the bundler.
  abbrev pub simulation : PackedUserOperation → Program (Result BundlerError ValidationReport)
  simulation p =
      bind (simulate b.cfg.entrypoint_address b.simulations_code p (answers unix_now))
        (λ r. done (map_err validation r))

  abbrev pub raw_answer : PackedUserOperation → ValidationResult ⊎ ProviderError
  raw_answer p = answers (query (simulate_validation b.cfg.entrypoint_address b.simulations_code p))

  simulation-ok_iff :
      (p : PackedUserOperation)
      → ((report : ValidationReport) × (outcome answers (simulation p) ≡ ok report)) ↔ (
          (raw : ValidationResult) × (raw_answer p ≡ inl raw) × IsAcceptable raw (answers unix_now))
  unfolding simulate
  simulation-ok_iff p =
      let now = answers unix_now in
      let step : Result ValidationError ValidationReport
          → Program (Result BundlerError ValidationReport) =
        λ r. done (map_err validation r) in
      let report_on : ValidationResult → Program (Result ValidationError ValidationReport) =
        λ raw. done (judge raw now) in
      let whole =
        outcome-bind answers (simulate b.cfg.entrypoint_address b.simulations_code p now) step in
      (
        λ (report, h).
            let (raw, e, j) =
              outcome-continue answers report_on (answered Validator.provider (raw_answer p)) report
                (map_err-eq-ok validation _ report (sym whole ∙ h)) in
            (raw, answered-eq-ok Validator.provider _ raw e, (judge-ok_iff raw now).0 (report, j)),
        λ (raw, e, a).
            let (report, j) = (judge-ok_iff raw now).1 a in
            (
              report,
              whole
                  ∙ ap (map_err validation) (
                      continue-eq-ok answers report_on (answered Validator.provider (raw_answer p))
                        report raw (ap (answered Validator.provider) e) j),
            ),
      )

  abbrev pub hashed : Batch → PackedUserOperation → Program (Result BundlerError Batch)
  hashed batch p = call provider (user_op_hash b.cfg.entrypoint_address p) >>= λ hash.
      done (ok (with_op batch op p hash))

  abbrev pub checked_then : Batch → PackedUserOperation → Program (Result BundlerError Batch)
  checked_then batch p = check_prefund b i op p >>= λ _. simulation p >>= λ _. hashed batch p

  abbrev pub pack_step : Batch → Unit {0} → Program (Result BundlerError Batch)
  pack_step batch _ = continue (checked_then batch) (map_err pack (Packing.pack op))

  abbrev pub after_prefund :
      Batch → PackedUserOperation → Unit {0} → Program (Result BundlerError Batch)
  after_prefund batch p _ = simulation p >>= λ _. hashed batch p

  abbrev pub after_simulation :
      Batch → PackedUserOperation → ValidationReport → Program (Result BundlerError Batch)
  after_simulation batch p _ = hashed batch p

  abbrev pub add : Batch → PackedUserOperation → Hash → Program (Result BundlerError Batch)
  add batch p hash = done (ok (with_op batch op p hash))

  abbrev Added : Batch → Batch → Type 0
  Added batch batch' =
      (hash : Hash) × (hash_answer answers b op ≡ inl hash)
      × (batch' ≡ with_op batch op (packed op) hash)

  module _ (base : ℕ) (batch batch' : Batch) (hb : IsU256 base)
      (hm : IsU256 b.cfg.min_priority_fee_wei) (w : IsUserOp op) where
    op_passed :
        outcome answers (check_op b base (answers unix_now) i op batch) ≡ ok batch'
        → IsPassing answers b base op × Added batch batch'
    unfolding check_op
    op_passed h =
        let P : PackedUserOperation = packed op in
        let packs = map_err pack (Packing.pack op) in
        let (_, fees, h1) =
          outcome-continue answers (pack_step batch) (check_per_op_fees b.cfg i op base) batch' h in
        let (p, e, _) = outcome-continue answers (checked_then batch) packs batch' h1 in
        let (fits, _) = (pack-ok_iff op w p).0 (map_err-eq-ok pack _ p e) in
        let packed_as = ap (map_err pack) ((pack-ok_iff op w P).1 (fits, refl)) in
        let h2 = outcome_after answers (checked_then batch) packs batch' P packed_as h1 in
        let (_, funds, h3) =
          outcome-eq-ok answers (check_prefund b i op P) (after_prefund batch P) batch' h2 in
        let (report, simulates, h4) =
          outcome-eq-ok answers (simulation P) (after_simulation batch P) batch' h3 in
        let (raw, told, good) = (simulation-ok_iff P).0 (report, simulates) in
        let (hash, hashes, h5) =
          outcome-continue answers (add batch P) (answered provider (hash_answer answers b op))
            batch' h4 in
        (
          record {
            priced = (check_per_op_fees-ok_iff b.cfg i base op hb hm).0 fees;
            fits = fits;
            funded = (check_prefund-ok_iff answers b i op w fits).0 funds;
            result = raw;
            simulated = told;
            acceptable = good;
          },
          (hash, answered-eq-ok provider _ hash hashes, cc),
        )

    op_passes :
        IsPassing answers b base op
        → Added batch batch'
        → outcome answers (check_op b base (answers unix_now) i op batch) ≡ ok batch'
    unfolding check_op
    op_passes g (hash, told, same) =
        let P : PackedUserOperation = packed op in
        let (report, simulates) = (simulation-ok_iff P).1 (g.result, g.simulated, g.acceptable) in
        continue-eq-ok answers (pack_step batch) (check_per_op_fees b.cfg i op base) batch' tt
          ((check_per_op_fees-ok_iff b.cfg i base op hb hm).1 g.priced)
          (continue-eq-ok answers (checked_then batch) (map_err pack (Packing.pack op)) batch' P
            (ap (map_err pack) ((pack-ok_iff op w P).1 (g.fits, refl)))
            (bind-eq-ok answers (check_prefund b i op P) (after_prefund batch P) batch' tt
              ((check_prefund-ok_iff answers b i op w g.fits).1 g.funded)
              (bind-eq-ok answers (simulation P) (after_simulation batch P) batch' report simulates
                (continue-eq-ok answers (add batch P) (answered provider (hash_answer answers b op))
                  batch' hash (ap (answered provider) told) (ap ok (sym same))))))

    -- For an operation and fees in the ranges of their types, the loop's body lets the operation
    -- pass exactly if it is passing and the node tells its hash.
    pub check_op-ok_iff :
        (outcome answers (check_op b base (answers unix_now) i op batch) ≡ ok batch') ↔ (
          IsPassing answers b base op
          × ((hash : Hash) × (hash_answer answers b op ≡ inl hash)
              × (batch' ≡ with_op batch op (packed op) hash)))
    check_op-ok_iff = (op_passed, λ (g, added). op_passes g added)
