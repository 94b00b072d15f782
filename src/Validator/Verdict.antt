-- ===== src/Validator/Verdict.antt =====
-- What `simulate` accepts and which error it returns, by arithmetic on the two words.
use ethera_bundler.Base.{
  ℕ, ◌≤◌, ◌≡◌, ◌≢◌, String, refl, sym, ap, ◌∙◌, ◌↔◌, Bool, not, ◌&&◌, ◌||◌, ◌==◌, arith,
  if◌then◌else◌, ltb, leb, Result, ok, err, panic, Option, none, some, inl, inr, ◌⊎◌, ◌∷◌,
}
use ethera_bundler.Base.Bytes.{Bytes}
use ethera_bundler.Alloy.{Uint, Address}
use ethera_bundler.Contracts.{ValidationResult, PackedUserOperation}
use ethera_bundler.Provider.{ProviderError, simulate_validation}
use ethera_bundler.Program.{World, Log, run, query, bind, continue, done, answered}
use ethera_bundler.Validator.{
  ValidationReport, ValidationError, provider, account_signature_failed, paymaster_signature_failed,
  out_of_time_range, unsupported_aggregator, parse_window, judge, simulate,
}
use ethera_bundler.Validator.Window.{
  aggregator_of, until_of, after_of, parse_window_fields, signature_failed-parse_window,
  requires_aggregator-parse_window, is_out_of_time_range-parse_window,
}

-- The fields of a word: aggregator, first and last second of validity.
pub record Fields : Type 0 where
  pub aggregator : ℕ
  pub after : ℕ
  pub until : ℕ

abbrev pub fields : ℕ → Fields
fields word = record {
  aggregator = aggregator_of word;
  after = after_of word;
  until = until_of word;
}

abbrev pub within : Fields → ℕ → Bool
within w now = leb w.after now && leb now w.until

abbrev pub objection_to : Fields → Fields → ℕ → Option ValidationError
objection_to a p now =
    if a.aggregator == 1
    then some account_signature_failed
    else if p.aggregator == 1
    then some paymaster_signature_failed
    else if not ((a.aggregator == 0) && (p.aggregator == 0))
    then some unsupported_aggregator
    else if not (within a now && within p now)
    then some (out_of_time_range now a.after a.until p.after p.until)
    else none

abbrev pub account_word : ValidationResult → ℕ
account_word raw = raw.return_info.account_validation_data

abbrev pub paymaster_word : ValidationResult → ℕ
paymaster_word raw = raw.return_info.paymaster_validation_data

-- The first objection to a result: a failed signature, the account's before the paymaster's, then an
-- aggregator, then the time.
abbrev pub objection : ValidationResult → ℕ → Option ValidationError
objection raw now = objection_to (fields (account_word raw)) (fields (paymaster_word raw)) now

-- A result is acceptable: neither word names an aggregator, and the time lies in both windows.
pub record IsAcceptable (raw : ValidationResult) (now : ℕ) : Type 0 where
  pub account_signed : aggregator_of (account_word raw) ≡ 0
  pub paymaster_signed : aggregator_of (paymaster_word raw) ≡ 0
  pub account_due : after_of (account_word raw) ≤ now
  pub account_fresh : now ≤ until_of (account_word raw)
  pub paymaster_due : after_of (paymaster_word raw) ≤ now
  pub paymaster_fresh : now ≤ until_of (paymaster_word raw)

abbrev pub verdict : {R : Type 0} → Option ValidationError → R → Result ValidationError R
verdict none good = ok good
verdict (some e) good = err e

verdict-eq-ok :
    {R : Type 0} (o : Option ValidationError) (good : R) {r : R} → verdict o good ≡ ok r → o ≡ none
verdict-eq-ok none good e = refl
verdict-eq-ok (some v) good e = cc

objection_to-none :
    (a p : Fields) (now : ℕ)
    → (objection_to a p now ≡ none) ↔ (
        (a.aggregator ≡ 0)
        × (p.aggregator ≡ 0)
        × (a.after ≤ now)
        × (now ≤ a.until)
        × (p.after ≤ now)
        × (now ≤ p.until))
objection_to-none a p now = ground arith

pub objection-none :
    (raw : ValidationResult) (now : ℕ) → (objection raw now ≡ none) ↔ IsAcceptable raw now
objection-none raw now =
    let iff = objection_to-none (fields (account_word raw)) (fields (paymaster_word raw)) now in
    (
      λ h.
          let (a, p, aa, au, pa, pu) = iff.0 h in
          record {
            account_signed = a;
            paymaster_signed = p;
            account_due = aa;
            account_fresh = au;
            paymaster_due = pa;
            paymaster_fresh = pu;
          },
      λ h. iff.1 (
        h.account_signed, h.paymaster_signed, h.account_due, h.account_fresh, h.paymaster_due,
        h.paymaster_fresh,
      ),
    )

ladder :
    {R : Type 0} (a p : Fields) (now : ℕ) (good : R)
    → (if a.aggregator == 1
        then err account_signature_failed
        else if p.aggregator == 1
        then err paymaster_signature_failed
        else if (not (a.aggregator == 0) && not (a.aggregator == 1))
            || (not (p.aggregator == 0) && not (p.aggregator == 1))
        then err unsupported_aggregator
        else if (ltb a.until now || ltb now a.after) || (ltb p.until now || ltb now p.after)
        then err (out_of_time_range now a.after a.until p.after p.until)
        else ok good)
      ≡ verdict (objection_to a p now) good
ladder a p now good = ground arith

module _ ⦃u : Uint⦄ where
  abbrev pub report : ValidationResult → ValidationReport
  report raw = record {
    pre_op_gas = raw.return_info.pre_op_gas;
    prefund = raw.return_info.prefund;
    account = parse_window (account_word raw);
    paymaster = parse_window (paymaster_word raw);
  }

  -- The verdict on a simulated result is its first objection, and a report of its gas, its prefund
  -- and its two windows where there is none.
  judge_lem :
      (raw : ValidationResult) (now : ℕ) → judge raw now ≡ verdict (objection raw now) (report raw)
  unfolding judge
  judge_lem raw now =
      let (aa, au, _, _) = parse_window_fields (account_word raw) in
      let (pa, pu, _, _) = parse_window_fields (paymaster_word raw) in
      rw
        (
          signature_failed-parse_window (account_word raw),
          signature_failed-parse_window (paymaster_word raw),
          requires_aggregator-parse_window (account_word raw),
          requires_aggregator-parse_window (paymaster_word raw),
          is_out_of_time_range-parse_window (account_word raw) now,
          is_out_of_time_range-parse_window (paymaster_word raw) now,
          aa,
          au,
          pa,
          pu,
        )
        (ladder (fields (account_word raw)) (fields (paymaster_word raw)) now _)

  -- What `simulate` returns on an answer of the node.
  abbrev simulated : ValidationResult ⊎ ProviderError → ℕ → Result ValidationError ValidationReport
  simulated (inl raw) now = verdict (objection raw now) (report raw)
  simulated (inr e) now = err (provider e)

  run-judge :
      (world : World) (log : Log) (a : ValidationResult ⊎ ProviderError) (now : ℕ)
      → run world (bind (done (answered provider a)) (continue (λ raw. done (judge raw now)))) log
        ≡ (simulated a now, log)
  run-judge world log (inl raw) now = rw judge_lem
  run-judge world log (inr e) now = refl

  -- Run against any world, the simulation of an operation asks the node exactly once, with the
  -- operation, and ends in the error of the node or in the verdict on what the node answered.
  run-simulate :
      (world : World) (log : Log) (entrypoint : Address) (code : Bytes) (op : PackedUserOperation)
      (now : ℕ)
      → let c = query (simulate_validation entrypoint code op) in
        run world (simulate entrypoint code op now) log
        ≡ (simulated (world log c) now, (c, world log c) ∷ log)
  unfolding simulate
  run-simulate world log entrypoint code op now =
      let c = query (simulate_validation entrypoint code op) in
      run-judge world ((c, world log c) ∷ log) (world log c) now

  -- The simulation of an operation succeeds exactly if the node's answer to it is acceptable: no
  -- failed signature, no aggregator, and the time within both windows.
  pub judge-ok_iff :
      (raw : ValidationResult) (now : ℕ)
      → ((r : ValidationReport) × (judge raw now ≡ ok r)) ↔ IsAcceptable raw now
  judge-ok_iff raw now = (
    λ (r, e).
        (objection-none raw now).0
          (verdict-eq-ok (objection raw now) (report raw) (sym (judge_lem raw now) ∙ e)),
    λ h. (
      report raw,
      judge_lem raw now ∙ ap (λ o. verdict o (report raw)) ((objection-none raw now).1 h),
    ),
  )

  -- The verdict on a result that there is an objection to is the first one.
  pub judge-eq-err :
      (raw : ValidationResult) (now : ℕ) (v : ValidationError)
      → objection raw now ≡ some v
      → judge raw now ≡ err v
  judge-eq-err raw now v e = judge_lem raw now ∙ ap (λ o. verdict o (report raw)) e

  pub judge-ne-panic : (raw : ValidationResult) (now : ℕ) (m : String) → judge raw now ≢ panic m
  judge-ne-panic raw now m e =
      not_panic (objection raw now) (report raw) (sym (judge_lem raw now) ∙ e)
    where
      not_panic : (o : Option ValidationError) (r : ValidationReport) → verdict o r ≡ panic m → ⊥
      not_panic none r h = cc
      not_panic (some v) r h = cc
