-- ===== src/Bundler/Pipeline/Accepts/Decided.antt =====
-- Every operation passes or fails, and the loop's body ends accordingly.
use ethera_bundler.Base.{
  ℕ, ◌<◌, ◌≡◌, ◌⊎◌, refl, String, Bool-cases, Option-cases, sum-cases, [], ◌∷◌, Result, ok, err,
  panic, inl, inr, ltb, ltb→lt, ltb→le, length, arith,
}
use ethera_bundler.Base.Bytes.{Bytes}
use ethera_bundler.Alloy.{Uint, Hash}
use ethera_bundler.Contracts.{Abi}
use ethera_bundler.Types.{UserOpV07, IsU256}
use ethera_bundler.Packing.{paymaster_header_len}
use ethera_bundler.Packing.Fields.{packed_numbers, first_wide}
use ethera_bundler.Validator.Verdict.{objection, objection-none}
use ethera_bundler.Program.{Call, Answer, unix_now}
use ethera_bundler.Errors.{Format, BundlerError}
use ethera_bundler.Bundler.Policy.{check_per_op_fees}
use ethera_bundler.Bundler.Policy.Fees.{IsPriced, check_per_op_fees-ok_iff}
use ethera_bundler.Bundler.Pipeline.{Bundler}
use ethera_bundler.Bundler.Pipeline.Checks.{fees-ne-panic}
use ethera_bundler.Bundler.Pipeline.Accepts.{IsWhole, IsFunded, IsPassing, hash_answer}
use ethera_bundler.Bundler.Pipeline.Accepts.Operation.{first_wide-none}
use ethera_bundler.Bundler.Pipeline.Accepts.Failure.{
  Fits, cost, balance_answer, simulation_answer, Fails, unpriced, too_wide, short_blob, no_balance,
  too_poor, not_simulated, rejected, no_hash,
}

module _ {E A : Type 0} where
  result_cases :
      (r : Result E A)
      → ((a : A) × (r ≡ ok a)) ⊎ ((e : E) × (r ≡ err e)) ⊎ ((m : String) × (r ≡ panic m))
  result_cases (ok a) = inl (a, refl)
  result_cases (err e) = inr (inl (e, refl))
  result_cases (panic m) = inr (inr (m, refl))

IsWhole-cases :
    (blob : Bytes) → IsWhole blob ⊎ ((0 < length blob) × (length blob < paymaster_header_len))
IsWhole-cases [] = inl (inl refl)
IsWhole-cases (x ∷ blob) = elim (Bool-cases (ltb (length (x ∷ blob)) 52)) [
  | inl short ↦ inr (omega arith, ltb→lt (length (x ∷ blob)) 52 short)
  | inr long ↦ inl (inr (ltb→le (length (x ∷ blob)) 52 long))
]

module _ ⦃u : Uint⦄ ⦃f : Format⦄ ⦃abi : Abi⦄ (answers : (c : Call) → Answer c) (b : Bundler)
    (base i : ℕ) (op : UserOpV07) where
  abbrev pub IsHashed : Type 0
  IsHashed = (hash : Hash) × (hash_answer answers b op ≡ inl hash)

  abbrev pub Decided : Type 0
  Decided =
      (IsPassing answers b base op × IsHashed) ⊎ ((e : BundlerError) × Fails answers b base i op e)

  decided_funded : IsPriced b.cfg base op → Fits op → IsFunded answers b op → Decided
  decided_funded priced fits funds =
      let now = answers unix_now in
      elim (sum-cases (simulation_answer answers b base i op)) [
        | inr (e, told) ↦ inr (_, not_simulated e priced fits funds told)
        | inl (raw, told) ↦ elim (Option-cases (objection raw now)) [
          | inr (v, bad) ↦ inr (_, rejected raw v priced fits funds told bad)
          | inl good ↦
              let passing : IsPassing answers b base op = record {
                priced = priced;
                fits = fits;
                funded = funds;
                result = raw;
                simulated = told;
                acceptable = (objection-none raw now).0 good;
              } in
              elim (sum-cases (hash_answer answers b op)) [
                | inr (e, hash) ↦ inr (_, no_hash e passing hash)
                | inl (hash, hashed) ↦ inl (passing, (hash, hashed))
              ]
        ]
      ]

  decided_fitting : IsPriced b.cfg base op → Fits op → Decided
  decided_fitting priced fits = elim (IsWhole-cases op.paymaster_and_data) [
    | inr (filled, short) ↦ inr (_, short_blob priced fits filled short)
    | inl whole ↦ elim (sum-cases (balance_answer answers b base i op)) [
      | inr (e, told) ↦ inr (_, no_balance e priced fits whole told)
      | inl (deposit, told) ↦ elim (Bool-cases (ltb deposit (cost op))) [
        | inl poor ↦
            inr (_, too_poor deposit priced fits whole told (ltb→lt deposit (cost op) poor))
        | inr enough ↦ decided_funded priced fits (record {
          whole = whole;
          deposit = deposit;
          deposited = told;
          covered = ltb→le deposit (cost op) enough;
        })
      ]
    ]
  ]

  -- An operation passes, or there is a failure of it.
  pub decided : IsU256 base → IsU256 b.cfg.min_priority_fee_wei → Decided
  decided hb hm = elim (result_cases (check_per_op_fees b.cfg i op base)) [
    | inr (inl (e, bad)) ↦ inr (e, unpriced e bad)
    | inr (inr (m, bad)) ↦ absurd (fees-ne-panic b.cfg i base op m bad)
    | inl (_, good) ↦
        let priced = (check_per_op_fees-ok_iff b.cfg i base op hb hm).0 good in
        elim (Option-cases (first_wide (packed_numbers op))) [
          | inr (field, wide) ↦ inr (_, too_wide field priced wide)
          | inl none_wide ↦
              decided_fitting priced ((first_wide-none (packed_numbers op)).0 none_wide)
        ]
  ]
