-- ===== src/Startup/Probe.antt =====
-- When the probes pass.
use mathlib.Core.Path.{subst}
use ethera_bundler.Base.{
  ℕ, ◌≡◌, ◌≢◌, ◌↔◌, refl, Bool-cases, [], ◌∷◌, Result, ok, ◌⊎◌, inl, inr, true, false, ltb, ◌==◌,
  arith,
}
use ethera_bundler.Base.Bytes.{Bytes}
use ethera_bundler.Alloy.{Address}
use ethera_bundler.Provider.{ProviderError, Query, Reply, chain_id, get_code, balance}
use ethera_bundler.Program.{Program, query, continue, ◌>>=◌, call, answered, World, Log, run}
use ethera_bundler.Startup.{
  failed, one_eth_wei, is_empty, judge_balance, judge_code, judge_chain, probe,
}

-- The program ends with a value.
abbrev pub Succeeds : {E A : Type 0} → World → Program (Result E A) → Log → Type 0
Succeeds {A} world p log = (a : A) × ((run world p log).0 ≡ ok a)

module _ {E A : Type 0} (convert : ProviderError → E) (q : Query)
    (f : Reply q → Program (Result E A)) (world : World) (log : Log) where
  from-answer :
      (r : Reply q ⊎ ProviderError)
      → Succeeds world (continue f (answered convert r)) ((query q, r) ∷ log)
        ↔ ((a : Reply q) × (r ≡ inl a) × Succeeds world (f a) ((query q, inl a) ∷ log))
  from-answer (inl a) = (
    λ h. (a, refl, h),
    λ (a', e, h).
        let same : a' ≡ a = cc in subst (λ x. Succeeds world (f x) ((query q, inl x) ∷ log)) same h,
  )
  from-answer (inr e) = (λ (a, h). cc, λ (a', h, _). cc)

  Succeeds-call : Succeeds world (call convert q >>= f) log ↔ (
      (a : Reply q) × (world log (query q) ≡ inl a) × Succeeds world (f a) ((query q, inl a) ∷ log))
  Succeeds-call = from-answer (world log (query q))

is_empty-cases :
    (code : Bytes)
    → ((is_empty code ≡ true) × (code ≡ [])) ⊎ ((is_empty code ≡ false) × (code ≢ []))
is_empty-cases [] = inl (refl, refl)
is_empty-cases (b ∷ bs) = inr (refl, λ e. cc)

module _ (world : World) where
  judge_balance-Succeeds : (amount : ℕ) (log : Log) → Succeeds world (judge_balance amount) log
  unfolding judge_balance
  judge_balance-Succeeds amount log = elim (Bool-cases (ltb amount one_eth_wei)) [
    | inl e ↦ rw e (tt, refl)
    | inr e ↦ rw e (tt, refl)
  ]

module _ (world : World) (expected : ℕ) (entrypoint sequencer : Address) where
  -- The node has code at the entry point, and tells the sequencer's balance.
  pub record IsDeployed (code : Bytes) (log : Log) : Type 0 where
    pub not_empty : code ≢ []
    pub amount : ℕ
    pub funds : world log (query (balance sequencer)) ≡ inl amount

  pub Succeeds-judge_code :
      (code : Bytes) (log : Log)
      → Succeeds world (judge_code expected entrypoint sequencer code) log ↔ IsDeployed code log
  unfolding judge_code
  Succeeds-judge_code code log =
      let (from, to) =
        Succeeds-call (failed "eth_getBalance(sequencer) probe failed") (balance sequencer)
          judge_balance world log in
      elim (is_empty-cases code) [
        | inl (e, none) ↦ rw e (λ (a, h). cc, λ h. absurd (h.not_empty none))
        | inr (e, some) ↦ rw e (
          λ h.
              let (amount, funds, _) = from h in
              record { not_empty = some; amount = amount; funds = funds },
          λ h. to (h.amount, h.funds, judge_balance-Succeeds world h.amount _),
        )
      ]

  -- The node has a contract at the entry point.
  abbrev HasContract : Log → Type 0
  HasContract log =
      (code : Bytes) × (world log (query (get_code entrypoint)) ≡ inl code)
      × IsDeployed code ((query (get_code entrypoint), inl code) ∷ log)

  -- The node is on the expected chain, and the contract is deployed on it.
  pub record IsReady (log : Log) : Type 0 where
    pub on_chain : world log (query chain_id) ≡ inl expected
    pub contract : HasContract ((query chain_id, inl expected) ∷ log)

  Succeeds-judge_chain :
      (actual : ℕ) (log : Log)
      → Succeeds world (judge_chain expected entrypoint sequencer actual) log
        ↔ ((actual ≡ expected) × HasContract log)
  unfolding judge_chain
  Succeeds-judge_chain actual log =
      let (from, to) =
        Succeeds-call (failed "eth_getCode(entrypoint) probe failed") (get_code entrypoint)
          (judge_code expected entrypoint sequencer) world log in
      elim (Bool-cases (actual == expected)) [
        | inl same ↦ rw same (
          λ h.
              let (code, fetched, rest) = from h in
              (ground arith, (code, fetched, (Succeeds-judge_code code _).0 rest)),
          λ (e, (code, fetched, deployed)).
              to (code, fetched, (Succeeds-judge_code code _).1 deployed),
        )
        | inr other ↦ rw other (λ (a, h). cc, λ (e, h). absurd (ground (arith, e)))
      ]

  ready :
      (actual : ℕ) (log : Log)
      → world log (query chain_id) ≡ inl actual
      → actual ≡ expected
      → HasContract ((query chain_id, inl actual) ∷ log)
      → IsReady log
  ready actual log answer same h = record {
    on_chain = rw (← same) answer;
    contract = subst (λ n. HasContract ((query chain_id, inl n) ∷ log)) same h;
  }

  -- Exactly when the node is ready the probes pass.
  pub Succeeds-probe :
      (log : Log) → Succeeds world (probe expected entrypoint sequencer) log ↔ IsReady log
  unfolding probe
  Succeeds-probe log =
      let (from, to) =
        Succeeds-call (failed "eth_chainId probe failed") chain_id
          (judge_chain expected entrypoint sequencer) world log in
      (
        λ h.
            let (actual, answer, rest) = from h in
            let (same, contract) = (Succeeds-judge_chain actual _).0 rest in
            ready actual log answer same contract,
        λ h. to (expected, h.on_chain, (Succeeds-judge_chain expected _).1 (refl, h.contract)),
      )
