-- ===== src/Bundler/Pipeline/Checks.antt =====
-- The loop over the operations of a batch.
use ethera_bundler.Base.{
  ℕ, ◌<◌, ◌+◌, ◌≡◌, ◌≢◌, refl, sym, String, Bool, false, List, [], ◌∷◌, ◌++◌, map, none, Result, ok,
  err, panic, map_err, arith, length, length-append, All, All-append, inl, inr,
}
use mathlib.Core.List.{map-append, append_assoc, append-nil}
use ethera_bundler.Base.Bytes.{Bytes}
use ethera_bundler.Alloy.{Uint, u128_mod, Address}
use ethera_bundler.Config.{BundlerConfig}
use ethera_bundler.Contracts.{PackedUserOperation, Abi}
use ethera_bundler.Types.{UserOpV07, IsUserOp, IsU256}
use ethera_bundler.Packing.{PackError, parse_paymaster_and_data}
use ethera_bundler.Packing
use ethera_bundler.Packing.Fields.{pack-ne-panic}
use ethera_bundler.Packing.Blob.{parse_paymaster_and_data-ne-panic}
use ethera_bundler.Provider.{balance_of, user_op_hash}
use ethera_bundler.Validator
use ethera_bundler.Validator.{simulate, judge}
use ethera_bundler.Validator.Verdict.{judge-ne-panic}
use ethera_bundler.Program.{Program, done, continue}
use ethera_bundler.Program.Laws.{Safe, Safe-bind, Safe-continue, Safe-call}
use ethera_bundler.Errors.{Format, BundlerError, pack, validation, provider}
use ethera_bundler.Bundler.Policy.Outer.{u128_from_u256-eq-ok}
use ethera_bundler.Bundler.Policy.{
  u128_from_u256, check_per_op_fees, check_deposit, required_prefund, sponsor_of, update_min,
}
use ethera_bundler.Bundler.Policy.Fees.{IsPriced, check_per_op_fees-ok_iff, least, update_min-least}
use ethera_bundler.Bundler.Pipeline.{Bundler, Batch, lift, check_prefund, check_op, check_ops}
use ethera_bundler.Bundler.Pipeline.Stage.{Stage, discipline}

map_err-eq-panic :
    {E F A : Type 0} (g : E → F) (r : Result E A) (m : String) → map_err g r ≡ panic m → r ≡ panic m
map_err-eq-panic g (ok a) m h = cc
map_err-eq-panic g (err e) m h = cc
map_err-eq-panic g (panic n) m h = cc

pub map_err-eq-ok :
    {E F A : Type 0} (g : E → F) (r : Result E A) (a : A) → map_err g r ≡ ok a → r ≡ ok a
map_err-eq-ok g (ok b) a h = cc
map_err-eq-ok g (err e) a h = cc
map_err-eq-ok g (panic n) a h = cc

-- The variables of the loop after one more operation.
abbrev pub with_op : Batch → UserOpV07 → PackedUserOperation → Bytes → Batch
with_op batch op p hash = record {
  packed_ops = batch.packed_ops ++ (p ∷ []);
  user_op_hashes = batch.user_op_hashes ++ (hash ∷ []);
  min_user_tip = update_min batch.min_user_tip op.max_priority_fee_per_gas;
  min_user_fee_cap = update_min batch.min_user_fee_cap op.max_fee_per_gas;
}

-- The tips and the fee caps of a batch.
abbrev pub tips_of : List UserOpV07 → List ℕ
tips_of ops = map (λ op. op.max_priority_fee_per_gas) ops

abbrev pub caps_of : List UserOpV07 → List ℕ
caps_of ops = map (λ op. op.max_fee_per_gas) ops

-- What the loop has gathered from the operations that it has passed.
pub record IsBatch ⦃u : Uint⦄ (cfg : BundlerConfig) (base : ℕ) (past : List UserOpV07)
    (batch : Batch) : Type 0 where
  pub packed : map Packing.pack past ≡ map ok batch.packed_ops
  pub hashes : length batch.user_op_hashes ≡ length past
  pub tips : batch.min_user_tip ≡ least (tips_of past)
  pub caps : batch.min_user_fee_cap ≡ least (caps_of past)
  pub priced : All (IsPriced cfg base) past

u128_from_u256-ne-panic : (v : ℕ) (field m : String) → u128_from_u256 v field ≢ panic m
unfolding u128_from_u256
u128_from_u256-ne-panic v field m e = ground arith

-- A conversion to 128 bits: it fails with an error, or the number fits and stays the same.
pub u128-elim :
    (Q : Result BundlerError ℕ → Type 0) (v : ℕ) (field : String)
    → ((e : BundlerError) → Q (err e))
    → (v < u128_mod → Q (ok v))
    → Q (u128_from_u256 v field)
u128-elim Q v field he ho = split (u128_from_u256 v field) refl
  where
    split : (r : Result BundlerError ℕ) → u128_from_u256 v field ≡ r → Q r
    split (ok n) h =
        rw (sym (u128_from_u256-eq-ok v field h).1) (ho (u128_from_u256-eq-ok v field h).0)
    split (err e) h = he e
    split (panic m) h = absurd (u128_from_u256-ne-panic v field m h)

module _ ⦃u : Uint⦄ ⦃f : Format⦄ (cfg : BundlerConfig) where
  pub fees-ne-panic :
      (i base : ℕ) (op : UserOpV07) (m : String) → check_per_op_fees cfg i op base ≢ panic m
  unfolding check_per_op_fees
  fees-ne-panic i base op m e = ground arith

  deposit-ne-panic :
      (i : ℕ) (sponsor : Address) (required deposit : ℕ) (m : String)
      → check_deposit cfg i sponsor required deposit ≢ panic m
  unfolding check_deposit
  deposit-ne-panic i sponsor required deposit m e = ground arith

result-elim :
    {E A : Type 0} (Q : Result E A → Type 0) (r : Result E A)
    → ((e : E) → Q (err e))
    → ((m : String) → r ≢ panic m)
    → ((a : A) → r ≡ ok a → Q (ok a))
    → Q r
result-elim Q (ok a) he hp ha = ha a refl
result-elim Q (err e) he hp ha = he e
result-elim Q (panic m) he hp ha = absurd (hp m refl)

module _ ⦃u : Uint⦄ ⦃f : Format⦄ ⦃abi : Abi⦄ (b : Bundler) (submit : Bool) (s : Stage)
    (free : s.held ≡ false) (unsent : s.sent ≡ none) where
  -- The prefund check leaves the stage as it is and does not panic.
  check_prefund-Safe :
      (Q : Stage → Result BundlerError (Unit {0}) → Type 0) (i : ℕ) (op : UserOpV07)
      (p : PackedUserOperation)
      → ((e : BundlerError) → Q s (err e))
      → Q s (ok tt)
      → Safe (discipline b submit) s (check_prefund b i op p) Q
  unfolding check_prefund
  check_prefund-Safe Q i op p he ho =
      let blob = p.paymaster_and_data in
      Safe-continue (discipline b submit) Q s _ (map_err pack (parse_paymaster_and_data blob))
        (λ e _. he e)
        (λ m h. absurd (
          parse_paymaster_and_data-ne-panic blob m
            (map_err-eq-panic pack (parse_paymaster_and_data blob) m h)))
        (λ parsed _.
          let (sponsor, ver, post) = sponsor_of op parsed in
          let required : ℕ = required_prefund op ver post in
          Safe-call (discipline b submit) Q s provider (balance_of b.cfg.entrypoint_address sponsor)
            (λ deposit. lift (check_deposit b.cfg i sponsor required deposit)) (free, unsent)
            (λ e. he (provider e))
            (λ deposit _.
              result-elim (Q s) (check_deposit b.cfg i sponsor required deposit) he
                (deposit-ne-panic b.cfg i sponsor required deposit) (λ _ _. ho)))

  -- What follows the packing of an operation: prefund, simulation and hash.
  check_op-Safe :
      (Q : Stage → Result BundlerError Batch → Type 0) (base now i : ℕ) (op : UserOpV07)
      (batch : Batch)
      → IsUserOp op
      → ((e : BundlerError) → Q s (err e))
      → ((p : PackedUserOperation) (hash : Bytes)
          → check_per_op_fees b.cfg i op base ≡ ok tt
          → Packing.pack op ≡ ok p
          → Q s (ok (with_op batch op p hash)))
      → Safe (discipline b submit) s (check_op b base now i op batch) Q
  unfolding check_op simulate
  check_op-Safe Q base now i op batch w he ho =
      let P = discipline b submit in
      Safe-continue P Q s _ (check_per_op_fees b.cfg i op base) (λ e _. he e)
        (λ m h. absurd (fees-ne-panic b.cfg i base op m h))
        (λ _ priced.
          Safe-continue P Q s _ (map_err pack (Packing.pack op)) (λ e _. he e)
            (λ m h. absurd (pack-ne-panic op w m (map_err-eq-panic pack (Packing.pack op) m h)))
            (λ p packed. Safe-bind P Q s (check_prefund b i op p) _ (
              check_prefund-Safe (λ t r. Safe P t (continue _ r) Q) i op p he
                (
                  (free, unsent),
                  elim [
                    | inr e ↦ λ _. he (validation (Validator.provider e))
                    | inl raw ↦ λ _.
                        Safe-continue P Q s _ (map_err validation (judge raw now)) (λ e _. he e)
                          (λ m h. absurd (
                            judge-ne-panic raw now m
                              (map_err-eq-panic validation (judge raw now) m h)))
                          (λ _ _.
                            Safe-call P Q s provider (user_op_hash b.cfg.entrypoint_address p)
                              (λ hash. done (ok (with_op batch op p hash))) (free, unsent)
                              (λ e. he (provider e))
                              (λ hash _.
                                ho p hash priced (map_err-eq-ok pack (Packing.pack op) p packed)))
                  ],
                ))))

module _ ⦃u : Uint⦄ (cfg : BundlerConfig) (base : ℕ) where
  with_op-IsBatch :
      (past : List UserOpV07) (batch : Batch) (op : UserOpV07) (p : PackedUserOperation)
      (hash : Bytes)
      → IsBatch cfg base past batch
      → IsPriced cfg base op
      → Packing.pack op ≡ ok p
      → IsBatch cfg base (past ++ (op ∷ [])) (with_op batch op p hash)
  with_op-IsBatch past batch op p hash w priced e = record {
    packed = rw (map-append (Packing.pack) past (op ∷ []), map-append, w.packed, e) refl;
    hashes = rw (length-append past (op ∷ []), length-append, w.hashes) refl;
    tips = rw (map-append, w.tips) (update_min-least (tips_of past) op.max_priority_fee_per_gas);
    caps = rw (map-append, w.caps) (update_min-least (caps_of past) op.max_fee_per_gas);
    priced = All-append (IsPriced cfg base) past (op ∷ []) w.priced (priced, tt);
  }

module _ ⦃u : Uint⦄ ⦃f : Format⦄ ⦃abi : Abi⦄ (b : Bundler) (submit : Bool) (s : Stage)
    (free : s.held ≡ false) (unsent : s.sent ≡ none) where
  -- The loop broadcasts nothing and does not panic, and a batch that passes it is gathered from all
  -- of its operations.
  pub check_ops-Safe :
      (Q : Stage → Result BundlerError Batch → Type 0) (base now i : ℕ) (past ops : List UserOpV07)
      (batch : Batch)
      → IsU256 base
      → IsU256 b.cfg.min_priority_fee_wei
      → All IsUserOp ops
      → IsBatch b.cfg base past batch
      → ((e : BundlerError) → Q s (err e))
      → ((batch' : Batch) → IsBatch b.cfg base (past ++ ops) batch' → Q s (ok batch'))
      → Safe (discipline b submit) s (check_ops b base now i ops batch) Q
  unfolding check_ops
  check_ops-Safe Q base now i past [] batch hb hm w g he ho = ho batch (rw append-nil g)
  check_ops-Safe Q base now i past (op ∷ ops) batch hb hm w g he ho =
      let P = discipline b submit in
      let rest : Batch → Program (Result BundlerError Batch) = check_ops b base now (i + 1) ops in
      Safe-bind P Q s (check_op b base now i op batch) (continue rest) (
        check_op-Safe b submit s free unsent (λ t r. Safe P t (continue rest r) Q) base now i op
          batch w.0 he
          (λ p hash fees packed.
            check_ops-Safe Q base now (i + 1) (past ++ (op ∷ [])) ops (with_op batch op p hash) hb
              hm w.1
              (with_op-IsBatch b.cfg base past batch op p hash g
                ((check_per_op_fees-ok_iff b.cfg i base op hb hm).0 fees) packed)
              he (λ batch' g'. ho batch' (rw (sym (append_assoc past (op ∷ []) ops)) g'))))
