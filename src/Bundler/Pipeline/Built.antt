-- ===== src/Bundler/Pipeline/Built.antt =====
-- `build_inner` behind its tests of the request: from the base fee to the response.
use ethera_bundler.Base.{
  ℕ, ◌+◌, ◌≤◌, ◌≡◌, refl, min, Bool, true, false, List, [], ◌∷◌, map, All, length, none, some,
  Result, ok, err, panic, if◌then◌else◌, inl, inr, arith,
}
use ethera_bundler.Alloy.{Uint}
use ethera_bundler.Contracts.{Abi, PackedUserOperation}
use ethera_bundler.Types.{UserOpV07, SignedTxResp, IsUserOp, IsU256}
use ethera_bundler.Packing
use ethera_bundler.Signer.{TxEnvelope}
use ethera_bundler.Program.{Program, done, continue, bind}
use ethera_bundler.Program.Laws.{Safe, Safe-bind}
use ethera_bundler.Errors.{Format, BundlerError}
use ethera_bundler.Bundler.Policy.{gas_with_margin}
use ethera_bundler.Bundler.Policy.Fees.{IsPriced, least, u256_max}
use ethera_bundler.Bundler.Policy.Outer.{outer_tip}
use ethera_bundler.Bundler.Pipeline.{
  Bundler, Batch, no_ops, Outer, check_ops, prepare, finish, response, build_batch,
}
use ethera_bundler.Bundler.Pipeline.Stage.{Stage, start, discipline}
use ethera_bundler.Bundler.Pipeline.Checks.{tips_of, caps_of, IsBatch, check_ops-Safe}
use ethera_bundler.Bundler.Pipeline.Build.{IsTimely, IsConfirmed, IsFinished}
use ethera_bundler.Bundler.Pipeline.Receipt.{finish-Safe}
use ethera_bundler.Bundler.Pipeline.Prepare.{outer_of, prepare-Safe}

-- A response and what it was built from: the answers of the node as the stage holds them, and the
-- operations.
pub record IsBuilt ⦃u : Uint⦄ ⦃abi : Abi⦄ (b : Bundler) (ops : List UserOpV07) (submit : Bool)
    (t : Stage) (resp : SignedTxResp) : Type 0 where
  pub base : ℕ
  pub base_read : t.base ≡ some base
  pub suggested : ℕ
  pub suggested_read : t.suggested ≡ some suggested
  pub estimate : ℕ
  pub estimate_read : t.estimate ≡ some estimate
  pub nonce : ℕ
  pub nonce_read : t.nonce ≡ some nonce
  pub packed_ops : List PackedUserOperation
  pub packed : map Packing.pack ops ≡ map ok packed_ops
  pub priced : All (IsPriced b.cfg base) ops
  pub min_tip : ℕ
  pub min_tip_least : least (tips_of ops) ≡ some min_tip
  pub tip : resp.max_priority_fee_per_gas ≡ outer_tip b.cfg suggested min_tip
  pub cap : least (caps_of ops) ≡ some resp.max_fee_per_gas
  pub covers : base + resp.max_priority_fee_per_gas ≤ resp.max_fee_per_gas
  pub gas : resp.gas ≡ gas_with_margin estimate b.cfg.gas_margin_pct
  pub to : resp.to ≡ b.cfg.entrypoint_address
  pub chain_id : resp.chain_id ≡ b.cfg.chain_id
  pub hashes : length resp.user_op_hashes ≡ length ops
  pub signed :
      t.signed
      ≡ some (
        record {
          chain_id = resp.chain_id;
          nonce = nonce;
          gas_limit = resp.gas;
          max_fee_per_gas = resp.max_fee_per_gas;
          max_priority_fee_per_gas = resp.max_priority_fee_per_gas;
          to = resp.to;
          value = 0;
          input = abi.encode_handle_ops packed_ops b.signer_address;
        },
        record { encoded_2718 = resp.raw; tx_hash = resp.hash },
      )
  pub sent : t.sent ≡ (if submit then some resp.raw else none)
  pub confirmed : submit ≡ true → IsConfirmed t resp.hash

-- How a request may end: the lock is free, and there is no panic; after an error in sign-only mode
-- nothing was broadcast, and in submit mode only after an error of the node, of the receipt or of the
-- transaction; a response is built from the answers and the operations.
abbrev pub Ends :
    ⦃u : Uint⦄
    → ⦃abi : Abi⦄ → Bundler
    → List UserOpV07
    → Bool
    → Stage
    → Result BundlerError SignedTxResp
    → Type 0
Ends b ops submit t (ok resp) = (t.held ≡ false) × IsBuilt b ops submit t resp
Ends b ops submit t (err e) = (t.held ≡ false) × (submit ≡ false → t.sent ≡ none) × IsTimely t e
Ends b ops submit t (panic m) = ⊥

module _ ⦃u : Uint⦄ ⦃f : Format⦄ ⦃abi : Abi⦄ (b : Bundler) (submit : Bool) (op : UserOpV07)
    (ops : List UserOpV07) (hm : IsU256 b.cfg.min_priority_fee_wei) (w : All IsUserOp (op ∷ ops))
    (base suggested : ℕ) (hb : IsU256 base) where
  abbrev ready : Stage
  ready = record start { base = some base; suggested = some suggested }

  finished-IsBuilt :
      (batch : Batch) (estimate min_tip min_cap : ℕ) (t : Stage) (envelope : TxEnvelope)
      → IsBatch b.cfg base (op ∷ ops) batch
      → least (tips_of (op ∷ ops)) ≡ some min_tip
      → least (caps_of (op ∷ ops)) ≡ some min_cap
      → min (base + outer_tip b.cfg suggested min_tip) u256_max ≤ min_cap
      → let outer = outer_of b batch suggested estimate min_tip min_cap in
        IsFinished b submit outer (record ready { estimate = some estimate }) t envelope
        → IsBuilt b (op ∷ ops) submit t (response b outer batch envelope)
  finished-IsBuilt batch estimate mt mc t envelope g et ec covers d = record {
    base = base;
    base_read = d.base;
    suggested = suggested;
    suggested_read = d.suggested;
    estimate = estimate;
    estimate_read = d.estimate;
    nonce = d.nonce;
    nonce_read = d.read;
    packed_ops = batch.packed_ops;
    packed = g.packed;
    priced = g.priced;
    min_tip = mt;
    min_tip_least = et;
    tip = refl;
    cap = ec;
    covers = omega (arith, d.narrow, covers);
    gas = refl;
    to = refl;
    chain_id = refl;
    hashes = g.hashes;
    signed = d.signed;
    sent = d.sent;
    confirmed = d.confirmed;
  }

  abbrev respond : Outer → Batch → TxEnvelope → Program (Result BundlerError SignedTxResp)
  respond outer batch envelope = done (ok (response b outer batch envelope))

  abbrev complete : Batch → Outer → Program (Result BundlerError SignedTxResp)
  complete batch outer = bind (finish b submit outer) (continue (respond outer batch))

  -- From the loop's result to the response.
  tail-Safe :
      (batch : Batch)
      → IsBatch b.cfg base (op ∷ ops) batch
      → Safe
          (discipline b submit)
          ready
          (bind (prepare b base suggested batch) (continue (complete batch)))
          (Ends b (op ∷ ops) submit)
  tail-Safe batch g =
      let P = discipline b submit in
      let Q : Stage → Result BundlerError SignedTxResp → Type 0 = Ends b (op ∷ ops) submit in
      Safe-bind P Q ready (prepare b base suggested batch) (continue (complete batch)) (
        prepare-Safe b submit (λ t r. Safe P t (continue (complete batch) r) Q) ready base suggested
          batch op ops refl refl hb w.0 g (λ t h n e. (h, λ _. n, inl n))
          (λ estimate mt mc et ec covers.
            let outer = outer_of b batch suggested estimate mt mc in
            let t : Stage = record ready { estimate = some estimate } in
            Safe-bind P Q t (finish b submit outer) (continue (respond outer batch)) (
              finish-Safe b outer t refl refl refl submit
                (λ t r. Safe P t (continue (respond outer batch) r) Q) (λ t h n e l. (h, n, l))
                (λ t' envelope d. (
                  d.released,
                  finished-IsBuilt batch estimate mt mc t' envelope g et ec covers d,
                )))))

  loop-Safe :
      (now : ℕ)
      → Safe
          (discipline b submit)
          ready
          (bind
            (check_ops b base now 0 (op ∷ ops) no_ops)
            (continue (λ batch. bind (prepare b base suggested batch) (continue (complete batch)))))
          (Ends b (op ∷ ops) submit)
  loop-Safe now =
      let P = discipline b submit in
      let Q : Stage → Result BundlerError SignedTxResp → Type 0 = Ends b (op ∷ ops) submit in
      let rest : Batch → Program (Result BundlerError SignedTxResp) =
        λ batch. bind (prepare b base suggested batch) (continue (complete batch)) in
      Safe-bind P Q ready (check_ops b base now 0 (op ∷ ops) no_ops) (continue rest) (
        check_ops-Safe b submit ready refl refl (λ t r. Safe P t (continue rest r) Q) base now 0 []
          (op ∷ ops) no_ops hb hm w
          (record { packed = refl; hashes = refl; tips = refl; caps = refl; priced = tt })
          (λ e. (refl, λ _. refl, inl refl)) (λ batch g. tail-Safe batch g))

module _ ⦃u : Uint⦄ ⦃f : Format⦄ ⦃abi : Abi⦄ (b : Bundler)
    (hm : IsU256 b.cfg.min_priority_fee_wei) where
  pub build_batch-Safe :
      (op : UserOpV07) (ops : List UserOpV07) (submit : Bool)
      → All IsUserOp (op ∷ ops)
      → Safe
          (discipline b submit)
          start
          (build_batch b (op ∷ ops) submit)
          (Ends b (op ∷ ops) submit)
  unfolding build_batch
  build_batch-Safe op ops submit w = (
    (refl, refl),
    elim [
      | inr e ↦ λ _. (refl, λ _. refl, inl refl)
      | inl base ↦ λ hb. (
        (refl, refl),
        elim [
          | inr e ↦ λ _. (refl, λ _. refl, inl refl)
          | inl suggested ↦ λ _. (tt, λ now _. loop-Safe b submit op ops hm w base suggested hb now)
        ],
      )
    ],
  )
