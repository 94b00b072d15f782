-- ===== src/Bundler/Pipeline/Requests.antt =====
-- `build_inner` as a whole: what holds of its calls and its result, whatever the world answers.
use ethera_bundler.Base.{
  ℕ, ◌+◌, ◌≡◌, refl, Bool, ne→false, true, false, Bool-cases, List, [], ◌∷◌, All, length, Option,
  none, some, ltb, ◌==◌, inl, inr, arith,
}
use ethera_bundler.Base.Bytes.{Bytes}
use ethera_bundler.Alloy.{Uint}
use ethera_bundler.Contracts.{Abi}
use ethera_bundler.Types.{UserOpV07, BuildOpts, IsUserOp, IsU256}
use ethera_bundler.Provider.{
  chain_id, balance, get_code, base_fee, max_priority_fee, pending_nonce, balance_of, user_op_hash,
  estimate_handle_ops_gas, send_raw_transaction, wait_for_receipt, try_call_for_revert,
  simulate_validation,
}
use ethera_bundler.Program.{
  Call, Answer, query, unix_now, sign_eip1559, lock, unlock, warn, World, Log, run,
}
use ethera_bundler.Program.Laws.{Safe, run-Safe, replay, Obeyed, IsTyped}
use ethera_bundler.Errors.{Format}
use ethera_bundler.Bundler.Pipeline.{Bundler, build_inner}
use ethera_bundler.Bundler.Pipeline.Stage.{Stage, start, discipline}
use ethera_bundler.Bundler.Pipeline.Built.{Ends, build_batch-Safe}

-- The number of calls of a kind in a log.
abbrev pub count : (Call → ℕ) → Log → ℕ
count f [] = 0
count f ((c, r) ∷ log) = f c + count f log

abbrev pub is_broadcast : Call → ℕ
is_broadcast (query (send_raw_transaction raw)) = 1
is_broadcast _ = 0

abbrev pub is_lock : Call → ℕ
is_lock lock = 1
is_lock _ = 0

abbrev pub is_unlock : Call → ℕ
is_unlock unlock = 1
is_unlock _ = 0

abbrev pub sent_count : Option Bytes → ℕ
sent_count none = 0
sent_count (some raw) = 1

abbrev pub held_count : Bool → ℕ
held_count true = 1
held_count false = 0

module _ (b : Bundler) (submit : Bool) where
  unchanged :
      (s : Stage)
      → (0 + sent_count s.sent ≡ sent_count s.sent)
        × (0 + held_count s.held ≡ 0 + held_count s.held)
  unchanged s = (omega arith, refl)

  -- One allowed call: what it adds to the counts and to the stage.
  step :
      (s : Stage) (c : Call) (r : Answer c)
      → (discipline b submit).allowed s c
      → let t = (discipline b submit).after s c r in
        (is_broadcast c + sent_count s.sent ≡ sent_count t.sent)
        × (is_lock c + held_count s.held ≡ is_unlock c + held_count t.held)
  step s (query base_fee) (inl n) a = unchanged s
  step s (query base_fee) (inr e) a = unchanged s
  step s (query max_priority_fee) (inl n) a = unchanged s
  step s (query max_priority_fee) (inr e) a = unchanged s
  step s (query (estimate_handle_ops_gas _ _ _)) (inl n) a = unchanged s
  step s (query (estimate_handle_ops_gas _ _ _)) (inr e) a = unchanged s
  step s (query (pending_nonce _)) (inl n) a = unchanged s
  step s (query (pending_nonce _)) (inr e) a = unchanged s
  step s (query (balance_of _ _)) r a = unchanged s
  step s (query chain_id) r a = unchanged s
  step s (query (balance _)) r a = unchanged s
  step s (query (get_code _)) r a = unchanged s
  step s (warn _) r a = elim a [ ]
  step s (query (user_op_hash _ _)) r a = unchanged s
  step s (query (wait_for_receipt _ _)) (inl none) a = unchanged s
  step s (query (wait_for_receipt _ _)) (inl (some info)) a = unchanged s
  step s (query (wait_for_receipt _ _)) (inr e) a = unchanged s
  step s (query (try_call_for_revert _ _ _)) r a = unchanged s
  step s (query (simulate_validation _ _ _)) r a = unchanged s
  step s (query (send_raw_transaction raw)) r a = (rw a.first (omega arith), omega arith)
  step s (sign_eip1559 tx) (inl envelope) a = unchanged s
  step s (sign_eip1559 tx) (inr e) a = unchanged s
  step s unix_now r a = unchanged s
  step s lock r (m, f, n, o) = (omega arith, rw f (omega arith))
  step s unlock r a = (omega arith, rw a (omega arith))

  pub counted :
      (log : Log)
      → Obeyed (discipline b submit) start log
      → let t = replay (discipline b submit) start log in
        (count is_broadcast log ≡ sent_count t.sent)
        × (count is_lock log ≡ count is_unlock log + held_count t.held)
  counted [] h = (refl, refl)
  counted ((c, r) ∷ log) (a, h) =
      let s = replay (discipline b submit) start log in
      let (sends, locks) = counted log h in
      let (sends', locks') = step s c r a in
      (omega (arith, sends, sends'), omega (arith, locks, locks'))

  pub counted_sign_only :
      (log : Log)
      → submit ≡ false
      → Obeyed (discipline b submit) start log
      → (count is_broadcast log ≡ 0) × (count is_lock log ≡ 0)
  counted_sign_only [] e h = (refl, refl)
  counted_sign_only ((c, r) ∷ log) e (a, h) =
      let s = replay (discipline b submit) start log in
      let (sends, locks) = counted_sign_only log e h in
      let (sends', locks') = quiet s c a e in
      (omega (arith, sends, sends'), omega (arith, locks, locks'))
    where
      quiet :
          (s : Stage) (c : Call)
          → (discipline b submit).allowed s c
          → submit ≡ false
          → (is_broadcast c ≡ 0) × (is_lock c ≡ 0)
      quiet s (query (send_raw_transaction raw)) a e = let m = a.submits in cc
      quiet s (query base_fee) a e = (refl, refl)
      quiet s (query max_priority_fee) a e = (refl, refl)
      quiet s (query (estimate_handle_ops_gas _ _ _)) a e = (refl, refl)
      quiet s (query (pending_nonce _)) a e = (refl, refl)
      quiet s (query (balance_of _ _)) a e = (refl, refl)
      quiet s (query chain_id) a e = (refl, refl)
      quiet s (query (balance _)) a e = (refl, refl)
      quiet s (query (get_code _)) a e = (refl, refl)
      quiet s (warn _) a e = elim a [ ]
      quiet s (query (user_op_hash _ _)) a e = (refl, refl)
      quiet s (query (wait_for_receipt _ _)) a e = (refl, refl)
      quiet s (query (try_call_for_revert _ _ _)) a e = (refl, refl)
      quiet s (query (simulate_validation _ _ _)) a e = (refl, refl)
      quiet s (sign_eip1559 tx) a e = (refl, refl)
      quiet s unix_now a e = (refl, refl)
      quiet s unlock a e = (refl, refl)
      quiet s lock a e = let m = a.0 in cc

nonempty : (op : UserOpV07) (ops : List UserOpV07) → (length (op ∷ ops) == 0) ≡ false
nonempty op ops = ne→false (length (op ∷ ops)) 0 (λ z. omega (arith, z))

module _ ⦃u : Uint⦄ ⦃f : Format⦄ ⦃abi : Abi⦄ (b : Bundler) (opts : BuildOpts) where
  pub build_inner-Safe :
      (ops : List UserOpV07)
      → IsU256 b.cfg.min_priority_fee_wei
      → All IsUserOp ops
      → Safe (discipline b opts.submit) start (build_inner b ops opts) (Ends b ops opts.submit)
  unfolding build_inner
  build_inner-Safe [] hm w = elim (Bool-cases (opts.chain_id == b.cfg.chain_id)) [
    | inl e ↦ rw e (refl, λ _. refl, inl refl)
    | inr e ↦ rw e (refl, λ _. refl, inl refl)
  ]
  build_inner-Safe (op ∷ ops) hm w = elim (Bool-cases (opts.chain_id == b.cfg.chain_id)) [
    | inr e ↦ rw e (refl, λ _. refl, inl refl)
    | inl e ↦ elim (Bool-cases (ltb b.cfg.max_batch_size (length (op ∷ ops)))) [
      | inl e' ↦ rw (e, nonempty op ops, e') (refl, λ _. refl, inl refl)
      | inr e' ↦ rw (e, nonempty op ops, e') (build_batch-Safe b hm op ops opts.submit w)
    ]
  ]

  module _ (ops : List UserOpV07) (world : World) (hm : IsU256 b.cfg.min_priority_fee_wei)
      (w : All IsUserOp ops) (typed : IsTyped (discipline b opts.submit) world) where
    -- For operations and a minimum fee in the ranges of their types, and whatever the world answers
    -- within the types of the calls, a request makes only calls that the discipline allows at their
    -- place, does not panic, ends with the lock free, and returns an error or a response that is
    -- built from the operations and the answers.
    pub run-build_inner :
        let (r, log) = run world (build_inner b ops opts) [] in
        let P = discipline b opts.submit in
        Obeyed P start log × Ends b ops opts.submit (replay P start log) r
    run-build_inner =
        run-Safe (discipline b opts.submit) (Ends b ops opts.submit) world start
          (build_inner b ops opts) [] typed tt (build_inner-Safe ops hm w)
