-- ===== src/Bundler/Concurrent/Progress.antt =====
-- Concurrent requests come to an end: no schedule goes on for ever, and none gets stuck.
use mathlib.Core.Path.{subst}
use mathlib.Core.WellFounded.{Acc}
use ethera_bundler.Base.{
  ℕ, ◌≤◌, ◌≡◌, refl, ap, Bool, true, false, Bool-cases, List, [], ◌∷◌, ◌++◌, All, ◌⊎◌, inl, inr,
  arith,
}
use ethera_bundler.Base.Bytes.{Bytes}
use ethera_bundler.Alloy.{Uint}
use ethera_bundler.Contracts.{Abi}
use ethera_bundler.Types.{IsUserOp, IsU256}
use ethera_bundler.Errors.{Format}
use ethera_bundler.Provider.{
  empty_call, chain_id, balance, get_code, base_fee, max_priority_fee, pending_nonce, balance_of,
  user_op_hash, estimate_handle_ops_gas, send_raw_transaction, wait_for_receipt,
  try_call_for_revert, simulate_validation,
}
use ethera_bundler.Signer.{signing}
use ethera_bundler.Program.{
  Call, Answer, done, ask, query, unix_now, sign_eip1559, lock, unlock, warn, Log,
}
use ethera_bundler.Bundler.Pipeline.{Bundler}
use ethera_bundler.Program.Laws.{Safe}
use ethera_bundler.Bundler.Pipeline.Stage.{Stage, discipline, Possible}
use ethera_bundler.Bundler.Pipeline.Requests.{held_count}
use ethera_bundler.Bundler.Pipeline.Cancel.{cancelled-free, EndsOrCancelled}
use ethera_bundler.Bundler.Concurrent.{
  Request, Task, Shared, System, Effect, Step, turn, Reach, init,
}
use ethera_bundler.Bundler.Concurrent.Invariant.{holders, stage_of, Keeps, Inv, Reach-Inv}
use ethera_bundler.Bundler.Concurrent.Safety.{init-Inv}
use ethera_bundler.Bundler.Concurrent.Schedules.{Rest, IsDone, Follows, Follows-Acc}

module _ (nonce_of : Bytes → ℕ) where
  -- Every call can be answered, a lock only while it is free.
  answerable :
      (s : Shared) (c : Call)
      → (c ≡ lock → s.locked ≡ false)
      → (r : Answer c) × (t : Shared) × Possible c r × Effect nonce_of s c r t
  answerable s (query chain_id) free = (inr empty_call, s, tt, refl)
  answerable s (query base_fee) free = (inr empty_call, s, tt, refl)
  answerable s (query max_priority_fee) free = (inr empty_call, s, tt, refl)
  answerable s (query (estimate_handle_ops_gas _ _ _)) free = (inr empty_call, s, tt, refl)
  answerable s (query (balance _)) free = (inr empty_call, s, tt, refl)
  answerable s (query (get_code _)) free = (inr empty_call, s, tt, refl)
  answerable s (query (balance_of _ _)) free = (inr empty_call, s, tt, refl)
  answerable s (query (user_op_hash _ _)) free = (inr empty_call, s, tt, refl)
  answerable s (query (wait_for_receipt _ _)) free = (inr empty_call, s, tt, refl)
  answerable s (query (try_call_for_revert _ _ _)) free = (inr empty_call, s, tt, refl)
  answerable s (query (simulate_validation _ _ _)) free = (inr empty_call, s, tt, refl)
  answerable s (query (pending_nonce _)) free = (inr empty_call, s, tt, refl)
  answerable s (query (send_raw_transaction raw)) free = (inr empty_call, s, tt, inl refl)
  answerable s unix_now free = (0, s, tt, refl)
  answerable s (sign_eip1559 tx) free = (inr (signing ""), s, tt, refl)
  answerable s lock free = (tt, record s { locked = true }, tt, (free refl, refl))
  answerable s unlock free = (tt, record s { locked = false }, tt, refl)
  answerable s (warn _) free = (tt, s, tt, refl)

-- A task that awaits a call which can be answered.
record Ready (locked : Bool) (tasks : List Task) : Type 0 where
  front : List Task
  back : List Task
  request : Request
  log : Log
  c : Call
  k : Answer c → Rest
  at : tasks ≡ front ++ (record { request = request; log = log; rest = ask c k } ∷ back)
  free : c ≡ lock → locked ≡ false

later-Ready :
    (locked : Bool) (task : Task) (tasks : List Task)
    → Ready locked tasks
    → Ready locked (task ∷ tasks)
later-Ready locked task tasks h = record {
  front = task ∷ h.front;
  back = h.back;
  request = h.request;
  log = h.log;
  c = h.c;
  k = h.k;
  at = ap (λ ts. task ∷ ts) h.at;
  free = h.free;
}

Rest-cases : (p : Rest) → IsDone p ⊎ ((c : Call) × (k : Answer c → Rest) × (p ≡ ask c k))
Rest-cases (done a) = inl tt
Rest-cases (ask c k) = inr (c, k, refl)

here-Ready :
    (locked : Bool) (task : Task) (tasks : List Task) (c : Call) (k : Answer c → Rest)
    → task.rest ≡ ask c k
    → (c ≡ lock → locked ≡ false)
    → Ready locked (task ∷ tasks)
here-Ready locked task tasks c k e free = record {
  front = [];
  back = tasks;
  request = task.request;
  log = task.log;
  c = c;
  k = k;
  at = ap (λ p. record { request = task.request; log = task.log; rest = p } ∷ tasks) e;
  free = free;
}

-- With the lock free, any task that is not done is ready.
free-Ready : (tasks : List Task) → All (λ t. IsDone t.rest) tasks ⊎ Ready false tasks
free-Ready [] = inl tt
free-Ready (task ∷ tasks) = elim (Rest-cases task.rest) [
  | inr (c, k, e) ↦ inr (here-Ready false task tasks c k e (λ _. refl))
  | inl one ↦ elim (free-Ready tasks) [
    | inl all ↦ inl (one, all)
    | inr h ↦ inr (later-Ready false task tasks h)
  ]
]

module _ ⦃u : Uint⦄ ⦃f : Format⦄ ⦃abi : Abi⦄ (b : Bundler) where
  module _ (q : Request) (s : Stage) (held : s.held ≡ true) where
    -- A task that holds the lock is not done.
    holder-Asks :
        (rest : Rest)
        → Safe (discipline b q.opts.submit) s rest (EndsOrCancelled b q.ops q.opts.submit)
        → ¬ IsDone rest
    holder-Asks (done a) ends one =
        let idle : s.held ≡ false = cancelled-free b q.opts q.ops s a ends in cc
    holder-Asks (ask c k) safe one = elim one [ ]

    -- A task that holds the lock does not lock again.
    holder-Unlocks :
        (c : Call) (k : Answer c → Rest)
        → Safe (discipline b q.opts.submit) s (ask c k) (EndsOrCancelled b q.ops q.opts.submit)
        → ¬ (c ≡ lock)
    holder-Unlocks c k (allowed, next) l =
        let (m, idle, none_sent, fresh) : (discipline b q.opts.submit).allowed s lock =
          subst ((discipline b q.opts.submit).allowed s) l allowed in
        cc

  -- With the lock taken, the task that holds it is ready.
  holder-Ready : (tasks : List Task) → All (Keeps b) tasks → 1 ≤ holders b tasks → Ready true tasks
  holder-Ready [] h le = absurd (omega (arith, le))
  holder-Ready (task ∷ tasks) (h, hs) le = elim (Bool-cases (stage_of b task).held) [
    | inr idle ↦
        later-Ready true task tasks (holder-Ready tasks hs (omega (arith, le, ap held_count idle)))
    | inl held ↦ elim (Rest-cases task.rest) [
      | inl one ↦ absurd (holder-Asks task.request (stage_of b task) held task.rest h.1 one)
      | inr (c, k, e) ↦ here-Ready true task tasks c k e (λ l. absurd (
          holder-Unlocks task.request (stage_of b task) held c k
            (subst
              (λ p.
                Safe (discipline b task.request.opts.submit) (stage_of b task) p
                  (EndsOrCancelled b task.request.ops task.request.opts.submit))
              e h.1)
            l))
    ]
  ]

  module _ (nonce_of : Bytes → ℕ) where
    Ready-Step : (s : System) → Ready s.shared.locked s.tasks → (t : System) × Step nonce_of s t
    Ready-Step s h =
        let (r, v, possible, effect) = answerable nonce_of s.shared h.c h.free in
        (_, turn h.front h.back h.request h.log h.c h.k r v h.at possible effect)

    Inv-Ready :
        (locked : Bool) (tasks : List Task)
        → All (Keeps b) tasks
        → holders b tasks ≡ held_count locked
        → All (λ t. IsDone t.rest) tasks ⊎ Ready locked tasks
    Inv-Ready true tasks h e = inr (holder-Ready tasks h (omega (arith, e)))
    Inv-Ready false tasks h e = free-Ready tasks

    module _ (hm : IsU256 b.cfg.min_priority_fee_wei) (requests : List Request)
        (w : All (λ q. All IsUserOp q.ops) requests) where
      -- Concurrent requests cannot run for ever or block each other: from every moment that they
      -- can reach, every further schedule ends, and as long as some request has not ended, there
      -- is one that can go on, since whoever holds the lock never waits for it. This is for
      -- operations and a minimum fee in the ranges of their types.
      pub requests_end :
          {s : System}
          → Reach nonce_of (init b requests) s
          → Acc (Follows nonce_of) s
            × (All (λ t. IsDone t.rest) s.tasks ⊎ ((t : System) × Step nonce_of s t))
      requests_end {s} r =
          let inv : Inv b nonce_of s = Reach-Inv b nonce_of (init-Inv b nonce_of hm requests w) r in
          (
            Follows-Acc nonce_of s,
            elim (Inv-Ready s.shared.locked s.tasks inv.keeps inv.count) [
              | inl all ↦ inl all
              | inr h ↦ inr (Ready-Step s h)
            ],
          )
