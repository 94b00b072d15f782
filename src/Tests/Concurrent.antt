-- ===== src/Tests/Concurrent.antt =====
-- Two requests in flight: the first runs to its end while the second waits.
use ethera_bundler.Base.{
  ℕ, zero, suc, ◌≤◌, ◌<◌, ◌≡◌, refl, Bool, true, false, not, ◌&&◌, List, [], ◌∷◌, All, none, Result,
  ◌⊎◌, ltb, arith,
}
use ethera_bundler.Base.Bytes.{Bytes, slice}
use ethera_bundler.Alloy.Native.{bits, be_bytes}
use ethera_bundler.Types.{SignedTxResp}
use ethera_bundler.Errors.{BundlerError}
use ethera_bundler.Provider.{
  chain_id, balance, get_code, base_fee, max_priority_fee, pending_nonce, balance_of, user_op_hash,
  estimate_handle_ops_gas, send_raw_transaction, wait_for_receipt, try_call_for_revert,
  simulate_validation,
}
use ethera_bundler.Program.{
  Call, Program, done, ask, query, unix_now, sign_eip1559, lock, unlock, warn, Log,
}
use ethera_bundler.Packing.{
  pack, pack_init_code, pack_pair_to_bytes32, pack_paymaster, pack_paymaster_and_data,
  parse_paymaster_and_data,
}
use ethera_bundler.Validator.{
  simulate, judge, parse_window, signature_failed, requires_aggregator, is_out_of_time_range,
}
use ethera_bundler.Bundler.Policy.{
  required_prefund, sponsor_of, check_deposit, check_per_op_fees, update_min, gas_with_margin,
  choose_outer_fees, min_u256, max_u256, u128_from_u256,
}
use ethera_bundler.Bundler.Pipeline.{
  build_inner, build_batch, check_ops, check_op, check_prefund, prepare, finish, sign_and_send,
  sign_outer, check_receipt,
}
use ethera_bundler.Bundler.Pipeline.Shutdown.{build_signed_user_ops_tx}
use ethera_bundler.Bundler.Concurrent.{
  Request, Task, Shared, System, Effect, Step, turn, Reach, here, later, spawn, init,
}
use ethera_bundler.Bundler.Concurrent.Invariant.{holders}
use ethera_bundler.Bundler.Concurrent.Effects.{IsDescending}
use ethera_bundler.Bundler.Concurrent.Safety.{accepted-IsDescending}
use ethera_bundler.Bundler.Concurrent.Progress.{requests_end}
use ethera_bundler.Bundler.Concurrent.Schedules.{IsDone, Follows}
use ethera_bundler.Tests.Data.{
  uint, format, abi, bundler, options, ops, op-IsUserOp, answer, answer-Possible,
}
use mathlib.Core.WellFounded.{Acc}

-- The nonce in the bytes that the signer of the tests makes.
abbrev nonce_of : Bytes → ℕ
nonce_of (a ∷ n ∷ rest) = n
nonce_of _ = 0

abbrev all_below : ℕ → List ℕ → Bool
all_below n [] = true
all_below n (m ∷ ms) = ltb m n && all_below n ms

-- What the answers of the tests do to the shared state, and when they may be given.
abbrev perform : Shared → Call → Shared
perform s lock = record s { locked = true }
perform s unlock = record s { locked = false }
perform s (query (send_raw_transaction raw)) = record s { accepted = nonce_of raw ∷ s.accepted }
perform s _ = s

abbrev may : Shared → Call → Bool
may s lock = not s.locked
may s (query (pending_nonce a)) = all_below 12 s.accepted
may s _ = true

all_below-All : (n : ℕ) (ms : List ℕ) → all_below n ms ≡ true → All (λ m. m < n) ms
all_below-All n [] h = tt
all_below-All n (m ∷ ms) h = (ground (arith, h), all_below-All n ms (ground (arith, h)))

perform-Effect :
    (s : Shared) (c : Call) → may s c ≡ true → Effect nonce_of s c (answer c) (perform s c)
perform-Effect s lock h = (ground (arith, h), refl)
perform-Effect s unlock h = refl
perform-Effect s (sign_eip1559 tx) h = (refl, refl)
perform-Effect s unix_now h = refl
perform-Effect s (warn m) h = refl
perform-Effect s (query (pending_nonce a)) h = (all_below-All 12 s.accepted h, refl)
perform-Effect s (query (send_raw_transaction raw)) h = refl
perform-Effect s (query chain_id) h = refl
perform-Effect s (query base_fee) h = refl
perform-Effect s (query max_priority_fee) h = refl
perform-Effect s (query (estimate_handle_ops_gas _ _ _)) h = refl
perform-Effect s (query (balance _)) h = refl
perform-Effect s (query (get_code _)) h = refl
perform-Effect s (query (balance_of _ _)) h = refl
perform-Effect s (query (user_op_hash _ _)) h = refl
perform-Effect s (query (wait_for_receipt _ _)) h = refl
perform-Effect s (query (try_call_for_revert _ _ _)) h = refl
perform-Effect s (query (simulate_validation _ _ _)) h = refl

module _ (request : Request) (back : List Task) where
  abbrev at : Shared → Log → Program (Result BundlerError SignedTxResp) → System
  at s log p = record {
    shared = s;
    tasks = record { request = request; log = log; rest = p } ∷ back;
  }

  -- The system after some turns of the first task.
  abbrev driven : ℕ → Shared → Log → Program (Result BundlerError SignedTxResp) → System
  driven (suc n) s log (ask c k) = driven n (perform s c) ((c, answer c) ∷ log) (k (answer c))
  driven n s log p = at s log p

  abbrev may_all : ℕ → Shared → Program (Result BundlerError SignedTxResp) → Bool
  may_all (suc n) s (ask c k) = may s c && may_all n (perform s c) (k (answer c))
  may_all n s p = true

  driven-Reach :
      (first : System) (n : ℕ) (s : Shared) (log : Log)
      (p : Program (Result BundlerError SignedTxResp))
      → Reach nonce_of first (at s log p)
      → may_all n s p ≡ true
      → Reach nonce_of first (driven n s log p)
  driven-Reach first zero s log p r h = r
  driven-Reach first (suc n) s log (done a) r h = r
  driven-Reach first (suc n) s log (ask c k) r h =
      driven-Reach first n (perform s c) ((c, answer c) ∷ log) (k (answer c))
        (later r (
          turn [] back request log c k (answer c) (perform s c) refl (answer-Possible c)
            (perform-Effect s c (ground (arith, h)))))
        (ground (arith, h))

abbrev request : Request
request = record { ops = ops; opts = options; fires = none }

abbrev requests : List Request
requests = request ∷ request ∷ []

-- The first task has sent its transaction and freed the lock.
abbrev reached : System
reached =
    driven request (spawn bundler request ∷ []) 40 (record { locked = false; accepted = [] }) []
      (build_signed_user_ops_tx bundler none ops options)

reached-Reach : Reach nonce_of (init bundler requests) reached
unfolding build_signed_user_ops_tx build_inner build_batch check_ops check_op check_prefund
    required_prefund sponsor_of check_deposit check_per_op_fees simulate judge parse_window
    signature_failed requires_aggregator is_out_of_time_range update_min prepare gas_with_margin
    choose_outer_fees min_u256 max_u256 finish sign_and_send sign_outer u128_from_u256 check_receipt
    pack pack_init_code pack_pair_to_bytes32 pack_paymaster pack_paymaster_and_data
    parse_paymaster_and_data slice bits be_bytes
reached-Reach =
    driven-Reach request (spawn bundler request ∷ []) (init bundler requests) 40
      (record { locked = false; accepted = [] }) []
      (build_signed_user_ops_tx bundler none ops options) here refl

accepted-IsDescending_example :
    IsDescending reached.shared.accepted × (holders bundler reached.tasks ≤ 1)
accepted-IsDescending_example =
    accepted-IsDescending bundler nonce_of (omega arith) requests
      ((op-IsUserOp, (op-IsUserOp, tt)), ((op-IsUserOp, (op-IsUserOp, tt)), tt)) reached-Reach

requests_end_example :
    Acc (Follows nonce_of) reached
    × (All (λ t. IsDone t.rest) reached.tasks ⊎ ((t : System) × Step nonce_of reached t))
requests_end_example =
    requests_end bundler nonce_of (omega arith) requests
      ((op-IsUserOp, (op-IsUserOp, tt)), ((op-IsUserOp, (op-IsUserOp, tt)), tt)) reached-Reach

-- The first task's transaction is the one that is accepted, and the lock is free again.
reached_shared : reached.shared ≡ record { locked = false; accepted = 12 ∷ [] }
unfolding build_signed_user_ops_tx build_inner build_batch check_ops check_op check_prefund
    required_prefund sponsor_of check_deposit check_per_op_fees simulate judge parse_window
    signature_failed requires_aggregator is_out_of_time_range update_min prepare gas_with_margin
    choose_outer_fees min_u256 max_u256 finish sign_and_send sign_outer u128_from_u256 check_receipt
    pack pack_init_code pack_pair_to_bytes32 pack_paymaster pack_paymaster_and_data
    parse_paymaster_and_data slice bits be_bytes
reached_shared = refl
