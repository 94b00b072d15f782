-- ===== src/Bundler/Concurrent.antt =====
-- crates/bundler/src/bundler.rs: requests in flight at the same time, which share the node and
-- `submit_lock`. Each request is a program with the log of its calls. In every step some request
-- gets the answer to the call that it awaits: which one, and which answer, is left open. A call
-- takes effect when it is answered.
pub mod Effects
pub mod Invariant
pub mod Safety
pub mod Schedules
pub mod Progress
use ethera_bundler.Base.{
  ℕ, ◌<◌, ◌≡◌, Bool, true, false, List, [], ◌∷◌, ◌++◌, map, All, Option, Result, ◌⊎◌, inl, inr,
}
use ethera_bundler.Base.Bytes.{Bytes}
use ethera_bundler.Alloy.{Uint}
use ethera_bundler.Contracts.{Abi}
use ethera_bundler.Types.{UserOpV07, BuildOpts, SignedTxResp}
use ethera_bundler.Provider.{pending_nonce, send_raw_transaction}
use ethera_bundler.Program.{Call, Answer, Program, ask, query, sign_eip1559, lock, unlock, Log}
use ethera_bundler.Errors.{Format, BundlerError}
use ethera_bundler.Bundler.Pipeline.{Bundler}
use ethera_bundler.Bundler.Pipeline.Shutdown.{build_signed_user_ops_tx}
use ethera_bundler.Bundler.Pipeline.Stage.{Possible}

-- The arguments of one request, and when the shutdown signal reaches it.
pub record Request : Type 0 where
  pub ops : List UserOpV07
  pub opts : BuildOpts
  pub fires : Option ℕ

-- A request in flight: its arguments, its calls so far, and what it still does.
pub record Task : Type 0 where
  pub request : Request
  pub log : Log
  pub rest : Program (Result BundlerError SignedTxResp)

-- What the requests share: whether `submit_lock` is taken, and the nonces of the transactions of
-- the bundler's account that the node has accepted, the latest first.
pub record Shared : Type 0 where
  pub locked : Bool
  pub accepted : List ℕ

pub record System : Type 0 where
  pub shared : Shared
  pub tasks : List Task

-- `nonce_of` reads the nonce out of an encoded transaction.
module _ (nonce_of : Bytes → ℕ) where
  -- What an answer does to the shared state, and which answers the lock, the signer and the node
  -- give: the lock is given to one task at a time, a signed transaction encodes the nonce that it
  -- was given, the pending nonce is above the nonces of all accepted transactions, and a broadcast
  -- that the node acknowledges is accepted, while one that ends in an error may be or not.
  abbrev pub Effect : Shared → (c : Call) → Answer c → Shared → Type 0
  Effect s lock r t = (s.locked ≡ false) × (t ≡ record s { locked = true })
  Effect s unlock r t = t ≡ record s { locked = false }
  Effect s (sign_eip1559 tx) (inl envelope) t =
      (nonce_of envelope.encoded_2718 ≡ tx.nonce) × (t ≡ s)
  Effect s (query (pending_nonce a)) (inl n) t = All (λ m. m < n) s.accepted × (t ≡ s)
  Effect s (query (send_raw_transaction raw)) (inl hash) t =
      t ≡ record s { accepted = nonce_of raw ∷ s.accepted }
  Effect s (query (send_raw_transaction raw)) (inr e) t =
      (t ≡ s) ⊎ (t ≡ record s { accepted = nonce_of raw ∷ s.accepted })
  Effect s _ r t = t ≡ s

  pub data Step (s : System) : System → Type 0 where
    turn :
        (front back : List Task) (request : Request) (log : Log) (c : Call)
        (k : Answer c → Program (Result BundlerError SignedTxResp)) (r : Answer c) (t : Shared)
        → s.tasks ≡ front ++ (record { request = request; log = log; rest = ask c k } ∷ back)
        → Possible c r
        → Effect s.shared c r t
        → Step s (record {
          shared = t;
          tasks = front ++ (record { request = request; log = (c, r) ∷ log; rest = k r } ∷ back);
        })

  pub data Reach (s : System) : System → Type 0 where
    here : Reach s s
    later : {t v : System} → Reach s t → Step t v → Reach s v

module _ ⦃u : Uint⦄ ⦃f : Format⦄ ⦃abi : Abi⦄ (b : Bundler) where
  abbrev pub spawn : Request → Task
  spawn request = record {
    request = request;
    log = [];
    rest = build_signed_user_ops_tx b request.fires request.ops request.opts;
  }

  -- All requests at their start, with the lock free.
  abbrev pub init : List Request → System
  init requests = record {
    shared = record { locked = false; accepted = [] };
    tasks = map spawn requests;
  }
