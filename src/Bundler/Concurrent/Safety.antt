-- ===== src/Bundler/Concurrent/Safety.antt =====
-- What concurrent requests promise: distinct nonces, and each request as if it were alone.
use ethera_bundler.Base.{ℕ, ◌≤◌, ◌≡◌, refl, List, [], ◌∷◌, map, All, arith}
use ethera_bundler.Base.Bytes.{Bytes}
use ethera_bundler.Alloy.{Uint}
use ethera_bundler.Contracts.{Abi}
use ethera_bundler.Types.{IsUserOp, IsU256}
use ethera_bundler.Errors.{Format}
use ethera_bundler.Bundler.Pipeline.{Bundler}
use ethera_bundler.Bundler.Pipeline.Cancel.{cancellable-Safe}
use ethera_bundler.Bundler.Concurrent.{Request, System, Reach, spawn, init}
use ethera_bundler.Bundler.Concurrent.Invariant.{holders, Keeps, Knows, Inv, Reach-Inv}
use ethera_bundler.Bundler.Concurrent.Effects.{IsDescending, held_count-le}

module _ ⦃u : Uint⦄ ⦃f : Format⦄ ⦃abi : Abi⦄ (b : Bundler) (nonce_of : Bytes → ℕ)
    (hm : IsU256 b.cfg.min_priority_fee_wei) where
  spawn-Keeps :
      (requests : List Request)
      → All (λ q. All IsUserOp q.ops) requests
      → All (Keeps b) (map (spawn b) requests)
  spawn-Keeps [] w = tt
  spawn-Keeps (q ∷ requests) w =
      ((tt, cancellable-Safe b q.ops q.opts hm w.0 q.fires), spawn-Keeps requests w.1)

  spawn-Knows : (requests : List Request) → All (Knows b nonce_of []) (map (spawn b) requests)
  spawn-Knows [] = tt
  spawn-Knows (q ∷ requests) =
      (record { signs = λ tx envelope e. cc; ahead = λ n h. cc }, spawn-Knows requests)

  spawn-holders : (requests : List Request) → holders b (map (spawn b) requests) ≡ 0
  spawn-holders [] = refl
  spawn-holders (q ∷ requests) = omega (arith, spawn-holders requests)

  module _ (requests : List Request) (w : All (λ q. All IsUserOp q.ops) requests) where
    pub init-Inv : Inv b nonce_of (init b requests)
    init-Inv = record {
      keeps = spawn-Keeps requests w;
      facts = spawn-Knows requests;
      descending = tt;
      count = spawn-holders requests;
    }

    -- However concurrent requests are scheduled, the nonces of the transactions that the node
    -- accepts only grow, so that no two are equal, and at most one request holds the lock. This is
    -- for operations and a minimum fee in the ranges of their types, where signed transactions
    -- encode their nonces and the pending nonce is above all accepted ones.
    pub accepted-IsDescending :
        {s : System}
        → Reach nonce_of (init b requests) s
        → IsDescending s.shared.accepted × (holders b s.tasks ≤ 1)
    accepted-IsDescending {s} r =
        let inv = Reach-Inv b nonce_of init-Inv r in
        (inv.descending, omega (arith, inv.count, held_count-le s.shared.locked))
