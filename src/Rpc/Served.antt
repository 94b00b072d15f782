-- ===== src/Rpc/Served.antt =====
-- The server with `AlloyProvider`, the provider that the binary gives it, and what reaches the node.
use ethera_bundler.Base.{ℕ, ◌≡◌, List, [], All, Option}
use ethera_bundler.Base.Int.{ℤ}
use ethera_bundler.Base.{String}
use ethera_bundler.Alloy.{Uint}
use ethera_bundler.Contracts.{Abi}
use ethera_bundler.Types.{UserOpV07, BuildOpts, IsUserOp, IsU256}
use ethera_bundler.Provider.Remote.{RpcRequest, Outside, SimulationsAbi}
use ethera_bundler.Provider.AlloyProvider.Served.{IsRanged, served, served-IsTyped}
use ethera_bundler.Provider.AlloyProvider.Recorded.{recorded, raws, requests_after, raws-broadcasts}
use ethera_bundler.Program.{World, run}
use ethera_bundler.Errors.{Format}
use ethera_bundler.Errors.Json.{Payload}
use ethera_bundler.Rpc.{ErrorObjects, BundlerRpc, build_signed_user_ops_tx}
use ethera_bundler.Rpc.Replies.{Replies, run-Replies}

module _ ⦃u : Uint⦄ ⦃f : Format⦄ ⦃abi : Abi⦄ ⦃simulations : SimulationsAbi⦄ (objects : ErrorObjects)
    (code_owned : (c : ℤ) (message : String) (payload : Option Payload)
      → objects.code (objects.owned c message payload) ≡ c)
    {S : Type 0} (o : Outside S)
    (ranged : (r : RpcRequest) (s : S) → IsRanged r (o.send r s).0) where
  recorded-IsRanged :
      (r : RpcRequest) (s : S × List RpcRequest) → IsRanged r ((recorded o).send r s).0
  recorded-IsRanged r s = ranged r s.0

  -- The server over `AlloyProvider` replies as promised whatever the node responds in the ranges
  -- of the library's types, from whatever state, and whatever the clock and the signer answer. It
  -- replies with a response, and then the raw transactions that have reached the node are that of
  -- the response, once, in submit mode, and none in sign-only mode; or with an error that has one
  -- of the six codes, and if this blames the caller, the clock or an aggregator then no raw
  -- transaction has reached the node. This is for operations and a minimum fee in the ranges of
  -- their types, and error objects that have the code they are made with.
  pub served-Replies :
      (s0 : S) (rest : World) (rpc : BundlerRpc) (fires : Option ℕ) (ops : List UserOpV07)
      (opts : BuildOpts)
      → IsU256 rpc.inner.cfg.min_priority_fee_wei
      → All IsUserOp ops
      → let (r, log) =
          run
            (served (recorded o) (s0, []) rest)
            (build_signed_user_ops_tx objects rpc fires ops opts)
            [] in
        Replies objects opts.submit (raws (requests_after o s0 rest log)) r
  served-Replies s0 rest rpc fires ops opts hm w =
      let world : World = served (recorded o) (s0, []) rest in
      let program = build_signed_user_ops_tx objects rpc fires ops opts in
      rw (raws-broadcasts o s0 rest (run world program []).1) (
        run-Replies objects code_owned rpc fires ops opts hm w world
          (served-IsTyped (recorded o) recorded-IsRanged rpc.inner opts.submit (s0, []) rest))
