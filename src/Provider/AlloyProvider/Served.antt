-- ===== src/Provider/AlloyProvider/Served.antt =====
-- The world of a request whose calls to the provider are served by `AlloyProvider`.
use ethera_bundler.Base.{ℕ, ◌<◌, ◌≡◌, refl, Bool, [], ◌∷◌, Option, none, some, ◌⊎◌, inl, inr, arith}
use ethera_bundler.Alloy.{u64_mod, u128_mod, Address}
use ethera_bundler.Types.{IsU256}
use ethera_bundler.Base.Bytes.{Bytes}
use ethera_bundler.Provider.{base_fee, max_priority_fee, estimate_handle_ops_gas}
use ethera_bundler.Provider.Remote.{
  RpcRequest, get_latest_block, get_max_priority_fee_per_gas, estimate_gas, RpcResponse, RpcError,
  Block, Outside, TransactionRequest, SimulationsAbi,
}
use ethera_bundler.Provider.AlloyProvider.{serve, request_from, base_fee_of, or_transport}
use ethera_bundler.Program.{Call, query, Log, World}
use ethera_bundler.Program.Laws.{IsTyped}
use ethera_bundler.Bundler.Pipeline.{Bundler}
use ethera_bundler.Bundler.Pipeline.Stage.{discipline, Possible}

-- The ranges of the numbers in the node's responses, by the types of the library: a base fee and
-- an estimate are of type `u64`, a suggested tip is a `u128`.
abbrev pub IsRanged : (r : RpcRequest) → RpcResponse r ⊎ RpcError → Type 0
IsRanged get_latest_block (inl (some block)) =
    (n : ℕ) → block.base_fee_per_gas ≡ some n → n < u64_mod
IsRanged get_max_priority_fee_per_gas (inl n) = n < u128_mod
IsRanged (estimate_gas tx) (inl n) = n < u64_mod
IsRanged _ _ = Unit

module _ ⦃abi : SimulationsAbi⦄ {S : Type 0} (o : Outside S) (s0 : S) (rest : World) where
  -- The node's state after the calls of a log.
  abbrev pub node_after : Log → S
  node_after [] = s0
  node_after ((query q, r) ∷ log) = (serve o q (node_after log)).1
  node_after ((c, r) ∷ log) = node_after log

  -- `rest` answers the calls that are not the provider's.
  abbrev pub served : World
  served log (query q) = (serve o q (node_after log)).0
  served log c = rest log c

tip-Possible :
    (x : ℕ ⊎ RpcError)
    → IsRanged get_max_priority_fee_per_gas x
    → Possible (query max_priority_fee) (or_transport x)
tip-Possible (inl n) h = omega (arith, h)
tip-Possible (inr e) h = tt

module _ (from entrypoint : Address) (call_data : Bytes) where
  estimate-Possible :
      (tx : TransactionRequest) (x : ℕ ⊎ RpcError)
      → IsRanged (estimate_gas tx) x
      → Possible (query (estimate_handle_ops_gas from entrypoint call_data)) (or_transport x)
  estimate-Possible tx (inl n) h = h
  estimate-Possible tx (inr e) h = tt

fee-Possible :
    (fee : Option ℕ)
    → ((n : ℕ) → fee ≡ some n → n < u64_mod)
    → IsU256 (elim fee [ none ↦ 0 | some n ↦ n ])
fee-Possible none h = omega arith
fee-Possible (some n) h = omega (arith, h n refl)

base_fee_of-Possible :
    (x : Option Block ⊎ RpcError)
    → IsRanged get_latest_block x
    → Possible (query base_fee) (base_fee_of x)
unfolding base_fee_of
base_fee_of-Possible (inr e) h = tt
base_fee_of-Possible (inl none) h = tt
base_fee_of-Possible (inl (some block)) h = fee-Possible block.base_fee_per_gas h

module _ ⦃abi : SimulationsAbi⦄ {S : Type 0} (o : Outside S)
    (ranged : (r : RpcRequest) (s : S) → IsRanged r (o.send r s).0) where
  served-Possible :
      (s0 : S) (rest : World) (log : Log) (c : Call) → Possible c (served o s0 rest log c)
  unfolding serve
  served-Possible s0 rest log (query base_fee) =
      base_fee_of-Possible _ (ranged get_latest_block (node_after o s0 rest log))
  served-Possible s0 rest log (query max_priority_fee) =
      tip-Possible _ (ranged get_max_priority_fee_per_gas (node_after o s0 rest log))
  served-Possible s0 rest log (query (estimate_handle_ops_gas from entrypoint call_data)) =
      let tx : TransactionRequest = request_from (some from) entrypoint call_data in
      estimate-Possible from entrypoint call_data tx _
        (ranged (estimate_gas tx) (node_after o s0 rest log))
  served-Possible s0 rest log _ = tt

  -- What `AlloyProvider` answers over a node whose responses are in the ranges of their types is
  -- in the ranges of the trait's types.
  pub served-IsTyped :
      (b : Bundler) (submit : Bool) (s0 : S) (rest : World)
      → IsTyped (discipline b submit) (served o s0 rest)
  served-IsTyped b submit s0 rest = served-Possible s0 rest
