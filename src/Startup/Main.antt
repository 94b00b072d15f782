-- ===== src/Startup/Main.antt =====
-- bin/ethera-bundler/src/main.rs from the modules of the server to the end, with the method names of
-- rpc.rs and discovery.rs. The table of methods of `jsonrpsee`, the listening socket and the
-- interrupt are parameters; the middleware and the log are left out.
pub mod Serving
use ethera_bundler.Base.{
  String, Bool, true, List, [], ◌∷◌, ◌++◌, Option, none, Result, ok, err, panic, ◌>>=◌, ◌⊎◌, inl,
  inr, ◌≡◌,
}
use ethera_bundler.Base.Names.{lookup, or_else, is_distinct}
use ethera_bundler.Base.Bytes.{Bytes}
use ethera_bundler.Config.{BundlerConfig}
use ethera_bundler.Signer.{PrivateKeys}
use ethera_bundler.Program.{World, run}
use ethera_bundler.Rpc.{BundlerRpc}
use ethera_bundler.Discovery.{DiscoveryRpc}
use ethera_bundler.Startup.{StartError, Server, prepare_server}

-- What answers a request: a method of one of the three services.
pub data Method : Type 0 where
  bundler_method : BundlerRpc → Method
  chain_id_method : DiscoveryRpc → Method
  entry_points_method : DiscoveryRpc → Method
  version_method : DiscoveryRpc → Method

-- `EtheraBundlerApi`
abbrev pub bundler_methods : BundlerRpc → List (String × Method)
bundler_methods rpc = ("ethera_buildSignedUserOpsTx", bundler_method rpc) ∷ []

-- `EthDiscoveryApi`
abbrev pub eth_methods : DiscoveryRpc → List (String × Method)
eth_methods rpc =
    ("eth_chainId", chain_id_method rpc)
    ∷ ("eth_supportedEntryPoints", entry_points_method rpc)
    ∷ []

-- `Web3DiscoveryApi`
abbrev pub web3_methods : DiscoveryRpc → List (String × Method)
web3_methods rpc = ("web3_clientVersion", version_method rpc) ∷ []

-- `RpcModule`: `merge` fails only if both modules have a method of the same name.
pub record RpcModules : Type 1 where
  pub Module : Type 0
  pub into_rpc : List (String × Method) → Module
  pub method : Module → String → Option Method
  pub merge : Module → Module → Module ⊎ String
  pub method-into_rpc :
      (methods : List (String × Method)) (name : String)
      → is_distinct methods ≡ true
      → method (into_rpc methods) name ≡ lookup name methods
  pub merge_lem :
      (m n : Module)
      → ((name : String) → (method m name ≡ none) ⊎ (method n name ≡ none))
      → (k : Module) × (merge m n ≡ inl k)
        × ((name : String) → method k name ≡ or_else (method m name) (method n name))

-- What the operating system answers: to the listening, and to the wait for an interrupt.
pub record Host : Type 0 where
  pub listen : String → Unit {0} ⊎ String
  pub ctrl_c : Unit {0} ⊎ String

-- Why `main` ends with an error.
pub data MainError : Type 0 where
  not_started : StartError → MainError
  not_merged : (context cause : String) → MainError
  not_bound : (listen_addr cause : String) → MainError
  no_ctrl_c : (cause : String) → MainError

module _ (modules : RpcModules) where
  -- What `main` does to the outside from the bound socket on, in order.
  pub data HostEvent : Type 0 where
    bound : (listen_addr : String) → HostEvent
    started : modules.Module → HostEvent
    interrupted : HostEvent
    cancelled : HostEvent
    stop_asked : HostEvent
    stopped : HostEvent

  abbrev pub merged :
      (context : String) → modules.Module → modules.Module → Result MainError modules.Module
  merged context m n = elim (modules.merge m n) [
    | inl k ↦ ok k
    | inr cause ↦ err (not_merged context cause)
  ]

  unfoldable pub merge_modules : Server → Result MainError modules.Module
  merge_modules server = do
    with_eth ←
        merged "failed to merge eth discovery rpc" (modules.into_rpc (bundler_methods server.rpc))
          (modules.into_rpc (eth_methods server.discovery))
    merged "failed to merge web3 discovery rpc" with_eth
        (modules.into_rpc (web3_methods server.discovery))

  module _ (host : Host) where
    -- From the wait for the interrupt to the end. What `stop` returns is ignored.
    unfoldable pub await_end : List HostEvent × Result MainError (Unit {0})
    await_end = elim host.ctrl_c [
      | inl _ ↦ (interrupted ∷ cancelled ∷ stop_asked ∷ stopped ∷ [], ok tt)
      | inr cause ↦ ([], err (no_ctrl_c cause))
    ]

    -- From the bound socket on.
    unfoldable pub listen_on :
        Server → modules.Module → List HostEvent × Result MainError (Unit {0})
    listen_on server module' = elim (host.listen server.listen_addr) [
      | inl _ ↦
          let (events, r) = await_end in (bound server.listen_addr ∷ started module' ∷ events, r)
      | inr cause ↦ ([], err (not_bound server.listen_addr cause))
    ]

    -- From the modules of the server on.
    unfoldable pub run_server : Server → List HostEvent × Result MainError (Unit {0})
    run_server server = elim (merge_modules server) [
      | ok module' ↦ listen_on server module'
      | err e ↦ ([], err e)
      | panic m ↦ ([], panic m)
    ]

    module _ {Url : Type 0} (parse : String → Url ⊎ String) (keys : PrivateKeys)
        (simulations_runtime : Bytes) (package_version : String) (world : World) where
      -- `main`, against a node and a host.
      unfoldable pub main : BundlerConfig → List HostEvent × Result MainError (Unit {0})
      main cfg =
          elim (run world (prepare_server parse keys simulations_runtime package_version cfg)
            []).0 [
              | ok server ↦ run_server server
              | err e ↦ ([], err (not_started e))
              | panic m ↦ ([], panic m)
            ]
