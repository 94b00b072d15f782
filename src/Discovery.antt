-- ===== src/Discovery.antt =====
-- crates/bundler/src/discovery.rs: what the server tells wallets about itself. `env!` reads the
-- version of the package from its manifest when it is built: a parameter.
use ethera_bundler.Base.{ℕ, String, ◌<>◌, List, [], ◌∷◌}
use ethera_bundler.Alloy.{Address}
use ethera_bundler.Errors.{Format}

-- `DiscoveryRpc`
pub record DiscoveryRpc : Type 0 where
  pub chain_id : ℕ
  pub entrypoint : Address
  pub client_version : String

-- `DiscoveryRpc::new`
abbrev pub discover : (package_version : String) → ℕ → Address → DiscoveryRpc
discover package_version chain_id entrypoint = record {
  chain_id = chain_id;
  entrypoint = entrypoint;
  client_version = "ethera-bundler/v" <> package_version;
}

-- The methods, none of which fails: `eth_chainId`, `eth_supportedEntryPoints` and
-- `web3_clientVersion`.
abbrev pub eth_chain_id : ⦃f : Format⦄ → DiscoveryRpc → String
eth_chain_id ⦃f⦄ rpc = "0x" <> f.show_hex rpc.chain_id

abbrev pub supported_entry_points : DiscoveryRpc → List Address
supported_entry_points rpc = rpc.entrypoint ∷ []

abbrev pub client_version_of : DiscoveryRpc → String
client_version_of rpc = rpc.client_version
