-- ===== src/Config.antt =====
-- crates/bundler/src/config.rs: the configuration and its defaults. Reading it from the command line
-- and the environment is the work of the crate `clap`.
use ethera_bundler.Base.{ℕ, String, [], ◌∷◌}
use ethera_bundler.Alloy.{Address, Hash}

-- `ENTRYPOINT_V07`
abbrev pub entrypoint_v07 : Address
entrypoint_v07 =
    0x00 ∷ 0x00 ∷ 0x00 ∷ 0x00 ∷ 0x71 ∷ 0x72 ∷ 0x7d ∷ 0xe2 ∷ 0x2e ∷ 0x5e ∷ 0x9d ∷ 0x8b ∷ 0xaf ∷ 0x0e
    ∷ 0xda ∷ 0xc6 ∷ 0xf3 ∷ 0x7d ∷ 0xa0 ∷ 0x32 ∷ []

-- `BundlerConfig`
pub record BundlerConfig : Type 0 where
  pub listen_addr : String
  pub chain_id : ℕ
  pub exec_rpc_url : String
  pub entrypoint_address : Address
  pub sequencer_key : Hash
  pub max_batch_size : ℕ
  pub min_priority_fee_wei : ℕ
  pub gas_margin_pct : ℕ

-- The configuration of the three required settings, the others at their `default_value`.
abbrev pub default_config :
    (chain_id : ℕ) (exec_rpc_url : String) (sequencer_key : Hash) → BundlerConfig
default_config chain_id exec_rpc_url sequencer_key = record {
  listen_addr = "0.0.0.0:8082";
  chain_id = chain_id;
  exec_rpc_url = exec_rpc_url;
  entrypoint_address = entrypoint_v07;
  sequencer_key = sequencer_key;
  max_batch_size = 10;
  min_priority_fee_wei = 1_000_000;
  gas_margin_pct = 10;
}
