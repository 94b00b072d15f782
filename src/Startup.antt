-- ===== src/Startup.antt =====
-- bin/ethera-bundler/src: `main` up to the start of the server, and the probes of startup.rs. The
-- parsing of a URL, the keys and the embedded bytecode are parameters; `anyhow` errors are their
-- causes. What `main` does with the server is in Main; the command line and the log are left out.
pub mod Probe
pub mod Serves
pub mod Advertised
pub mod Signs
pub mod Main
use ethera_bundler.Base.{
  ℕ, ◌^◌, Bool, true, false, not, String, List, [], ◌∷◌, Result, ok, err, map_err, ◌⊎◌,
  if◌then◌else◌, ltb, ◌==◌,
}
use ethera_bundler.Base.Bytes.{Bytes}
use ethera_bundler.Alloy.{Address}
use ethera_bundler.Config.{BundlerConfig}
use ethera_bundler.Provider.{ProviderError, chain_id, get_code, balance}
use ethera_bundler.Provider.AlloyProvider
use ethera_bundler.Signer.{SignerError, PrivateKeys, LocalSigner, from_key, address}
use ethera_bundler.Program.{Program, done, ask, bind, ◌>>=◌, ◌>>◌, call, warn}
use ethera_bundler.Errors.{BundlerError}
use ethera_bundler.Bundler.Pipeline.{with_cancellation, lift}
use ethera_bundler.Rpc.{BundlerRpc}
use ethera_bundler.Rpc
use ethera_bundler.Discovery.{DiscoveryRpc, discover}

-- Why a probe fails: a call of the provider under its context, or a `bail!`.
pub data ProbeError : Type 0 where
  failed : (context : String) → ProviderError → ProbeError
  chain_id_mismatch : (config rpc : ℕ) → ProbeError
  no_code : (entrypoint : Address) → (chain_id : ℕ) → ProbeError

-- `ONE_ETH_WEI`
abbrev pub one_eth_wei : ℕ
one_eth_wei = 1_000_000_000_000_000_000

abbrev pub is_empty : Bytes → Bool
is_empty [] = true
is_empty (b ∷ bs) = false

abbrev pub low_balance : String
low_balance = "sequencer balance below 1 ETH equivalent - handleOps may run out of gas funds"

-- What follows each of the three answers.
unfoldable pub judge_balance : ℕ → Program (Result ProbeError (Unit {0}))
judge_balance amount =
    if ltb amount one_eth_wei then ask (warn low_balance) (λ _. done (ok tt)) else done (ok tt)

unfoldable pub judge_code :
    (expected : ℕ)
    → (entrypoint sequencer : Address) → Bytes
    → Program (Result ProbeError (Unit {0}))
judge_code expected entrypoint sequencer code =
    if is_empty code
    then done (err (no_code entrypoint expected))
    else (call (failed "eth_getBalance(sequencer) probe failed") (balance sequencer)
        >>= judge_balance)

unfoldable pub judge_chain :
    (expected : ℕ) → (entrypoint sequencer : Address) → ℕ → Program (Result ProbeError (Unit {0}))
judge_chain expected entrypoint sequencer actual =
    if not (actual == expected)
    then done (err (chain_id_mismatch expected actual))
    else (call (failed "eth_getCode(entrypoint) probe failed") (get_code entrypoint)
        >>= judge_code expected entrypoint sequencer)

-- `probe`
unfoldable pub probe :
    (expected : ℕ) → (entrypoint sequencer : Address) → Program (Result ProbeError (Unit {0}))
probe expected entrypoint sequencer =
    call (failed "eth_chainId probe failed") chain_id >>= judge_chain expected entrypoint sequencer

-- Why `main` ends before it serves.
pub data StartError : Type 0 where
  no_provider : ProviderError → StartError
  no_signer : SignerError → StartError
  probe_failed : ProbeError → StartError
  no_bundler : BundlerError → StartError

-- What `main` gives the server.
pub record Server : Type 0 where
  pub rpc : BundlerRpc
  pub discovery : DiscoveryRpc
  pub listen_addr : String

module _ {Url : Type 0} (parse : String → Url ⊎ String) (keys : PrivateKeys)
    (simulations_runtime : Bytes) (package_version : String) where
  -- `main`
  unfoldable pub prepare_server : BundlerConfig → Program (Result StartError Server)
  prepare_server cfg = do
    url ← lift (map_err no_provider (AlloyProvider.new parse cfg.exec_rpc_url))
    signer ← lift (map_err no_signer (from_key keys cfg.sequencer_key))
    bind (probe cfg.chain_id cfg.entrypoint_address (address keys signer))
        (λ r. done (map_err probe_failed r))
    bundler ←
        lift (map_err no_bundler (with_cancellation cfg (address keys signer) simulations_runtime))
    done (
        ok (record {
          rpc = Rpc.new bundler;
          discovery = discover package_version cfg.chain_id cfg.entrypoint_address;
          listen_addr = cfg.listen_addr;
        }))
