-- ===== src/Startup/Serves.antt =====
-- When the server starts, and what it then advertises.
use mathlib.Core.Path.{subst}
use ethera_bundler.Base.{
  ◌≡◌, ◌↔◌, refl, String, [], ◌∷◌, Result, ok, err, panic, map_err, ◌⊎◌, inl, inr, sum-cases,
}
use ethera_bundler.Base.Bytes.{Bytes}
use ethera_bundler.Config.{BundlerConfig}
use ethera_bundler.Provider.AlloyProvider
use ethera_bundler.Signer.{PrivateKeys, from_key}
use ethera_bundler.Program.{Program, done, ask, bind, continue, World, Log, run}
use ethera_bundler.Discovery.{discover}
use ethera_bundler.Startup.{probe_failed, probe, Server, prepare_server}
use ethera_bundler.Startup.Probe.{Succeeds, IsReady, Succeeds-probe}

module _ (world : World) {E F A : Type 0} (g : E → F) (a : A) where
  Succeeds-then :
      (p : Program (Result E (Unit {0}))) (log : Log)
      → Succeeds world (bind (bind p (λ r. done (map_err g r))) (continue (λ _. done (ok a)))) log
        ↔ Succeeds world p log
  Succeeds-then (done (ok tt)) log = (λ h. (tt, refl), λ h. (a, refl))
  Succeeds-then (done (err e)) log = (λ (x, h). cc, λ (x, h). cc)
  Succeeds-then (done (panic m)) log = (λ (x, h). cc, λ (x, h). cc)
  Succeeds-then (ask c k) log = Succeeds-then (k (world log c)) ((c, world log c) ∷ log)

  value-then :
      (p : Program (Result E (Unit {0}))) (log : Log) (x : A)
      → (run world (bind (bind p (λ r. done (map_err g r))) (continue (λ _. done (ok a)))) log).0
        ≡ ok x
      → x ≡ a
  value-then (done (ok tt)) log x h = cc
  value-then (done (err e)) log x h = cc
  value-then (done (panic m)) log x h = cc
  value-then (ask c k) log x h = value-then (k (world log c)) ((c, world log c) ∷ log) x h

module _ {Url : Type 0} (parse : String → Url ⊎ String) (keys : PrivateKeys)
    (simulations_runtime : Bytes) (package_version : String) (world : World)
    (cfg : BundlerConfig) where
  -- What the server needs to start.
  pub record CanStart : Type 0 where
    pub url : Url
    pub parsed : parse cfg.exec_rpc_url ≡ inl url
    pub key : keys.Key
    pub loaded : keys.from_bytes cfg.sequencer_key ≡ inl key
    pub ready : IsReady world cfg.chain_id cfg.entrypoint_address (keys.key_address key) []

  -- The server of this configuration and key.
  abbrev pub server_of : keys.Key → Server
  server_of key = record {
    rpc = record {
      inner = record {
        cfg = cfg;
        signer_address = keys.key_address key;
        simulations_code = simulations_runtime;
      };
    };
    discovery = discover package_version cfg.chain_id cfg.entrypoint_address;
    listen_addr = cfg.listen_addr;
  }

  -- `main` prepares the server exactly if the URL of the node parses, the key is valid, and the
  -- node tells the configured chain, code at the entry point, and the balance of the key's
  -- address, which may be any.
  pub prepare_server-CanStart :
      Succeeds world (prepare_server parse keys simulations_runtime package_version cfg) []
      ↔ CanStart
  unfolding prepare_server AlloyProvider.new from_key
  prepare_server-CanStart = elim (sum-cases (parse cfg.exec_rpc_url)) [
    | inr (e, bad) ↦
        rw (bad, prepare_server, AlloyProvider.new) (λ (x, h). cc, λ h. let parsed = h.parsed in cc)
    | inl (url, parsed) ↦ elim (sum-cases (keys.from_bytes cfg.sequencer_key)) [
      | inr (e, bad) ↦
          rw (parsed, bad, prepare_server, AlloyProvider.new, from_key)
            (λ (x, h). cc, λ h. let loaded = h.loaded in cc)
      | inl (key, loaded) ↦
          let (before, after) =
            Succeeds-then world probe_failed (server_of key)
              (probe cfg.chain_id cfg.entrypoint_address (keys.key_address key)) [] in
          let (from, to) =
            Succeeds-probe world cfg.chain_id cfg.entrypoint_address (keys.key_address key) [] in
          rw (parsed, loaded, prepare_server, AlloyProvider.new, from_key)
            (
              λ h. record {
                url = url;
                parsed = parsed;
                key = key;
                loaded = loaded;
                ready = from (before h);
              },
              λ h.
                  let same : h.key ≡ key = let loaded' = h.loaded in cc in
                  after (
                    to (
                      subst
                        (λ k.
                          IsReady world cfg.chain_id cfg.entrypoint_address (keys.key_address k) [])
                        same h.ready)),
            )
    ]
  ]

  -- The server that starts is that of the configuration.
  pub prepare_server-server_of :
      (server : Server)
      → (run world (prepare_server parse keys simulations_runtime package_version cfg) []).0
        ≡ ok server
      → (key : keys.Key) × (server ≡ server_of key)
  unfolding prepare_server AlloyProvider.new from_key
  prepare_server-server_of server h = elim (sum-cases (parse cfg.exec_rpc_url)) [
    | inr (e, bad) ↦ let no = rw (bad, prepare_server, AlloyProvider.new) at h in cc
    | inl (url, parsed) ↦ elim (sum-cases (keys.from_bytes cfg.sequencer_key)) [
      | inr (e, bad) ↦
          let no = rw (parsed, bad, prepare_server, AlloyProvider.new, from_key) at h in cc
      | inl (key, loaded) ↦ (
        key,
        value-then world probe_failed (server_of key)
            (probe cfg.chain_id cfg.entrypoint_address (keys.key_address key)) [] server
            (rw (parsed, loaded, prepare_server, AlloyProvider.new, from_key) at h),
      )
    ]
  ]
