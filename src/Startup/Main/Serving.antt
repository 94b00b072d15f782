-- ===== src/Startup/Main/Serving.antt =====
-- What `main` serves, and in which order it starts and stops.
use text.Mathlib.Text.{◌==◌}
use text.Mathlib.TextEquality.{eq_iff}
use ethera_bundler.Base.{
  Bool-cases, false, All, String, List, [], ◌∷◌, ◌++◌, none, some, ◌≡◌, ◌≢◌, refl, sym, ap, ◌∙◌,
  ◌↔◌, Result, ok, err, panic, ◌>>=◌, ◌⊎◌, inl, inr, sum-cases,
}
use ethera_bundler.Base.Names.{lookup, lookup-append, is_disjoint-lookup}
use ethera_bundler.Base.Bytes.{Bytes}
use ethera_bundler.Config.{BundlerConfig}
use ethera_bundler.Signer.{PrivateKeys}
use ethera_bundler.Program.{World, run}
use ethera_bundler.Startup.{StartError, Server, prepare_server}
use ethera_bundler.Startup.Serves.{CanStart, prepare_server-CanStart, prepare_server-server_of}
use ethera_bundler.Startup.Main.{
  Method, bundler_method, chain_id_method, entry_points_method, version_method, RpcModules, Host,
  MainError, HostEvent, bound, started, interrupted, cancelled, stop_asked, stopped,
  bundler_methods, eth_methods, web3_methods, merged, merge_modules, await_end, listen_on,
  run_server, main,
}

-- The four methods, by the names that the README and discovery.rs tell to clients.
abbrev pub documented : List String
documented =
    "ethera_buildSignedUserOpsTx" ∷ "eth_chainId" ∷ "eth_supportedEntryPoints"
    ∷ "web3_clientVersion" ∷ []

-- What the server has under these names together.
abbrev published : Server → List (String × Method)
published server =
    bundler_methods server.rpc ++ (eth_methods server.discovery ++ web3_methods server.discovery)

ne-test : (name n : String) → name ≢ n → (name == n) ≡ false
ne-test name n h = elim (Bool-cases (name == n)) [
  | inl e ↦ absurd (h ((eq_iff name n).0 e))
  | inr e ↦ e
]

lookup-published :
    (server : Server) (name : String)
    → All (λ n. name ≢ n) documented
    → lookup name (published server) ≡ none
lookup-published server name (a, (b, (c, (d, _)))) =
    rw
      (
        ne-test name "ethera_buildSignedUserOpsTx" a,
        ne-test name "eth_chainId" b,
        ne-test name "eth_supportedEntryPoints" c,
        ne-test name "web3_clientVersion" d,
      )
      refl

module _ (modules : RpcModules) where
  -- The module has each documented method, bound to its handler, and no other.
  pub record Serves (server : Server) (m : modules.Module) : Type 0 where
    pub builds : modules.method m "ethera_buildSignedUserOpsTx" ≡ some (bundler_method server.rpc)
    pub tells_chain : modules.method m "eth_chainId" ≡ some (chain_id_method server.discovery)
    pub tells_entry_points :
        modules.method m "eth_supportedEntryPoints" ≡ some (entry_points_method server.discovery)
    pub tells_version :
        modules.method m "web3_clientVersion" ≡ some (version_method server.discovery)
    pub no_other : (name : String) → All (λ n. name ≢ n) documented → modules.method m name ≡ none

  merged-eq-ok :
      (context : String) (m n k : modules.Module)
      → modules.merge m n ≡ inl k
      → merged modules context m n ≡ ok k
  merged-eq-ok context m n k e = rw (e, merged) refl

  then-eq-ok :
      {A B : Type 0} (r : Result MainError A) (a : A) (f : A → Result MainError B) (b : B)
      → r ≡ ok a
      → f a ≡ ok b
      → (r >>= f) ≡ ok b
  then-eq-ok r a f b e h = rw e h

  pub merge_modules-Serves :
      (server : Server)
      → (m : modules.Module) × (merge_modules modules server ≡ ok m) × Serves server m
  unfolding merge_modules
  merge_modules-Serves server =
      let xs : List (String × Method) = bundler_methods server.rpc in
      let ys : List (String × Method) = eth_methods server.discovery in
      let zs : List (String × Method) = web3_methods server.discovery in
      let x_of = λ (name : String). modules.method-into_rpc xs name refl in
      let y_of = λ (name : String). modules.method-into_rpc ys name refl in
      let z_of = λ (name : String). modules.method-into_rpc zs name refl in
      let (m, e, found) =
        modules.merge_lem (modules.into_rpc xs) (modules.into_rpc ys)
          (λ name. rw (x_of name, y_of name) (is_disjoint-lookup name xs ys refl)) in
      let found_both : (name : String) → modules.method m name ≡ lookup name (xs ++ ys) =
        λ name. found name ∙ rw (x_of name, y_of name) (sym (lookup-append name xs ys)) in
      let (k, e', found') =
        modules.merge_lem m (modules.into_rpc zs)
          (λ name. rw (found_both name, z_of name) (is_disjoint-lookup name (xs ++ ys) zs refl)) in
      (
        k,
        then-eq-ok _ m _ k
            (merged-eq-ok "failed to merge eth discovery rpc" (modules.into_rpc xs)
              (modules.into_rpc ys) m e)
            (merged-eq-ok "failed to merge web3 discovery rpc" m (modules.into_rpc zs) k e'),
        let all : (name : String) → modules.method k name ≡ lookup name (published server) = λ name.
              found' name
              ∙ rw (found_both name, z_of name) (sym (lookup-append name (xs ++ ys) zs)) in
            record {
              builds = all "ethera_buildSignedUserOpsTx";
              tells_chain = all "eth_chainId";
              tells_entry_points = all "eth_supportedEntryPoints";
              tells_version = all "web3_clientVersion";
              no_other = λ name h. all name ∙ lookup-published server name h;
            },
      )

  -- What happens from the bound socket on.
  abbrev pub session : Host → Server → modules.Module → List (HostEvent modules)
  session host server m = bound server.listen_addr ∷ started m ∷ elim host.ctrl_c [
    | inl _ ↦ interrupted ∷ cancelled ∷ stop_asked ∷ stopped ∷ []
    | inr cause ↦ []
  ]

  listen_on-session :
      (host : Host) (server : Server) (m : modules.Module)
      → host.listen server.listen_addr ≡ inl tt
      → (listen_on modules host server m).0 ≡ session host server m
  unfolding listen_on await_end
  listen_on-session host server m e = elim (sum-cases host.ctrl_c) [
    | inl (_, e') ↦ rw (e, e', listen_on, await_end, session) refl
    | inr (cause, e') ↦ rw (e, e', listen_on, await_end, session) refl
  ]

  listen_on-ok_iff :
      (host : Host) (server : Server) (m : modules.Module)
      → ((listen_on modules host server m).1 ≡ ok tt)
        ↔ ((host.listen server.listen_addr ≡ inl tt) × (host.ctrl_c ≡ inl tt))
  unfolding listen_on await_end
  listen_on-ok_iff host server m = elim (sum-cases (host.listen server.listen_addr)) [
    | inr (cause, e) ↦ rw (e, listen_on) (λ h. cc, λ (h, _). cc)
    | inl (_, e) ↦ elim (sum-cases host.ctrl_c) [
      | inr (cause, e') ↦ rw (e, e', listen_on, await_end) (λ h. cc, λ (_, h). cc)
      | inl (_, e') ↦ rw (e, e', listen_on, await_end) (λ _. (refl, refl), λ _. refl)
    ]
  ]

  run_server-listen_on :
      (host : Host) (server : Server) (m : modules.Module)
      → merge_modules modules server ≡ ok m
      → run_server modules host server ≡ listen_on modules host server m
  unfolding run_server
  run_server-listen_on host server m e = rw (e, run_server) refl

  module _ (host : Host) {Url : Type 0} (parse : String → Url ⊎ String) (keys : PrivateKeys)
      (simulations_runtime : Bytes) (package_version : String) (world : World)
      (cfg : BundlerConfig) where
    abbrev prepared : Result StartError Server
    prepared = (run world (prepare_server parse keys simulations_runtime package_version cfg) []).0

    abbrev ending : List (HostEvent modules) × Result MainError (Unit {0})
    ending = main modules host parse keys simulations_runtime package_version world cfg

    abbrev Ready : Type 0
    Ready = CanStart parse keys simulations_runtime package_version world cfg

    main-run_server :
        (server : Server) → prepared ≡ ok server → ending ≡ run_server modules host server
    unfolding main
    main-run_server server e = rw (e, main) refl

    abbrev Fails : Type 0
    Fails =
        (ending.0 ≡ []) × (ending.1 ≢ ok tt) × (((server : Server) × (prepared ≡ ok server)) → ⊥)

    main_cases : ((server : Server) × (prepared ≡ ok server)) ⊎ Fails
    unfolding main
    main_cases = by_result prepared refl
      where
        by_result :
            (r : Result StartError Server)
            → prepared ≡ r
            → ((server : Server) × (prepared ≡ ok server)) ⊎ Fails
        by_result (ok server) e = inl (server, e)
        by_result (err x) e = inr (rw (e, main) refl, rw (e, main) (λ h. cc), λ (server, h). cc)
        by_result (panic x) e = inr (rw (e, main) refl, rw (e, main) (λ h. cc), λ (server, h). cc)

    starts_iff : ((server : Server) × (prepared ≡ ok server)) ↔ Ready
    starts_iff = prepare_server-CanStart parse keys simulations_runtime package_version world cfg

    -- `main` ends without an error exactly if the server can start, which is a matter of the URL,
    -- the key and the three probes, the configured address can be bound, and the wait for the
    -- interrupt ends with one: merging the modules of the three services never fails.
    pub main-ok_iff :
        (ending.1 ≡ ok tt)
        ↔ (Ready × (host.listen cfg.listen_addr ≡ inl tt) × (host.ctrl_c ≡ inl tt))
    main-ok_iff = elim main_cases [
      | inr (_, bad, never) ↦
          (λ h. absurd (bad h), λ (ready, _, _). absurd (never (starts_iff.1 ready)))
      | inl (server, e) ↦
          let (m, merges, _) = merge_modules-Serves server in
          let whole = main-run_server server e ∙ run_server-listen_on host server m merges in
          let (key, same) =
            prepare_server-server_of parse keys simulations_runtime package_version world cfg server
              e in
          let address : server.listen_addr ≡ cfg.listen_addr =
            ap (λ (s : Server). s.listen_addr) same in
          let (from, to) = listen_on-ok_iff host server m in
          (
            λ h.
                let (listens, interrupt) = from (sym (ap (λ p. p.1) whole) ∙ h) in
                (starts_iff.0 (server, e), ap host.listen (sym address) ∙ listens, interrupt),
            λ (_, listens, interrupt).
                ap (λ p. p.1) whole ∙ to (ap host.listen address ∙ listens, interrupt),
          )
    ]

    -- If the server cannot start, `main` does nothing to the outside. If it can, and the address is
    -- bound, `main` starts a module on it that has the methods `ethera_buildSignedUserOpsTx`,
    -- `eth_chainId`, `eth_supportedEntryPoints` and `web3_clientVersion` of the prepared server and
    -- no other; after an interrupt it first cancels the work in flight, and then stops the server
    -- and waits for its end.
    pub main-session :
        ((Ready → ⊥) → ending.0 ≡ [])
        × ((server : Server)
            → prepared ≡ ok server
            → host.listen server.listen_addr ≡ inl tt
            → (m : modules.Module) × Serves server m × (ending.0 ≡ session host server m))
    main-session = (
      λ no. elim main_cases [
        | inr (quiet, _, _) ↦ quiet
        | inl starts ↦ absurd (no (starts_iff.0 starts))
      ],
      λ server e listens.
          let (m, merges, serves) = merge_modules-Serves server in
          (
            m,
            serves,
            ap (λ p. p.0) (main-run_server server e ∙ run_server-listen_on host server m merges)
                ∙ listen_on-session host server m listens,
          ),
    )
