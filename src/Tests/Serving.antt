-- ===== src/Tests/Serving.antt =====
-- `main` with a table of methods, and a host that lets it listen until an interrupt.
use text.Mathlib.Text.{◌==◌}
use text.Mathlib.TextEquality.{eq_iff}
use ethera_bundler.Base.{
  String, List, [], ◌∷◌, ◌++◌, ◌≡◌, refl, ◌↔◌, Bool-cases, true, false, none, ok, ◌⊎◌, inl, inr,
  if◌then◌else◌,
}
use ethera_bundler.Base.Names.{lookup, has, lookup-append, is_disjoint}
use ethera_bundler.Program.{run}
use ethera_bundler.Startup.{Server, prepare_server}
use ethera_bundler.Startup.Serves.{CanStart}
use ethera_bundler.Startup.Main.{Method, RpcModules, Host, main}
use ethera_bundler.Startup.Main.Serving.{Serves, session, main-ok_iff, main-session}
use ethera_bundler.Tests.Data.{config, world}
use ethera_bundler.Tests.Server.{keys, parse, server, started}

unknown-has :
    (name : String) (xs : List (String × Method)) → lookup name xs ≡ none → has name xs ≡ false
unknown-has name [] h = refl
unknown-has name ((n, a) ∷ rest) h = elim (Bool-cases (name == n)) [
  | inl e ↦ let no = rw e at h in cc
  | inr e ↦ rw e (unknown-has name rest (rw e at h))
]

apart :
    (xs ys : List (String × Method))
    → ((name : String) → (lookup name xs ≡ none) ⊎ (lookup name ys ≡ none))
    → is_disjoint xs ys ≡ true
apart [] ys h = refl
apart ((n, a) ∷ rest) ys h =
    let own : (n == n) ≡ true = (eq_iff n n).1 refl in
    elim (h n) [
      | inl e ↦ let no = rw own at e in cc
      | inr e ↦ rw (unknown-has n ys e) (
          apart rest ys (λ name. elim (h name) [
            | inr e' ↦ inr e'
            | inl e' ↦ elim (Bool-cases (name == n)) [
              | inl q ↦ let no = rw q at e' in cc
              | inr q ↦ inl (rw q at e')
            ]
          ]))
    ]

abbrev table : RpcModules
table = record {
  Module = List (String × Method);
  into_rpc = λ methods. methods;
  method = λ m name. lookup name m;
  merge = λ m n. if is_disjoint m n then inl (m ++ n) else inr "method already registered";
  method-into_rpc = λ methods name h. refl;
  merge_lem = λ m n h. (m ++ n, rw (apart m n h) refl, λ name. lookup-append name m n);
}

abbrev host : Host
host = record { listen = λ address. inl tt; ctrl_c = inl tt }

main-ok_iff_example : ((main table host parse keys (0x60 ∷ []) "0.1.0" world config).1 ≡ ok tt) ↔ (
    CanStart parse keys (0x60 ∷ []) "0.1.0" world config
    × (host.listen config.listen_addr ≡ inl tt)
    × (host.ctrl_c ≡ inl tt))
main-ok_iff_example = main-ok_iff table host parse keys (0x60 ∷ []) "0.1.0" world config

main-session_example :
    ((CanStart parse keys (0x60 ∷ []) "0.1.0" world config → ⊥)
      → (main table host parse keys (0x60 ∷ []) "0.1.0" world config).0 ≡ [])
    × ((s : Server)
        → (run world (prepare_server parse keys (0x60 ∷ []) "0.1.0" config) []).0 ≡ ok s
        → host.listen s.listen_addr ≡ inl tt
        → (m : table.Module) × Serves table s m
          × ((main table host parse keys (0x60 ∷ []) "0.1.0" world config).0
              ≡ session table host s m))
main-session_example = main-session table host parse keys (0x60 ∷ []) "0.1.0" world config

-- The server of the other tests is the one that is served.
served :
    (m : table.Module) × Serves table server m
    × ((main table host parse keys (0x60 ∷ []) "0.1.0" world config).0
        ≡ session table host server m)
served = (main-session table host parse keys (0x60 ∷ []) "0.1.0" world config).1 server started refl
