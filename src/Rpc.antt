-- ===== src/Rpc.antt =====
-- crates/bundler/src/rpc.rs: `ethera_buildSignedUserOpsTx`, the method of the JSON-RPC server.
-- The error objects of `jsonrpsee` are a parameter.
pub mod Replies
pub mod Served
pub mod Refused
use ethera_bundler.Base.{ℕ, String, List, Option, some, Result, map_err}
use ethera_bundler.Base.Int.{ℤ}
use ethera_bundler.Alloy.{Uint}
use ethera_bundler.Contracts.{Abi}
use ethera_bundler.Types.{UserOpV07, BuildOpts, SignedTxResp}
use ethera_bundler.Program.{Program, done, bind}
use ethera_bundler.Errors.{Format, BundlerError}
use ethera_bundler.Errors.Json.{Payload}
use ethera_bundler.Errors.Display.{error_text}
use ethera_bundler.Errors.Classify.{classify}
use ethera_bundler.Bundler.Pipeline.Shutdown
use ethera_bundler.Bundler.Pipeline.{Bundler}

-- `ErrorObjectOwned`: its constructor `owned` and the reading of its code.
pub record ErrorObjects : Type 1 where
  pub Object : Type 0
  pub owned : ℤ → String → Option Payload → Object
  pub code : Object → ℤ

-- `BundlerRpc`
pub record BundlerRpc : Type 0 where
  pub inner : Bundler

abbrev pub new : Bundler → BundlerRpc
new inner = record { inner = inner }

module _ ⦃u : Uint⦄ ⦃f : Format⦄ ⦃abi : Abi⦄ (objects : ErrorObjects) where
  unfoldable pub error_object : BundlerError → objects.Object
  error_object e =
      let (code, payload) = classify e in objects.owned code (error_text e) (some payload)

  -- When the shutdown signal comes is the argument `fires`, as for the bundler.
  unfoldable pub build_signed_user_ops_tx :
      BundlerRpc
      → (fires : Option ℕ) → List UserOpV07
      → BuildOpts
      → Program (Result objects.Object SignedTxResp)
  build_signed_user_ops_tx rpc fires user_ops opts =
      bind (Shutdown.build_signed_user_ops_tx rpc.inner fires user_ops opts)
        (λ r. done (map_err error_object r))
