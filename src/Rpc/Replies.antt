-- ===== src/Rpc/Replies.antt =====
-- What a reply of the server tells its client about the broadcast.
use ethera_bundler.Base.{
  ℕ, ◌≡◌, refl, ◌∙◌, ap, Bool, Bool-cases, true, false, List, [], ◌∷◌, All, Option, none, some,
  Result, ok, err, panic, if◌then◌else◌, inl, inr, map_err, String,
}
use text.Mathlib.Text.{starts_with}
use ethera_bundler.Base.Int.{ℤ}
use ethera_bundler.Base.Bytes.{Bytes}
use ethera_bundler.Alloy.{Uint}
use ethera_bundler.Contracts.{Abi}
use ethera_bundler.Types.{UserOpV07, BuildOpts, SignedTxResp, IsUserOp, IsU256}
use ethera_bundler.Program.{World, run, done}
use ethera_bundler.Program.Laws.{Safe, Safe-bind, Safe_weaken, run-Safe, IsTyped}
use ethera_bundler.Errors.{
  Format, HandleOpsRevertReason, failed_op, failed_op_with_revert, BundlerError, provider,
  receipt_timeout, handle_ops_reverted, cancelled,
}
use ethera_bundler.Errors.Json.{Payload}
use ethera_bundler.Errors.Display.{error_text}
use ethera_bundler.Errors.Classify.{classify}
use ethera_bundler.Errors.Classify.Codes.{
  Blame, caller, clock, aggregator, blame, blame_reason, code_of, classify-code_of,
}
use ethera_bundler.Bundler.Pipeline.Shutdown
use ethera_bundler.Bundler.Pipeline.{Bundler}
use ethera_bundler.Bundler.Pipeline.Stage.{Stage, start, discipline, is_late}
use ethera_bundler.Bundler.Pipeline.Broadcasts.{broadcasts, sent_list, broadcasts-sent_list}
use ethera_bundler.Bundler.Pipeline.Cancel.{EndsOrCancelled, cancellable-Safe}
use ethera_bundler.Rpc.{ErrorObjects, BundlerRpc, build_signed_user_ops_tx, error_object}

-- Who is blamed only before the broadcast.
abbrev pub is_early : Blame → Bool
is_early caller = true
is_early clock = true
is_early aggregator = true
is_early _ = false

-- A reply of the server with the raw transactions that were sent. With a response its transaction
-- was sent once in submit mode, and nothing was sent in sign-only mode. An error has one of the
-- six codes, and with one that blames the caller, the clock or an aggregator nothing was sent.
abbrev pub Replies :
    (objects : ErrorObjects)
    → (submit : Bool) → (sent : List Bytes) → Result objects.Object SignedTxResp
    → Type 0
Replies objects submit sent (ok resp) = sent ≡ (if submit then resp.raw ∷ [] else [])
Replies objects submit sent (err o) =
    (x : Blame) × (objects.code o ≡ code_of x) × (is_early x ≡ true → sent ≡ [])
Replies objects submit sent (panic m) = ⊥

early_reason : (r : HandleOpsRevertReason) → is_early (blame_reason r) ≡ false
early_reason (failed_op i reason) = elim (Bool-cases (starts_with reason "AA3")) [
  | inl e ↦ rw e
  | inr e ↦ rw e
]
early_reason (failed_op_with_revert i reason inner) = elim (Bool-cases (starts_with reason "AA3")) [
  | inl e ↦ rw e
  | inr e ↦ rw e
]
early_reason _ = refl

late_early : (e : BundlerError) → is_late e ≡ true → is_early (blame e) ≡ false
late_early (handle_ops_reverted h n r) l = early_reason r
late_early (provider e) l = refl
late_early (receipt_timeout h) l = refl
late_early _ l = cc

sent-submit :
    (submit : Bool) (raw : Bytes)
    → sent_list (if submit then some raw else none) ≡ (if submit then raw ∷ [] else [])
sent-submit true raw = refl
sent-submit false raw = refl

module _ ⦃u : Uint⦄ ⦃f : Format⦄ ⦃abi : Abi⦄ (objects : ErrorObjects)
    (code_owned : (c : ℤ) (message : String) (payload : Option Payload)
      → objects.code (objects.owned c message payload) ≡ c) where
  code-error_object : (e : BundlerError) → objects.code (error_object objects e) ≡ code_of (blame e)
  unfolding error_object
  code-error_object e =
      code_owned (classify e).0 (error_text e) (some (classify e).1) ∙ classify-code_of e

  Ends-Replies :
      (b : Bundler) (ops : List UserOpV07) (submit : Bool) (t : Stage)
      (r : Result BundlerError SignedTxResp)
      → EndsOrCancelled b ops submit t r
      → Replies objects submit (sent_list t.sent) (map_err (error_object objects) r)
  Ends-Replies b ops submit t (ok resp) (inr (free, g)) =
      ap sent_list g.sent ∙ sent-submit submit resp.raw
  Ends-Replies b ops submit t (ok resp) (inl (e, free)) = cc
  Ends-Replies b ops submit t (err x) (inl (e, free)) = (
    blame x,
    code-error_object x,
    λ early.
        let same : x ≡ cancelled = cc in let late : is_early (blame x) ≡ false = rw same refl in cc,
  )
  Ends-Replies b ops submit t (err x) (inr (free, quiet, inl unsent)) =
      (blame x, code-error_object x, λ early. ap sent_list unsent)
  Ends-Replies b ops submit t (err x) (inr (free, quiet, inr late)) =
      (blame x, code-error_object x, λ early. let no = late_early x late in cc)
  Ends-Replies b ops submit t (panic m) (inl (e, free)) = cc
  Ends-Replies b ops submit t (panic m) (inr h) = h

  -- Whatever the node, the clock and the signer answer in the ranges of their types, and whenever
  -- the shutdown signal comes, the server replies to a batch of operations in the ranges of their
  -- types: with a response, after the broadcast of its transaction and of nothing else in submit
  -- mode, and of nothing in sign-only mode, or with an error that has one of the six codes. An
  -- error that blames the caller, the clock or an aggregator comes before any broadcast. This is for a minimum fee in range and error objects
  -- that have the code they are made with.
  pub run-Replies :
      (rpc : BundlerRpc) (fires : Option ℕ) (ops : List UserOpV07) (opts : BuildOpts)
      → IsU256 rpc.inner.cfg.min_priority_fee_wei
      → All IsUserOp ops
      → (world : World) → IsTyped (discipline rpc.inner opts.submit) world
      → let (r, log) = run world (build_signed_user_ops_tx objects rpc fires ops opts) [] in
        Replies objects opts.submit (broadcasts log) r
  unfolding build_signed_user_ops_tx
  run-Replies rpc fires ops opts hm w world typed =
      let b = rpc.inner in
      let P = discipline b opts.submit in
      let program = build_signed_user_ops_tx objects rpc fires ops opts in
      let Q : Stage → Result objects.Object SignedTxResp → Type 0 =
        λ t r. Replies objects opts.submit (sent_list t.sent) r in
      let safe : Safe P start program Q =
        Safe-bind P Q start (Shutdown.build_signed_user_ops_tx b fires ops opts)
          (λ r. done (map_err (error_object objects) r))
          (Safe_weaken P (EndsOrCancelled b ops opts.submit)
            (λ t r. Q t (map_err (error_object objects) r)) start
            (Shutdown.build_signed_user_ops_tx b fires ops opts)
            (cancellable-Safe b ops opts hm w fires) (Ends-Replies b ops opts.submit)) in
      let (obeyed, replies) = run-Safe P Q world start program [] typed tt safe in
      rw (broadcasts-sent_list b opts.submit (run world program []).1 obeyed) replies
