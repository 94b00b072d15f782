-- ===== src/Bundler/Pipeline/Promises.antt =====
-- What `build_inner` promises, in terms of its calls, its operations and its response.
use ethera_bundler.Base.{
  ℕ, ◌+◌, ◌≤◌, ◌≡◌, ◌≢◌, sym, ◌∙◌, String, true, false, refl, List, [], ◌∷◌, All, Option, none,
  some, Result, ok, err, panic, arith,
}
use ethera_bundler.Base.Bytes.{Bytes}
use ethera_bundler.Alloy.{Uint}
use ethera_bundler.Contracts.{Abi}
use ethera_bundler.Types.{UserOpV07, BuildOpts, SignedTxResp, IsUserOp, IsU256}
use ethera_bundler.Program.{World, Log, run}
use ethera_bundler.Program.Laws.{replay, Obeyed, IsTyped}
use ethera_bundler.Errors.{Format, BundlerError}
use ethera_bundler.Bundler.Policy.Fees.{IsPriced, least-le, le-least}
use ethera_bundler.Bundler.Pipeline.{Bundler, build_inner}
use ethera_bundler.Bundler.Pipeline.Stage.{Stage, start, discipline}
use ethera_bundler.Bundler.Pipeline.Checks.{tips_of, caps_of}
use ethera_bundler.Bundler.Pipeline.Build.{IsConfirmed}
use ethera_bundler.Bundler.Pipeline.Built.{IsBuilt, Ends}
use ethera_bundler.Bundler.Pipeline.Requests.{
  count, is_broadcast, is_lock, is_unlock, counted, counted_sign_only, run-build_inner, sent_count,
}

-- The fees of a response against those of one operation.
pub record IsCovered (resp : SignedTxResp) (op : UserOpV07) : Type 0 where
  pub cap : resp.max_fee_per_gas ≤ op.max_fee_per_gas
  pub tip : resp.max_priority_fee_per_gas ≤ op.max_priority_fee_per_gas

covered :
    (resp : SignedTxResp) (ops : List UserOpV07)
    → All (λ c. resp.max_fee_per_gas ≤ c) (caps_of ops)
    → All (λ t. resp.max_priority_fee_per_gas ≤ t) (tips_of ops)
    → All (IsCovered resp) ops
covered resp [] hc ht = tt
covered resp (op ∷ ops) hc ht = (record { cap = hc.0; tip = ht.0 }, covered resp ops hc.1 ht.1)

All-below : (k m : ℕ) (xs : List ℕ) → k ≤ m → All (λ x. m ≤ x) xs → All (λ x. k ≤ x) xs
All-below k m [] h w = tt
All-below k m (x ∷ xs) h w = (omega (arith, h, w.0), All-below k m xs h w.1)

tips-enough :
    (b : Bundler) (base : ℕ) (ops : List UserOpV07)
    → All (IsPriced b.cfg base) ops
    → All (λ t. b.cfg.min_priority_fee_wei ≤ t) (tips_of ops)
tips-enough b base [] w = tt
tips-enough b base (op ∷ ops) w = (w.0.tip_enough, tips-enough b base ops w.1)

pub sent_bound : (sent : Option Bytes) → sent_count sent ≤ 1
sent_bound none = omega arith
sent_bound (some raw) = omega arith

module _ ⦃u : Uint⦄ ⦃f : Format⦄ ⦃abi : Abi⦄ (b : Bundler) (opts : BuildOpts)
    (ops : List UserOpV07) where
  pub Ends-ok :
      (t : Stage) (r : Result BundlerError SignedTxResp) (resp : SignedTxResp)
      → Ends b ops opts.submit t r
      → r ≡ ok resp
      → IsBuilt b ops opts.submit t resp
  Ends-ok t (ok resp') resp h e = let same : resp' ≡ resp = cc in rw (sym same) h.1
  Ends-ok t (err e') resp h e = cc
  Ends-ok t (panic m) resp h e = cc

  pub Ends-free :
      (t : Stage) (r : Result BundlerError SignedTxResp)
      → Ends b ops opts.submit t r
      → t.held ≡ false
  Ends-free t (ok resp') h = h.0
  Ends-free t (err e') h = h.0
  Ends-free t (panic m) h = elim h [ ]

  Ends-ne-panic :
      (t : Stage) (r : Result BundlerError SignedTxResp) (m : String)
      → Ends b ops opts.submit t r
      → r ≢ panic m
  Ends-ne-panic t (ok resp') m h e = cc
  Ends-ne-panic t (err e') m h e = cc
  Ends-ne-panic t (panic m') m h e = h

module _ ⦃u : Uint⦄ ⦃f : Format⦄ ⦃abi : Abi⦄ (b : Bundler) (opts : BuildOpts) (ops : List UserOpV07)
    (world : World) (hm : IsU256 b.cfg.min_priority_fee_wei) (w : All IsUserOp ops)
    (typed : IsTyped (discipline b opts.submit) world) where
  abbrev result : Result BundlerError SignedTxResp
  result = (run world (build_inner b ops opts) []).0

  abbrev log_of : Log
  log_of = (run world (build_inner b ops opts) []).1

  abbrev last_stage : Stage
  last_stage = replay (discipline b opts.submit) start log_of

  promise :
      Obeyed (discipline b opts.submit) start log_of × Ends b ops opts.submit last_stage result
  promise = run-build_inner b opts ops world hm w typed

  -- Given operations and a minimum fee in the ranges of their types, a request panics in no world
  -- with answers in range: neither on a missing minimum nor on a short slice.
  build_inner-ne-panic : (m : String) → (run world (build_inner b ops opts) []).0 ≢ panic m
  build_inner-ne-panic m = Ends-ne-panic b opts ops last_stage result m promise.1

  -- Given operations, a minimum fee and answers in the ranges of their types, the fees of a
  -- response suit every operation of the batch and the network: they exceed no operation's tip or
  -- fee cap, the tip is at least the bundler's minimum, and the fee cap covers the base fee that
  -- the node answered together with the tip.
  pub build_inner_fees :
      (resp : SignedTxResp)
      → (run world (build_inner b ops opts) []).0 ≡ ok resp
      → All (IsCovered resp) ops
        × (b.cfg.min_priority_fee_wei ≤ resp.max_priority_fee_per_gas)
        × ((base : ℕ) × ((replay
                (discipline b opts.submit)
                start
                (run world (build_inner b ops opts) []).1).base
              ≡ some base)
            × (base + resp.max_priority_fee_per_gas ≤ resp.max_fee_per_gas))
  build_inner_fees resp e =
      let g : IsBuilt b ops opts.submit last_stage resp =
        Ends-ok b opts ops last_stage result resp promise.1 e in
      let tip_low : resp.max_priority_fee_per_gas ≤ g.min_tip = omega (arith, g.tip) in
      let least_enough : b.cfg.min_priority_fee_wei ≤ g.min_tip =
        le-least b.cfg.min_priority_fee_wei g.min_tip (tips_of ops)
          (tips-enough b g.base ops g.priced) g.min_tip_least in
      (
        covered resp ops (least-le resp.max_fee_per_gas (caps_of ops) g.cap) (
            All-below resp.max_priority_fee_per_gas g.min_tip (tips_of ops) tip_low
              (least-le g.min_tip (tips_of ops) g.min_tip_least)),
        omega (arith, g.tip, least_enough),
        (g.base, g.base_read, g.covers),
      )

  -- Given operations, a minimum fee and answers in the ranges of their types, a request broadcasts
  -- at most once, and in sign-only mode neither broadcasts nor takes the lock; every lock that it
  -- takes it releases, also when it ends in an error.
  pub build_inner_broadcasts :
      let log = (run world (build_inner b ops opts) []).1 in
      (count is_broadcast log ≤ 1)
      × (opts.submit ≡ false → (count is_broadcast log ≡ 0) × (count is_lock log ≡ 0))
      × (count is_lock log ≡ count is_unlock log)
  build_inner_broadcasts =
      let (sends, locks) = counted b opts.submit log_of promise.0 in
      let free : last_stage.held ≡ false = Ends-free b opts ops last_stage result promise.1 in
      (
        omega (arith, sends, sent_bound last_stage.sent),
        λ e. counted_sign_only b opts.submit log_of e promise.0,
        locks ∙ rw free (omega arith),
      )

  -- Given operations, a minimum fee and answers in the ranges of their types, a response in submit
  -- mode comes only after its transaction was broadcast and the node has told a receipt of success
  -- for its hash; a transaction that reverts or has no receipt in time gives an error.
  pub build_inner-IsConfirmed :
      (resp : SignedTxResp)
      → opts.submit ≡ true
      → (run world (build_inner b ops opts) []).0 ≡ ok resp
      → let t = replay (discipline b opts.submit) start (run world (build_inner b ops opts) []).1 in
        (t.sent ≡ some resp.raw) × IsConfirmed t resp.hash
  build_inner-IsConfirmed resp mode e =
      let g : IsBuilt b ops opts.submit last_stage resp =
        Ends-ok b opts ops last_stage result resp promise.1 e in
      (g.sent ∙ rw mode refl, g.confirmed mode)
