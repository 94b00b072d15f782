-- ===== src/Provider/AlloyProvider/Confirmed.antt =====
-- A response of the bundler over `AlloyProvider`, and the receipt at the node.
use mathlib.Core.Path.{subst}
use ethera_bundler.Base.{ℕ, ◌+◌, ◌≡◌, sym, ap, ◌∙◌, true, List, [], All, some, ok, inl}
use ethera_bundler.Alloy.{Uint, Hash}
use ethera_bundler.Contracts.{Abi}
use ethera_bundler.Types.{UserOpV07, BuildOpts, SignedTxResp, IsUserOp, IsU256}
use ethera_bundler.Errors.{Format}
use ethera_bundler.Provider.{ReceiptInfo, wait_for_receipt}
use ethera_bundler.Provider.Remote.{
  Receipt, RpcRequest, get_transaction_receipt, Outside, IsClock, from_millis, SimulationsAbi,
}
use ethera_bundler.Provider.AlloyProvider.{serve, await_receipt}
use ethera_bundler.Provider.AlloyProvider.Receipts.{Answers, await_receipt-Answers}
use ethera_bundler.Provider.AlloyProvider.Served.{IsRanged, node_after, served, served-IsTyped}
use ethera_bundler.Program.{World, run}
use ethera_bundler.Program.Laws.{run-Answered}
use ethera_bundler.Bundler.Pipeline.Told.{replay-Receives}
use ethera_bundler.Bundler.Pipeline.{Bundler, build_inner}
use ethera_bundler.Bundler.Pipeline.Promises.{build_inner-IsConfirmed}

module _ ⦃simulations : SimulationsAbi⦄ {S : Type 0} (o : Outside S) (time : S → ℕ)
    (clock : IsClock o time) where
  -- The node has a receipt of success for this hash.
  abbrev pub IsMined : Hash → Type 0
  IsMined hash =
      (t : S) × (r : Receipt) × ((o.send (get_transaction_receipt hash) t).0 ≡ inl (some r))
      × (r.status ≡ true)

  serve-IsMined :
      (hash : Hash) (timeout : ℕ) (s : S) (info : ReceiptInfo)
      → info.success ≡ true
      → (serve o (wait_for_receipt hash timeout) s).0 ≡ inl (some info)
      → IsMined hash
  unfolding serve
  serve-IsMined hash timeout s info good h =
      let (a, e, answers) = await_receipt-Answers o time hash clock (from_millis timeout) s in
      let told : a ≡ inl (some info) = rw (e, serve) at h in
      let (t, r, found, end, read) : Answers o time hash (time s + from_millis timeout)
          (inl (some info)) (await_receipt o hash (from_millis timeout) s).1 =
        subst
          (λ x.
            Answers o time hash (time s + from_millis timeout) x
              (await_receipt o hash (from_millis timeout) s).1)
          told answers in
      (t, r, found, sym (ap (λ (x : ReceiptInfo). x.success) read) ∙ good)

  module _ ⦃u : Uint⦄ ⦃f : Format⦄ ⦃abi : Abi⦄
      (ranged : (r : RpcRequest) (s : S) → IsRanged r (o.send r s).0) where
    -- Over `AlloyProvider`, a response in submit mode means that the node has told a receipt of
    -- success for the transaction's hash. This is for operations, a minimum fee and responses of
    -- the node in the ranges of their types, and a clock that does not go back and sleeps at least
    -- as long as asked.
    pub served-IsMined :
        (s0 : S) (rest : World) (b : Bundler) (ops : List UserOpV07) (opts : BuildOpts)
        (resp : SignedTxResp)
        → IsU256 b.cfg.min_priority_fee_wei
        → All IsUserOp ops
        → opts.submit ≡ true
        → (run (served o s0 rest) (build_inner b ops opts) []).0 ≡ ok resp
        → IsMined resp.hash
    served-IsMined s0 rest b ops opts resp hm w mode h =
        let world : World = served o s0 rest in
        let (sent, (info, told, good)) =
          build_inner-IsConfirmed b opts ops world hm w
            (served-IsTyped o ranged b opts.submit s0 rest) resp mode h in
        let (log, timeout, answer) =
          replay-Receives world b opts.submit resp.hash info
            (run world (build_inner b ops opts) []).1
            (run-Answered world (build_inner b ops opts) [] tt) told in
        serve-IsMined resp.hash timeout (node_after o s0 rest log) info good answer
