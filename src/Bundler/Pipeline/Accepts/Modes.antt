-- ===== src/Bundler/Pipeline/Accepts/Modes.antt =====
-- The two modes of a request against each other.
use ethera_bundler.Base.{ℕ, ◌≡◌, ◌↔◌, refl, Bool, true, false, List, [], All, ok, inl}
use ethera_bundler.Alloy.{Uint}
use ethera_bundler.Contracts.{Abi}
use ethera_bundler.Types.{UserOpV07, BuildOpts, SignedTxResp, IsUserOp, IsU256}
use ethera_bundler.Provider.{base_fee}
use ethera_bundler.Program.{Call, Answer, query, run}
use ethera_bundler.Program.Steady.{steady}
use ethera_bundler.Errors.{Format}
use ethera_bundler.Bundler.Pipeline.{Bundler, build_inner}
use ethera_bundler.Bundler.Pipeline.Accepts.Outer.{Mined}
use ethera_bundler.Bundler.Pipeline.Accepts.Response.{envelope_of, IsBuildable}
use ethera_bundler.Bundler.Pipeline.Accepts.Requests.{build_inner-ok_iff}

-- The options of a request in one of the modes.
abbrev pub submitting : ℕ → BuildOpts
submitting chain_id = record { chain_id = chain_id; submit = true }

abbrev pub sign_only : ℕ → BuildOpts
sign_only chain_id = record { chain_id = chain_id; submit = false }

module _ ⦃u : Uint⦄ ⦃f : Format⦄ ⦃abi : Abi⦄ (answers : (c : Call) → Answer c) (b : Bundler)
    (chain_id : ℕ) (ops : List UserOpV07) (resp : SignedTxResp)
    (hm : IsU256 b.cfg.min_priority_fee_wei) (w : All IsUserOp ops)
    (typed : (n : ℕ) → answers (query base_fee) ≡ inl n → IsU256 n) where
  -- Given operations, a minimum fee and an answered base fee in the ranges of their types, and a
  -- world that answers every call the same way whenever it is made, a request in submit mode ends
  -- in a response exactly if the same request in sign-only mode ends in the same response, and the
  -- node takes the transaction of that response and tells its receipt of success.
  pub build_inner-Mined :
      ((run (steady answers) (build_inner b ops (submitting chain_id)) []).0 ≡ ok resp) ↔ (
        ((run (steady answers) (build_inner b ops (sign_only chain_id)) []).0 ≡ ok resp)
        × Mined answers (envelope_of resp))
  build_inner-Mined =
      let submit = build_inner-ok_iff answers b (submitting chain_id) ops resp hm w typed in
      let sign = build_inner-ok_iff answers b (sign_only chain_id) ops resp hm w typed in
      (
        λ h.
            let g = submit.0 h in
            (
              sign.1 (record {
                for_chain = g.for_chain;
                some_ops = g.some_ops;
                few_ops = g.few_ops;
                buildable = with_mode false g.buildable (λ e. cc);
              }),
              g.buildable.mined refl,
            ),
        λ (h, mined).
            let g = sign.0 h in
            submit.1 (record {
              for_chain = g.for_chain;
              some_ops = g.some_ops;
              few_ops = g.few_ops;
              buildable = with_mode true g.buildable (λ _. mined);
            }),
      )
    where
      with_mode :
          {mode : Bool} (submit : Bool)
          → IsBuildable b answers ops mode resp
          → (submit ≡ true → Mined answers (envelope_of resp))
          → IsBuildable b answers ops submit resp
      with_mode submit g mined = record {
        base = g.base;
        base_read = g.base_read;
        suggested = g.suggested;
        suggested_read = g.suggested_read;
        passing = g.passing;
        hashed = g.hashed;
        estimate = g.estimate;
        estimated = g.estimated;
        gas = g.gas;
        min_tip = g.min_tip;
        min_tip_least = g.min_tip_least;
        tip = g.tip;
        cap = g.cap;
        covers = g.covers;
        to = g.to;
        chain_id = g.chain_id;
        nonce = g.nonce;
        nonce_read = g.nonce_read;
        signed = g.signed;
        mined = mined;
      }
