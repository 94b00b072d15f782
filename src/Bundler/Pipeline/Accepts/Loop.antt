-- ===== src/Bundler/Pipeline/Accepts/Loop.antt =====
-- The loop over the operations: it passes exactly if every operation does, and what it gathers.
use ethera_bundler.Base.{
  ℕ, ◌+◌, ◌≡◌, refl, sym, ap, ◌∙◌, ◌↔◌, List, [], ◌∷◌, ◌++◌, map, All, Result, ok,
}
use mathlib.Core.List.{map-append, append_assoc, append-nil}
use ethera_bundler.Alloy.{Uint, Hash}
use ethera_bundler.Contracts.{Abi}
use ethera_bundler.Types.{UserOpV07, IsUserOp, IsU256}
use ethera_bundler.Packing.Fields.{packed}
use ethera_bundler.Program.{Call, Answer, unix_now, Program}
use ethera_bundler.Program.Steady.{outcome, outcome-eq-ok, bind-eq-ok}
use ethera_bundler.Errors.{Format, BundlerError}
use ethera_bundler.Bundler.Policy.Fees.{least, update_min-least}
use ethera_bundler.Bundler.Pipeline.{Bundler, Batch, check_op, check_ops}
use ethera_bundler.Bundler.Pipeline.Checks.{with_op, tips_of, caps_of}
use ethera_bundler.Bundler.Pipeline.Accepts.{IsPassing, Hashed}
use ethera_bundler.Bundler.Pipeline.Accepts.Operation.{check_op-ok_iff}

module _ ⦃u : Uint⦄ where
  -- The variables of the loop after the operations, with their hashes.
  abbrev pub gather : Batch → List UserOpV07 → List Hash → Batch
  gather batch [] hashes = batch
  gather batch (op ∷ ops) [] = batch
  gather batch (op ∷ ops) (hash ∷ hashes) = gather (with_op batch op (packed op) hash) ops hashes

  -- What the variables hold after the operations `past` with the hashes `told`.
  pub record IsGathered (past : List UserOpV07) (told : List Hash) (batch : Batch) : Type 0 where
    pub packed_ops : batch.packed_ops ≡ map packed past
    pub hashes : batch.user_op_hashes ≡ told
    pub tips : batch.min_user_tip ≡ least (tips_of past)
    pub caps : batch.min_user_fee_cap ≡ least (caps_of past)

  with_op-IsGathered :
      (past : List UserOpV07) (told : List Hash) (batch : Batch) (op : UserOpV07) (hash : Hash)
      → IsGathered past told batch
      → IsGathered (past ++ (op ∷ [])) (told ++ (hash ∷ [])) (with_op batch op (packed op) hash)
  with_op-IsGathered past told batch op hash g = record {
    packed_ops = rw (map-append, g.packed_ops) refl;
    hashes = rw g.hashes refl;
    tips = rw (map-append, g.tips) (update_min-least (tips_of past) op.max_priority_fee_per_gas);
    caps = rw (map-append, g.caps) (update_min-least (caps_of past) op.max_fee_per_gas);
  }

  module _ (answers : (c : Call) → Answer c) (b : Bundler) where
    pub gather-IsGathered :
        (past ops : List UserOpV07) (told hashes : List Hash) (batch : Batch)
        → Hashed answers b ops hashes
        → IsGathered past told batch
        → IsGathered (past ++ ops) (told ++ hashes) (gather batch ops hashes)
    gather-IsGathered past [] told [] batch h g = rw (append-nil, append-nil) g
    gather-IsGathered past [] told (hash ∷ hashes) batch h g = elim h [ ]
    gather-IsGathered past (op ∷ ops) told [] batch h g = elim h [ ]
    gather-IsGathered past (op ∷ ops) told (hash ∷ hashes) batch h g =
        rw (sym (append_assoc past (op ∷ []) ops), sym (append_assoc told (hash ∷ []) hashes))
          (gather-IsGathered (past ++ (op ∷ [])) ops (told ++ (hash ∷ [])) hashes
            (with_op batch op (packed op) hash) h.1 (with_op-IsGathered past told batch op hash g))

    -- Hashes are told for every operation, and for each only one.
    pub Hashed_unique :
        (ops : List UserOpV07) (xs ys : List Hash)
        → Hashed answers b ops xs
        → Hashed answers b ops ys
        → xs ≡ ys
    Hashed_unique [] [] [] hx hy = refl
    Hashed_unique [] [] (y ∷ ys) hx hy = elim hy [ ]
    Hashed_unique [] (x ∷ xs) ys hx hy = elim hx [ ]
    Hashed_unique (op ∷ ops) [] ys hx hy = elim hx [ ]
    Hashed_unique (op ∷ ops) (x ∷ xs) [] hx hy = elim hy [ ]
    Hashed_unique (op ∷ ops) (x ∷ xs) (y ∷ ys) hx hy =
        let mine = hx.0 in let yours = hy.0 in let rest = Hashed_unique ops xs ys hx.1 hy.1 in cc

module _ ⦃u : Uint⦄ ⦃f : Format⦄ ⦃abi : Abi⦄ (answers : (c : Call) → Answer c) (b : Bundler)
    (base : ℕ) (hb : IsU256 base) (hm : IsU256 b.cfg.min_priority_fee_wei) where
  loop_passes :
      (i : ℕ) (ops : List UserOpV07) (hashes : List Hash) (batch : Batch)
      → All IsUserOp ops
      → All (IsPassing answers b base) ops
      → Hashed answers b ops hashes
      → outcome answers (check_ops b base (answers unix_now) i ops batch)
        ≡ ok (gather batch ops hashes)
  unfolding check_ops
  loop_passes i [] hashes batch w g h = refl
  loop_passes i (op ∷ ops) [] batch w g h = elim h [ ]
  loop_passes i (op ∷ ops) (hash ∷ hashes) batch w g h =
      let next : Batch = with_op batch op (packed op) hash in
      bind-eq-ok answers (check_op b base (answers unix_now) i op batch)
        (check_ops b base (answers unix_now) (i + 1) ops) (gather next ops hashes) next
        ((check_op-ok_iff answers b i op base batch next hb hm w.0).1 (g.0, (hash, h.0, refl)))
        (loop_passes (i + 1) ops hashes next w.1 g.1 h.1)

  loop_passed :
      (i : ℕ) (ops : List UserOpV07) (batch batch' : Batch)
      → All IsUserOp ops
      → outcome answers (check_ops b base (answers unix_now) i ops batch) ≡ ok batch'
      → All (IsPassing answers b base) ops
        × ((hashes : List Hash) × Hashed answers b ops hashes × (batch' ≡ gather batch ops hashes))
  unfolding check_ops
  loop_passed i [] batch batch' w h = (tt, ([], tt, cc))
  loop_passed i (op ∷ ops) batch batch' w h =
      let rest : Batch → Program (Result BundlerError Batch) =
        check_ops b base (answers unix_now) (i + 1) ops in
      let (mid, e, h1) =
        outcome-eq-ok answers (check_op b base (answers unix_now) i op batch) rest batch' h in
      let (g, (hash, told, same)) = (check_op-ok_iff answers b i op base batch mid hb hm w.0).0 e in
      let (gs, (hashes, tolds, whole)) = loop_passed (i + 1) ops mid batch' w.1 h1 in
      ((g, gs), (hash ∷ hashes, (told, tolds), whole ∙ ap (λ m. gather m ops hashes) same))

  -- For operations and fees in the ranges of their types, the loop passes exactly if every operation
  -- is passing and the node tells its hash, and then it has gathered all of them.
  pub check_ops-ok_iff :
      (i : ℕ) (ops : List UserOpV07) (batch batch' : Batch)
      → All IsUserOp ops
      → (outcome answers (check_ops b base (answers unix_now) i ops batch) ≡ ok batch') ↔ (
          All (IsPassing answers b base) ops
          × ((hashes : List Hash) × Hashed answers b ops hashes
              × (batch' ≡ gather batch ops hashes)))
  check_ops-ok_iff i ops batch batch' w = (
    loop_passed i ops batch batch' w,
    λ (g, (hashes, h, e)). loop_passes i ops hashes batch w g h ∙ ap ok (sym e),
  )
