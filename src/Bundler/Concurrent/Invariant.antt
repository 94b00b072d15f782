-- ===== src/Bundler/Concurrent/Invariant.antt =====
-- What holds of the requests and of what they share at every moment.
use mathlib.Core.Path.{subst}
use ethera_bundler.Base.{
  ◌≤◌, ℕ, ◌+◌, ◌≡◌, sym, ap, ◌∙◌, List, [], ◌∷◌, ◌++◌, All, All-append, All-front, All-back, ◌⊎◌,
  inl, inr, arith,
}
use ethera_bundler.Alloy.{Uint}
use ethera_bundler.Contracts.{Abi}
use ethera_bundler.Bundler.Pipeline.Cancel.{EndsOrCancelled}
use ethera_bundler.Base.Bytes.{Bytes}
use ethera_bundler.Program.{ask}
use ethera_bundler.Program.Laws.{Safe, replay, Obeyed}
use ethera_bundler.Bundler.Pipeline.{Bundler}
use ethera_bundler.Bundler.Pipeline.Stage.{Stage, start, discipline}
use ethera_bundler.Bundler.Pipeline.Requests.{held_count}
use ethera_bundler.Bundler.Concurrent.{Task, Shared, System, Step, turn, Reach, here, later}
use ethera_bundler.Bundler.Concurrent.Effects.{IsDescending, FactAt, after-After}

module _ (b : Bundler) where
  -- The stage of a task, from its calls.
  abbrev pub stage_of : Task → Stage
  stage_of task = replay (discipline b task.request.opts.submit) start task.log

  -- The number of tasks that hold the lock.
  abbrev pub holders : List Task → ℕ
  holders [] = 0
  holders (task ∷ tasks) = held_count (stage_of task).held + holders tasks

  -- The task has kept the discipline, and what is left of it keeps it and ends as it should.
  abbrev pub Keeps : ⦃u : Uint⦄ → ⦃abi : Abi⦄ → Task → Type 0
  Keeps task =
      let P = discipline b task.request.opts.submit in
      Obeyed P start task.log
      × Safe P (stage_of task) task.rest
          (EndsOrCancelled b task.request.ops task.request.opts.submit)

module _ ⦃u : Uint⦄ ⦃abi : Abi⦄ (b : Bundler) (nonce_of : Bytes → ℕ) where
  abbrev pub Knows : List ℕ → Task → Type 0
  Knows accepted task = FactAt nonce_of accepted (stage_of b task)

  pub record Inv (s : System) : Type 0 where
    pub keeps : All (Keeps b) s.tasks
    pub facts : All (Knows s.shared.accepted) s.tasks
    pub descending : IsDescending s.shared.accepted
    pub count : holders b s.tasks ≡ held_count s.shared.locked

  holders-append : (xs ys : List Task) → holders b (xs ++ ys) ≡ holders b xs + holders b ys
  holders-append [] ys = omega arith
  holders-append (x ∷ xs) ys = omega (arith, holders-append xs ys)

  -- Tasks that do not hold the lock know as much of any list of accepted nonces.
  idle-Knows :
      (old new : List ℕ) (tasks : List Task)
      → holders b tasks ≡ 0
      → All (Knows old) tasks
      → All (Knows new) tasks
  idle-Knows old new [] e h = tt
  idle-Knows old new (x ∷ xs) e (h, hs) = (
    record { signs = h.signs; ahead = λ n held. absurd (omega (arith, e, ap held_count held)) },
    idle-Knows old new xs (omega (arith, e)) hs,
  )

  others-Knows :
      (s v : Shared) (others : ℕ) (tasks : List Task)
      → holders b tasks ≤ others
      → (v.accepted ≡ s.accepted) ⊎ (others ≡ 0)
      → All (Knows s.accepted) tasks
      → All (Knows v.accepted) tasks
  others-Knows s v others tasks le (inl same) h = rw same h
  others-Knows s v others tasks le (inr alone) h =
      idle-Knows s.accepted v.accepted tasks (omega (arith, alone)) h

  -- Every step keeps the invariant.
  pub Step-Inv : {s t : System} → Step nonce_of s t → Inv s → Inv t
  Step-Inv {s} (turn front back request log c k r v at possible effect) inv =
      let P = discipline b request.opts.submit in
      let g : Stage = replay P start log in
      let now : Task = record { request = request; log = log; rest = ask c k } in
      let next : Task = record { request = request; log = (c, r) ∷ log; rest = k r } in
      let keeps : All (Keeps b) (front ++ (now ∷ back)) = subst (All (Keeps b)) at inv.keeps in
      let facts : All (Knows s.shared.accepted) (front ++ (now ∷ back)) =
        subst (All (Knows s.shared.accepted)) at inv.facts in
      let (obeyed, (allowed, rest)) : Keeps b now =
        (All-back (Keeps b) front (now ∷ back) keeps).0 in
      let (known, back_known) = All-back (Knows s.shared.accepted) front (now ∷ back) facts in
      let count : holders b front + holders b (now ∷ back) ≡ held_count s.shared.locked =
        sym (holders-append front (now ∷ back)) ∙ ap (holders b) (sym at) ∙ inv.count in
      let others : ℕ = holders b front + holders b back in
      let (fact, down, count', alone) =
        after-After nonce_of b request.opts.submit s.shared v g others known inv.descending
          (omega (arith, count)) c r allowed effect in
      record {
        keeps =
            All-append (Keeps b) front (next ∷ back) (All-front (Keeps b) front (now ∷ back) keeps)
              (
                ((allowed, obeyed), rest r possible),
                (All-back (Keeps b) front (now ∷ back) keeps).1,
              );
        facts =
            All-append (Knows v.accepted) front (next ∷ back)
              (others-Knows s.shared v others front (omega arith) alone
                (All-front (Knows s.shared.accepted) front (now ∷ back) facts))
              (fact, others-Knows s.shared v others back (omega arith) alone back_known);
        descending = down;
        count = omega (arith, holders-append front (next ∷ back), count');
      }

  pub Reach-Inv : {s t : System} → Inv s → Reach nonce_of s t → Inv t
  Reach-Inv inv here = inv
  Reach-Inv inv (later r st) = Step-Inv st (Reach-Inv inv r)
