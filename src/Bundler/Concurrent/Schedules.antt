-- ===== src/Bundler/Concurrent/Schedules.antt =====
-- No schedule of concurrent requests goes on for ever: every step shortens one of them.
use mathlib.Core.Path.{subst}
use mathlib.Core.WellFounded.{Acc}
use ethera_bundler.Base.{ℕ, ◌≡◌, refl, sym, List, [], ◌∷◌, ◌++◌, Result, ◌⊎◌, inl, inr}
use ethera_bundler.Base.Bytes.{Bytes}
use ethera_bundler.Types.{SignedTxResp}
use ethera_bundler.Errors.{BundlerError}
use ethera_bundler.Program.{Call, Answer, Program, done, ask, Log}
use ethera_bundler.Bundler.Concurrent.{Request, Task, System, Step, turn}

abbrev pub Rest : Type 0
Rest = Program (Result BundlerError SignedTxResp)

abbrev pub IsDone : Rest → Type 0
IsDone (done r) = Unit
IsDone (ask c k) = ⊥

-- One of the programs has got an answer.
abbrev Answered : List Rest → Rest → List Rest → Type 0
Answered new (done r) ps = ⊥
Answered new (ask c k) ps = (r : Answer c) × (new ≡ k r ∷ ps)

abbrev Shrinks : List Rest → List Rest → Type 0
Shrinks new [] = ⊥
Shrinks new (p ∷ ps) = Answered new p ps ⊎ ((qs : List Rest) × (new ≡ p ∷ qs) × Shrinks qs ps)

Shrinks-cons : (p : Rest) (ps : List Rest) → Acc Shrinks ps → Acc Shrinks (p ∷ ps)
Shrinks-cons (done a) ps (Acc.intro _ h) = Acc.intro _ (λ new. elim [
  | inl x ↦ elim x [ ]
  | inr (qs, e, s) ↦ subst (Acc Shrinks) (sym e) (Shrinks-cons (done a) qs (h qs s))
])
Shrinks-cons (ask c k) ps (Acc.intro _ h) = Acc.intro _ (λ new. elim [
  | inl (r, e) ↦ subst (Acc Shrinks) (sym e) (Shrinks-cons (k r) ps (Acc.intro _ h))
  | inr (qs, e, s) ↦ subst (Acc Shrinks) (sym e) (Shrinks-cons (ask c k) qs (h qs s))
])

Shrinks-Acc : (ps : List Rest) → Acc Shrinks ps
Shrinks-Acc [] = Acc.intro _ (λ new h. elim h [ ])
Shrinks-Acc (p ∷ ps) = Shrinks-cons p ps (Shrinks-Acc ps)

abbrev rests : List Task → List Rest
rests [] = []
rests (task ∷ tasks) = task.rest ∷ rests tasks

module _ (nonce_of : Bytes → ℕ) where
  turn-Shrinks :
      (front back : List Task) (request : Request) (log log' : Log) (c : Call) (k : Answer c → Rest)
      (r : Answer c)
      → Shrinks
          (rests (front ++ (record { request = request; log = log'; rest = k r } ∷ back)))
          (rests (front ++ (record { request = request; log = log; rest = ask c k } ∷ back)))
  turn-Shrinks [] back request log log' c k r = inl (r, refl)
  turn-Shrinks (x ∷ front) back request log log' c k r =
      inr (_, refl, turn-Shrinks front back request log log' c k r)

  Step-Shrinks : {s t : System} → Step nonce_of s t → Shrinks (rests t.tasks) (rests s.tasks)
  Step-Shrinks (turn front back request log c k r v at possible effect) =
      subst
        (λ tasks.
          Shrinks
            (rests (front ++ (record { request = request; log = (c, r) ∷ log; rest = k r } ∷ back)))
            (rests tasks))
        (sym at) (turn-Shrinks front back request log ((c, r) ∷ log) c k r)

  -- Steps, read backwards.
  abbrev pub Follows : System → System → Type 0
  Follows t s = Step nonce_of s t

  Follows-from : (s : System) (ps : List Rest) → rests s.tasks ≡ ps → Acc Shrinks ps → Acc Follows s
  Follows-from s ps e (Acc.intro _ h) = Acc.intro _ (λ t st.
      Follows-from t (rests t.tasks) refl
        (h (rests t.tasks) (subst (Shrinks (rests t.tasks)) e (Step-Shrinks st))))

  pub Follows-Acc : (s : System) → Acc Follows s
  Follows-Acc s = Follows-from s (rests s.tasks) refl (Shrinks-Acc (rests s.tasks))
