-- ===== src/Base/Names.antt =====
-- Lists of named things: the first entry of a name, and lists that share no name.
use Prim.Native.String.{String}
use text.Mathlib.Text.{◌==◌}
use text.Mathlib.TextEquality.{eq_iff}
use mathlib.Core.Path.{◌≡◌, refl}
use mathlib.Core.Logic.{◌⊎◌, inl, inr}
use mathlib.Core.Bool.{Bool, true, false, not, ◌&&◌}
use mathlib.Core.Option.{Option, none, some}
use mathlib.Core.List.{List, [], ◌∷◌, ◌++◌}
use native.Mathlib.Omega.{arith}
use ethera_bundler.Base.Tests.{Bool-cases, if◌then◌else◌}

both-true : (p q : Bool) → (not p && q) ≡ true → (p ≡ false) × (q ≡ true)
both-true p q h = ground arith

module _ {ℓ} {A : Type ℓ} where
  abbrev pub lookup : String → List (String × A) → Option A
  lookup name [] = none
  lookup name ((n, a) ∷ rest) = if name == n then some a else lookup name rest

  abbrev pub or_else : Option A → Option A → Option A
  or_else none o = o
  or_else (some a) o = some a

  abbrev pub has : String → List (String × A) → Bool
  has name [] = false
  has name ((n, a) ∷ rest) = if name == n then true else has name rest

  abbrev pub is_distinct : List (String × A) → Bool
  is_distinct [] = true
  is_distinct ((n, a) ∷ rest) = not (has n rest) && is_distinct rest

  abbrev pub is_disjoint : List (String × A) → List (String × A) → Bool
  is_disjoint [] ys = true
  is_disjoint ((n, a) ∷ rest) ys = not (has n ys) && is_disjoint rest ys

  pub lookup-append :
      (name : String) (xs ys : List (String × A))
      → lookup name (xs ++ ys) ≡ or_else (lookup name xs) (lookup name ys)
  lookup-append name [] ys = refl
  lookup-append name ((n, a) ∷ rest) ys = elim (Bool-cases (name == n)) [
    | inl e ↦ rw e
    | inr e ↦ rw e (lookup-append name rest ys)
  ]

  has-lookup :
      (name : String) (xs : List (String × A)) → has name xs ≡ false → lookup name xs ≡ none
  has-lookup name [] h = refl
  has-lookup name ((n, a) ∷ rest) h = elim (Bool-cases (name == n)) [
    | inl e ↦ let no = rw e at h in cc
    | inr e ↦ rw e (has-lookup name rest (rw e at h))
  ]

  -- A name is in one of two such lists at most.
  pub is_disjoint-lookup :
      (name : String) (xs ys : List (String × A))
      → is_disjoint xs ys ≡ true
      → (lookup name xs ≡ none) ⊎ (lookup name ys ≡ none)
  is_disjoint-lookup name [] ys h = inl refl
  is_disjoint-lookup name ((n, a) ∷ rest) ys h =
      let (absent, others) = both-true (has n ys) (is_disjoint rest ys) h in
      elim (Bool-cases (name == n)) [
        | inl e ↦ let same = (eq_iff name n).0 e in inr (has-lookup name ys (rw same absent))
        | inr e ↦ rw e (is_disjoint-lookup name rest ys others)
      ]
