-- ===== src/Types/Wire/Fields.antt =====
-- Reading a field back from a written object, for each combination of attributes.
use text.Mathlib.Text.{◌==◌}
use ethera_bundler.Base.{
  ◌≡◌, refl, ap, ◌∙◌, String, Bool-cases, inl, inr, List, [], ◌∷◌, ◌++◌, map, All, Option, none,
  some, if◌then◌else◌,
}
use ethera_bundler.Base.Bytes.{Bytes, IsByte}
use ethera_bundler.Alloy.{Address}
use ethera_bundler.Types.{IsOptAddress}
use ethera_bundler.Types.Wire.{
  Serde, Object, values, written, defaulted, optional, unless_empty, unless_none,
}

module _ {Value : Type 0} where
  -- The values of a name among the fields.
  abbrev pub found : String → List (String × List Value) → List Value
  found name [] = []
  found name ((n, vs) ∷ rest) = if name == n then vs ++ found name rest else found name rest

  values-append :
      (name n : String) (vs : List Value) (rest : Object Value)
      → values name (map (λ v. (n, v)) vs ++ rest)
        ≡ (if name == n then vs ++ values name rest else values name rest)
  values-append name n [] rest = elim (Bool-cases (name == n)) [
    | inl e ↦ rw e refl
    | inr e ↦ rw e refl
  ]
  values-append name n (v ∷ vs) rest = elim (Bool-cases (name == n)) [
    | inl e ↦ rw (e, values-append name n vs rest) (rw e refl)
    | inr e ↦ rw (e, values-append name n vs rest) (rw e refl)
  ]

  pub values-written :
      (name : String) (fields : List (String × List Value))
      → values name (written fields) ≡ found name fields
  values-written name [] = refl
  values-written name ((n, vs) ∷ rest) =
      values-append name n vs (written rest)
      ∙ ap (λ r. if name == n then vs ++ r else r) (values-written name rest)

module _ (serde : Serde) where
  pub defaulted-unless_empty :
      (bs : Bytes)
      → All IsByte bs
      → defaulted serde.bytes [] (unless_empty serde bs ++ []) ≡ some bs
  defaulted-unless_empty [] h = refl
  defaulted-unless_empty (b ∷ bs) h = serde.bytes.from_value-to_value (b ∷ bs) h

  pub optional-unless_none :
      (o : Option Address) → IsOptAddress o → optional serde (unless_none serde o ++ []) ≡ some o
  optional-unless_none none h = refl
  optional-unless_none (some a) h =
      rw (serde.address-not_null a, serde.address.from_value-to_value a h) refl
