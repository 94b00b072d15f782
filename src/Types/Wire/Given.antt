-- ===== src/Types/Wire/Given.antt =====
-- Reading one field of a JSON object, for each combination of attributes.
use ethera_bundler.Base.{
  ◌≡◌, refl, sym, ◌↔◌, Bool, if◌then◌else◌, ◌⊎◌, inl, inr, true, false, List, [], ◌∷◌, Option, none,
  some,
}
use ethera_bundler.Alloy.{Address}
use ethera_bundler.Types.Wire.{Codec, Serde, required, defaulted, optional, ◌>>=◌}

pub bind-eq-some :
    {A B : Type 0} (o : Option A) (f : A → Option B) (b : B)
    → (o >>= f) ≡ some b
    → (a : A) × (o ≡ some a) × (f a ≡ some b)
bind-eq-some none f b h = cc
bind-eq-some (some a) f b h = (a, refl, h)

pub some_injective : {A : Type 0} (a b : A) → some a ≡ some b → a ≡ b
some_injective a b e = cc

abbrev null_or_value : Bool → Option Address → Option (Option Address)
null_or_value null address = if null then some none else (address >>= λ a. some (some a))

null_or_value-none :
    (null : Bool) (address : Option Address)
    → (null_or_value null address ≡ some none) ↔ (null ≡ true)
null_or_value-none true address = (λ _. refl, λ _. refl)
null_or_value-none false none = (λ h. cc, λ h. cc)
null_or_value-none false (some a) = (λ h. cc, λ h. cc)

null_or_value-some :
    (null : Bool) (address : Option Address) (a : Address)
    → (null_or_value null address ≡ some (some a)) ↔ ((null ≡ false) × (address ≡ some a))
null_or_value-some true address a = (λ h. cc, λ (h, _). cc)
null_or_value-some false none a = (λ h. cc, λ (_, h). cc)
null_or_value-some false (some b) a = (λ h. (refl, cc), λ (_, h). cc)

module _ {Value A : Type 0} {IsValid : A → Type 0} (codec : Codec Value A IsValid) where
  -- The name has one value, which is that of `a`.
  abbrev pub Given : List Value → A → Type 0
  Given vs a = (v : Value) × (vs ≡ v ∷ []) × (codec.from_value v ≡ some a)

  -- The name has no value, and `a` is the default, or it has one.
  abbrev pub GivenOr : A → List Value → A → Type 0
  GivenOr value vs a = ((vs ≡ []) × (value ≡ a)) ⊎ Given vs a

  pub required-Given : (vs : List Value) (a : A) → (required codec vs ≡ some a) ↔ Given vs a
  required-Given [] a = (λ h. cc, λ (v, e, h). cc)
  required-Given (v ∷ []) a = (λ h. (v, refl, h), λ (w, e, h). let same : v ≡ w = cc in rw same h)
  required-Given (v ∷ w ∷ vs) a = (λ h. cc, λ (x, e, h). cc)

  pub defaulted-GivenOr :
      (value : A) (vs : List Value) (a : A)
      → (defaulted codec value vs ≡ some a) ↔ GivenOr value vs a
  defaulted-GivenOr value [] a =
      (λ h. inl (refl, cc), λ h. elim h [ inl (_, e) ↦ cc | inr (v, e, _) ↦ cc ])
  defaulted-GivenOr value (v ∷ []) a = (
    λ h. inr (v, refl, h),
    λ h. elim h [ inl (e, _) ↦ cc | inr (w, e, h') ↦ let same : v ≡ w = cc in rw same h' ],
  )
  defaulted-GivenOr value (v ∷ w ∷ vs) a =
      (λ h. cc, λ h. elim h [ inl (e, _) ↦ cc | inr (x, e, _) ↦ cc ])

module _ (serde : Serde) where
  -- The name has no value or `null`, and there is no address, or it has the value of the address.
  abbrev pub GivenOrNull : List serde.Value → Option Address → Type 0
  GivenOrNull vs none = (vs ≡ []) ⊎ ((v : serde.Value) × (vs ≡ v ∷ []) × (serde.is_null v ≡ true))
  GivenOrNull vs (some a) =
      (v : serde.Value) × (vs ≡ v ∷ [])
      × (serde.is_null v ≡ false)
      × (serde.address.from_value v ≡ some a)

  pub optional-GivenOrNull :
      (vs : List serde.Value) (o : Option Address) → (optional serde vs ≡ some o) ↔ GivenOrNull vs o
  optional-GivenOrNull [] none = (λ _. inl refl, λ _. refl)
  optional-GivenOrNull [] (some a) = (λ h. cc, λ (v, e, _, _). cc)
  optional-GivenOrNull (v ∷ w ∷ vs) none =
      (λ h. cc, λ h. elim h [ inl e ↦ cc | inr (x, e, _) ↦ cc ])
  optional-GivenOrNull (v ∷ w ∷ vs) (some a) = (λ h. cc, λ (x, e, _, _). cc)
  optional-GivenOrNull (v ∷ []) none =
      let (from, to) = null_or_value-none (serde.is_null v) (serde.address.from_value v) in
      (
        λ h. inr (v, refl, from h),
        λ h. elim h [
          | inl e ↦ cc
          | inr (w, e, null) ↦ let same : w ≡ v = cc in to (rw (sym same) null)
        ],
      )
  optional-GivenOrNull (v ∷ []) (some a) =
      let (from, to) = null_or_value-some (serde.is_null v) (serde.address.from_value v) a in
      (
        λ h. (v, refl, (from h).0, (from h).1),
        λ (w, e, given, value).
            let same : w ≡ v = cc in to (rw (sym same) given, rw (sym same) value),
      )
