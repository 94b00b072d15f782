-- ===== src/Errors/Json.antt =====
-- The JSON objects of `json!`: values by key, in the order of writing.
use text.Mathlib.Text.{◌==◌ as str_eq}
use text.Mathlib.TextEquality.{eq_iff}
use ethera_bundler.Base.{
  ℕ, ◌≡◌, refl, String, List, [], ◌∷◌, Option, none, some, arith, if◌then◌else◌,
}

pub data Value : Type 0 where
  num : ℕ → Value
  str : String → Value

abbrev pub Payload : Type 0
Payload = List (String × Value)

unfoldable pub get : String → Payload → Option Value
get key [] = none
get key ((k, v) ∷ rest) = if str_eq k key then some v else get key rest

-- `payload[key] = value`
unfoldable pub set_key : String → Value → Payload → Payload
set_key key value [] = (key, value) ∷ []
set_key key value ((k, v) ∷ rest) =
    if str_eq k key then (k, value) ∷ rest else (k, v) ∷ set_key key value rest

-- After a write a key has the new value if it is the written one, else the value it had.
pub get-set_key :
    (j key : String) (value : Value) (p : Payload)
    → get j (set_key key value p) ≡ (if str_eq key j then some value else get j p)
unfolding get set_key
get-set_key j key value [] = refl
get-set_key j key value ((k, v) ∷ rest) =
    ground (arith, eq_iff key j, eq_iff k key, eq_iff k j, get-set_key j key value rest)
