-- ===== src/Base/Objects.antt =====
-- Plain objects used as tables: `table[key]` finds an own property, or one that every object
-- inherits from `Object.prototype`, or nothing.
use Prim.Native.String.{String}
use mathlib.Core.Option.{Option, none, some}
use mathlib.Core.List.{List, [], ◌∷◌}
use text.Mathlib.Text.{◌==◌}
use native.Mathlib.Omega.{arith}
use mathlib.Core.Path.{◌≡◌, refl}
use harmony_saas_multitenanc.Base.Tests.{if◌then◌else◌, is_some}
use harmony_saas_multitenanc.Base.Texts.{contains}

-- An evaluation that ends with a value or with an exception.
pub data Outcome {ℓ} (A : Type ℓ) : Type ℓ where
  returned : A → Outcome A
  thrown : Outcome A

pub data Found {ℓ} (V : Type ℓ) : Type ℓ where
  own : V → Found V
  inherited : Found V
  missing : Found V

abbrev pub prototype_keys : List String
prototype_keys =
    "constructor" ∷ "__defineGetter__" ∷ "__defineSetter__" ∷ "hasOwnProperty" ∷ "__lookupGetter__"
    ∷ "__lookupSetter__" ∷ "isPrototypeOf" ∷ "propertyIsEnumerable" ∷ "toString" ∷ "valueOf"
    ∷ "__proto__" ∷ "toLocaleString" ∷ []

module _ {ℓ} {V : Type ℓ} where
  unfoldable pub lookup : String → List (String × V) → Option V
  lookup key [] = none
  lookup key ((k, v) ∷ rest) = if k == key then some v else lookup key rest

  -- the value of `table[key]`
  unfoldable pub property : List (String × V) → String → Found V
  property table key = elim (lookup key table) [
    | some v ↦ own v
    | none ↦ if contains prototype_keys key then inherited else missing
  ]

-- A key that is found is among the keys, and any other is not.
unfoldable pub keys {ℓ} : {V : Type ℓ} → List (String × V) → List String
keys [] = []
keys ((k, v) ∷ rest) = k ∷ keys rest

pub contains-keys {ℓ} :
    {V : Type ℓ} (table : List (String × V)) (key : String)
    → contains (keys table) key ≡ is_some (lookup key table)
unfolding contains keys lookup
contains-keys [] key = refl
contains-keys ((k, v) ∷ rest) key = ground (arith, contains-keys rest key)
