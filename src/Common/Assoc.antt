-- ===== src/Common/Assoc.antt =====
-- `std::map` and `std::unordered_map` with text keys, as association lists without an order.
use Prim.Native.String.{String}
use mathlib.Core.Path.{◌≡◌}
use mathlib.Core.Option.{Option, none, some}
use mathlib.Core.List.{List, [], ◌∷◌}
use native.Mathlib.Omega.{arith}
use text.Mathlib.Text.{◌==◌ as str_eq}
use text.Mathlib.TextEquality.{eq_iff}
use text.Mathlib.TextPositions.{eq_refl}
use mxrc.Common.Tests.{if◌then◌else◌}

module _ {ℓ} {V : Type ℓ} where
  -- `find(key)`
  unfoldable pub lookup : String → List (String × V) → Option V
  lookup key [] = none
  lookup key ((name, value) ∷ entries) =
      let rest = lookup key entries in if str_eq name key then some value else rest

  -- `map[key] = value`
  unfoldable pub insert : String → V → List (String × V) → List (String × V)
  insert key value [] = (key, value) ∷ []
  insert key value ((name, old) ∷ entries) =
      let rest = insert key value entries in
      if str_eq name key then (key, value) ∷ entries else (name, old) ∷ rest

  -- `erase(key)`
  unfoldable pub erase : String → List (String × V) → List (String × V)
  erase key [] = []
  erase key ((name, old) ∷ entries) =
      let rest = erase key entries in if str_eq name key then rest else (name, old) ∷ rest

  module _ (key other : String) where
    pub lookup-insert :
        (value : V) (entries : List (String × V))
        → lookup other (insert key value entries)
          ≡ (if str_eq key other then some value else lookup other entries)
    unfolding lookup insert
    lookup-insert value [] = ground arith
    lookup-insert value ((name, old) ∷ entries) =
        ground
          (arith, lookup-insert value entries, eq_iff name key, eq_iff name other, eq_iff key other)

    pub lookup-erase :
        (entries : List (String × V))
        → lookup other (erase key entries)
          ≡ (if str_eq key other then none else lookup other entries)
    unfolding lookup erase
    lookup-erase [] = ground arith
    lookup-erase ((name, old) ∷ entries) =
        ground (arith, lookup-erase entries, eq_iff name key, eq_iff name other, eq_iff key other)

  pub lookup-inserted :
      (key : String) (value : V) (entries : List (String × V))
      → lookup key (insert key value entries) ≡ some value
  lookup-inserted key value entries =
      ground (arith, lookup-insert key key value entries, eq_refl key)
