-- ===== src/Action/Factory.antt =====
-- src/core/action/core/ActionFactory.cpp, and the part of ActionRegistry.cpp about types.
use mxrc.Common.{String, ◌<>◌, Bool, true, false, Option, none, some, List, [], ◌∷◌, lookup, insert}
use mxrc.Action.Result.{Outcome, threw, returned}

abbrev is_some {ℓ} : {A : Type ℓ} → Option A → Bool
is_some none = false
is_some (some a) = true

abbrev keys {ℓ} : {V : Type ℓ} → List (String × V) → List String
keys [] = []
keys ((key, value) ∷ rest) = key ∷ keys rest

-- The factory functions by the type of action that they make.
pub record ActionFactory (A : Type 0) : Type 0 where
  pub factories : List (String × (String → List (String × String) → A))

module _ {A : Type 0} where
  unfoldable pub register_factory :
      String → (String → List (String × String) → A) → ActionFactory A → ActionFactory A
  register_factory type f r = record r { factories = insert type f r.factories }

  unfoldable pub create_action : String → List (String × String) → ActionFactory A → Outcome A
  create_action type parameters r = elim (lookup type r.factories) [
    | none ↦ threw ("Unknown Action type: " <> type)
    | some f ↦ elim (lookup "id" parameters) [
      | none ↦ threw "Action parameters must include 'id'"
      | some id ↦ returned (f id parameters)
    ]
  ]

  unfoldable pub has_type : String → ActionFactory A → Bool
  has_type type r = is_some (lookup type r.factories)

  unfoldable pub get_registered_types : ActionFactory A → List String
  get_registered_types r = keys r.factories
