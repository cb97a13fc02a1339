-- ===== src/Sequence/Registry.antt =====
-- src/core/sequence/core/SequenceRegistry.cpp: the definitions of type `D` by their ids. The order of
-- the map's keys is not part of the model.
use mxrc.Common.{
  String, Bool, true, false, Option, none, some, List, [], ◌∷◌, lookup, insert, erase,
}

abbrev pub is_some {ℓ} : {A : Type ℓ} → Option A → Bool
is_some none = false
is_some (some a) = true

abbrev pub keys {ℓ} : {V : Type ℓ} → List (String × V) → List String
keys [] = []
keys ((key, value) ∷ rest) = key ∷ keys rest

pub record Registry (D : Type 0) : Type 0 where
  pub definitions : List (String × D)

module _ {D : Type 0} where
  unfoldable pub register_definition : String → D → Registry D → Registry D
  register_definition id d r = record r { definitions = insert id d r.definitions }

  unfoldable pub get_definition : String → Registry D → Option D
  get_definition id r = lookup id r.definitions

  unfoldable pub has_definition : String → Registry D → Bool
  has_definition id r = is_some (lookup id r.definitions)

  unfoldable pub get_all_definition_ids : Registry D → List String
  get_all_definition_ids r = keys r.definitions

  unfoldable pub remove_definition : String → Registry D → Registry D × Bool
  remove_definition id r = elim (lookup id r.definitions) [
    | none ↦ (r, false)
    | some d ↦ (record r { definitions = erase id r.definitions }, true)
  ]

  unfoldable pub clear : Registry D → Registry D
  clear r = record r { definitions = [] }
