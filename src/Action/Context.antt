-- ===== src/Action/Context.antt =====
-- src/core/action/util/ExecutionContext.h: the variables and the results that actions share. `V` is
-- the type of the values (std::any), `text` and `of_text` the casts from it and to it.
use mxrc.Common.{String, Bool, true, false, Option, none, some, List, [], lookup, insert}

pub record ExecutionContext (V R : Type 0) : Type 0 where
  pub variables : List (String × V)
  pub action_results : List (String × R)

abbrev is_some {ℓ} : {A : Type ℓ} → Option A → Bool
is_some none = false
is_some (some a) = true

module _ {V R : Type 0} where
  unfoldable pub set_variable : String → V → ExecutionContext V R → ExecutionContext V R
  set_variable key value c = record c { variables = insert key value c.variables }

  unfoldable pub get_variable : String → ExecutionContext V R → Option V
  get_variable key c = lookup key c.variables

  unfoldable pub has_variable : String → ExecutionContext V R → Bool
  has_variable key c = is_some (lookup key c.variables)

  unfoldable pub set_action_result : String → R → ExecutionContext V R → ExecutionContext V R
  set_action_result id result c = record c { action_results = insert id result c.action_results }

  unfoldable pub get_action_result : String → ExecutionContext V R → Option R
  get_action_result id c = lookup id c.action_results

  unfoldable pub clear : ExecutionContext V R → ExecutionContext V R
  clear c = record { variables = []; action_results = [] }

  unfoldable pub set : (String → V) → String → String → ExecutionContext V R → ExecutionContext V R
  set of_text key value c = set_variable key (of_text value) c

  -- A variable that is not there, and one that is no text, are the empty text.
  unfoldable pub get : (V → Option String) → String → ExecutionContext V R → String
  get text key c = elim (get_variable key c) [
    | none ↦ ""
    | some value ↦ elim (text value) [ none ↦ "" | some s ↦ s ]
  ]

  unfoldable pub has : String → ExecutionContext V R → Bool
  has key c = has_variable key c
