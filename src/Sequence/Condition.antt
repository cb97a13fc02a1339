-- ===== src/Sequence/Condition.antt =====
-- src/core/sequence/core/ConditionEvaluator.cpp: conditions such as `speed >= 10`. Texts are lists of
-- bytes. `D` stands for the floating-point numbers, whose reading, printing and comparisons are the
-- standard library's; integers come printed.
pub mod Parsing
use mxrc.Common.{
  ℕ, String, ◌<>◌, Bool, true, false, Option, none, some, List, [], ◌∷◌, ◌++◌, ◌&&◌, ◌||◌, not,
  ◌==◌, ltb, is_empty, length, if◌then◌else◌,
}
use mxrc.Action.Result.{Outcome, threw, returned}

pub record Numbers (D : Type 0) : Type 0 where
  pub reads_number : List ℕ → Bool
  pub stod : List ℕ → Outcome D
  pub to_string : D → List ℕ
  pub is_near : D → D → Bool
  pub is_less : D → D → Bool
  pub is_at_most : D → D → Bool

-- The types that a variable (std::any) may hold.
pub data Value (D : Type 0) : Type 0 where
  integer : List ℕ → Value D
  floating : D → Value D
  boolean : Bool → Value D
  text : List ℕ → Value D
  other : Value D

pub data Operator : Type 0 where
  equal not_equal at_least at_most above below : Operator

abbrev pub operator_text : Operator → List ℕ
operator_text equal = 61 ∷ 61 ∷ []
operator_text not_equal = 33 ∷ 61 ∷ []
operator_text at_least = 62 ∷ 61 ∷ []
operator_text at_most = 60 ∷ 61 ∷ []
operator_text above = 62 ∷ []
operator_text below = 60 ∷ []

abbrev pub is_space : ℕ → Bool
is_space b = b == 32 || (b == 9 || (b == 10 || b == 13))

unfoldable pub trim_start : List ℕ → List ℕ
trim_start [] = []
trim_start (b ∷ rest) = let trimmed = trim_start rest in if is_space b then trimmed else b ∷ rest

unfoldable pub trim_end : List ℕ → List ℕ
trim_end [] = []
trim_end (b ∷ rest) =
    let trimmed = trim_end rest in if is_empty trimmed && is_space b then [] else b ∷ trimmed

unfoldable pub trim : List ℕ → List ℕ
trim s = trim_end (trim_start s)

-- What follows a prefix.
unfoldable pub after_prefix : List ℕ → List ℕ → Option (List ℕ)
after_prefix [] s = some s
after_prefix (p ∷ ps) [] = none
after_prefix (p ∷ ps) (b ∷ rest) = let more = after_prefix ps rest in if p == b then more else none

abbrev pub behind : ℕ → Option (List ℕ × List ℕ) → Option (List ℕ × List ℕ)
behind b none = none
behind b (some (left, right)) = some (b ∷ left, right)

-- The text before and behind the first occurrence.
unfoldable pub find : List ℕ → List ℕ → Option (List ℕ × List ℕ)
find pattern [] = none
find pattern (b ∷ rest) =
    let later = find pattern rest in
    elim (after_prefix pattern (b ∷ rest)) [ none ↦ behind b later | some right ↦ some ([], right) ]

-- The first of the operators that occurs, with the texts on its two sides.
unfoldable pub find_operator : List Operator → List ℕ → Option (Operator × List ℕ × List ℕ)
find_operator [] s = none
find_operator (op ∷ ops) s =
    let others = find_operator ops s in
    elim (find (operator_text op) s) [ none ↦ others | some (left, right) ↦ some (op, left, right) ]

abbrev pub candidates : List Operator
candidates = equal ∷ not_equal ∷ at_least ∷ at_most ∷ above ∷ below ∷ []

abbrev pub same_text : List ℕ → List ℕ → Bool
same_text [] [] = true
same_text (a ∷ xs) (b ∷ ys) = a == b && same_text xs ys
same_text xs ys = false

-- The order of std::string.
abbrev pub before_text : List ℕ → List ℕ → Bool
before_text [] [] = false
before_text [] (b ∷ ys) = true
before_text (a ∷ xs) [] = false
before_text (a ∷ xs) (b ∷ ys) = ltb a b || (a == b && before_text xs ys)

unfoldable pub compare_strings : List ℕ → Operator → List ℕ → Bool
compare_strings left equal right = same_text left right
compare_strings left not_equal right = not (same_text left right)
compare_strings left above right = before_text right left
compare_strings left below right = before_text left right
compare_strings left at_least right = not (before_text left right)
compare_strings left at_most right = not (before_text right left)

module _ {D : Type 0} (numbers : Numbers D) where
  unfoldable pub compare_values : D → Operator → D → Bool
  compare_values a equal b = numbers.is_near a b
  compare_values a not_equal b = not (numbers.is_near a b)
  compare_values a above b = numbers.is_less b a
  compare_values a below b = numbers.is_less a b
  compare_values a at_least b = numbers.is_at_most b a
  compare_values a at_most b = numbers.is_at_most a b

  -- `stod` may throw.
  unfoldable pub compare_numbers : List ℕ → Operator → List ℕ → Outcome Bool
  compare_numbers left op right = elim (numbers.stod left) [
    | threw message ↦ threw message
    | returned a ↦ elim (numbers.stod right) [
      | threw message ↦ threw message
      | returned b ↦ returned (compare_values a op b)
    ]
  ]

  unfoldable pub is_number : List ℕ → Bool
  is_number s = if is_empty s then false else numbers.reads_number s

  abbrev true_text : List ℕ
  true_text = 116 ∷ 114 ∷ 117 ∷ 101 ∷ []

  abbrev false_text : List ℕ
  false_text = 102 ∷ 97 ∷ 108 ∷ 115 ∷ 101 ∷ []

  -- A variable that is not there, or cannot be cast, stands for its name.
  unfoldable pub get_variable_as_string : (List ℕ → Option (Value D)) → List ℕ → List ℕ
  get_variable_as_string get_variable name = elim (get_variable name) [
    | none ↦ name
    | some (integer s) ↦ s
    | some (floating x) ↦ numbers.to_string x
    | some (boolean b) ↦ if b then true_text else false_text
    | some (text s) ↦ s
    | some other ↦ name
  ]

  unfoldable pub evaluate : (List ℕ → Option (Value D)) → List ℕ → Outcome Bool
  evaluate get_variable expression = elim (find_operator candidates (trim expression)) [
    | none ↦ threw "Invalid condition expression"
    | some (op, before, behind_it) ↦
        let left = get_variable_as_string get_variable (trim before) in
        let right = trim behind_it in
        if is_number left && is_number right
        then compare_numbers left op right
        else returned (compare_strings left op right)
  ]
