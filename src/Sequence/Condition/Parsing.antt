-- ===== src/Sequence/Condition/Parsing.antt =====
-- src/core/sequence/core/ConditionEvaluator.cpp: a condition is taken apart at its operator.
use mxrc.Common.{
  ℕ, ◌≡◌, ◌≢◌, refl, sym, ap, ◌∙◌, true, false, Option, none, some, List, [], ◌∷◌, ◌++◌, ◌==◌, All,
  arith,
}
use mxrc.Sequence.Condition.{
  Operator, equal, not_equal, at_least, at_most, above, below, operator_text, after_prefix, behind,
  find, find_operator, candidates,
}

-- A byte that no operator has: neither `!` nor `<`, `=`, `>`.
abbrev pub IsPlain : ℕ → Type 0
IsPlain b = (b ≢ 33) × (b ≢ 60) × (b ≢ 61) × (b ≢ 62)

-- The bytes in front of an occurrence.
abbrev past : List ℕ → Option (List ℕ × List ℕ) → Option (List ℕ × List ℕ)
past [] o = o
past (b ∷ bs) o = behind b (past bs o)

abbrev IsMark : ℕ → Type 0
IsMark p = (b : ℕ) → IsPlain b → p ≢ b

after_prefix-other :
    (p : ℕ) (ps : List ℕ) (b : ℕ) (rest : List ℕ) → p ≢ b → after_prefix (p ∷ ps) (b ∷ rest) ≡ none
unfolding after_prefix
after_prefix-other p ps b rest h = let other : (p == b) ≡ false = ground arith in rw other refl

find-plain :
    (p : ℕ) (ps s t : List ℕ)
    → IsMark p
    → All IsPlain s
    → find (p ∷ ps) (s ++ t) ≡ past s (find (p ∷ ps) t)
unfolding find
find-plain p ps [] t mark plain = refl
find-plain p ps (b ∷ s) t mark plain =
    let ih = find-plain p ps s t mark plain.1 in
    rw (find, after_prefix-other p ps b (s ++ t) (mark b plain.0), ih) refl

past-plain : (s t : List ℕ) → past s (some ([], t)) ≡ some (s, t)
past-plain [] t = refl
past-plain (b ∷ s) t = rw (past-plain s t) refl

past-none : (s : List ℕ) → past s none ≡ none
past-none [] = refl
past-none (b ∷ s) = rw (past-none s) refl

find-absent : (p : ℕ) (ps s : List ℕ) → IsMark p → All IsPlain s → find (p ∷ ps) s ≡ none
unfolding find
find-absent p ps [] mark plain = refl
find-absent p ps (b ∷ s) mark plain =
    let ih = find-absent p ps s mark plain.1 in
    rw (find, after_prefix-other p ps b s (mark b plain.0), ih) refl

IsMark-33 : IsMark 33
IsMark-33 b h e = h.0 (sym e)

IsMark-60 : IsMark 60
IsMark-60 b h e = h.1 (sym e)

IsMark-61 : IsMark 61
IsMark-61 b h e = h.2 (sym e)

IsMark-62 : IsMark 62
IsMark-62 b h e = h.3 (sym e)

-- An operator that is not there because its first byte does not occur, or is not followed by `=`.
find-past :
    (p : ℕ) (ps l t : List ℕ)
    → IsMark p
    → All IsPlain l
    → find (p ∷ ps) t ≡ none
    → find (p ∷ ps) (l ++ t) ≡ none
find-past p ps l t mark plain none_there =
    find-plain p ps l t mark plain ∙ ap (past l) none_there ∙ past-none l

find-here :
    (p : ℕ) (ps l t rest : List ℕ)
    → IsMark p
    → All IsPlain l
    → find (p ∷ ps) t ≡ some ([], rest)
    → find (p ∷ ps) (l ++ t) ≡ some (l, rest)
find-here p ps l t rest mark plain there =
    find-plain p ps l t mark plain ∙ ap (past l) there ∙ past-plain l rest

-- `=` does not begin a plain text.
no_equal : (r : List ℕ) → All IsPlain r → after_prefix (61 ∷ []) r ≡ none
unfolding after_prefix
no_equal [] plain = refl
no_equal (b ∷ r) plain = after_prefix-other 61 [] b r (IsMark-61 b plain.0)

after_prefix-same :
    (p : ℕ) (ps rest : List ℕ) → after_prefix (p ∷ ps) (p ∷ rest) ≡ after_prefix ps rest
unfolding after_prefix
after_prefix-same p ps rest = let same : (p == p) ≡ true = ground arith in rw same refl

find-later :
    (pattern : List ℕ) (b : ℕ) (rest : List ℕ)
    → after_prefix pattern (b ∷ rest) ≡ none
    → find pattern rest ≡ none
    → find pattern (b ∷ rest) ≡ none
unfolding find
find-later pattern b rest no_match absent = rw (find, no_match, absent) refl

find-now :
    (pattern : List ℕ) (b : ℕ) (rest right : List ℕ)
    → after_prefix pattern (b ∷ rest) ≡ some right
    → find pattern (b ∷ rest) ≡ some ([], right)
unfolding find
find-now pattern b rest right match = rw (find, match) refl

-- A sign that `=` does not follow is not the sign with `=`.
sign_alone : (p : ℕ) (r : List ℕ) → IsMark p → All IsPlain r → find (p ∷ 61 ∷ []) (p ∷ r) ≡ none
sign_alone p r mark plain =
    find-later (p ∷ 61 ∷ []) p r (after_prefix-same p (61 ∷ []) r ∙ no_equal r plain)
      (find-absent p (61 ∷ []) r mark plain)

-- A pattern that begins with another sign is not in a sign and a plain text.
sign_other :
    (p q : ℕ) (ps r : List ℕ) → IsMark p → p ≢ q → All IsPlain r → find (p ∷ ps) (q ∷ r) ≡ none
sign_other p q ps r mark other plain =
    find-later (p ∷ ps) q r (after_prefix-other p ps q r other) (find-absent p ps r mark plain)

-- The same, where `=` stands between.
pair_other :
    (p q : ℕ) (r : List ℕ)
    → IsMark p
    → p ≢ q
    → p ≢ 61
    → All IsPlain r
    → find (p ∷ 61 ∷ []) (q ∷ 61 ∷ r) ≡ none
pair_other p q r mark other sign plain =
    find-later (p ∷ 61 ∷ []) q (61 ∷ r) (after_prefix-other p (61 ∷ []) q (61 ∷ r) other)
      (sign_other p 61 (61 ∷ []) r mark sign plain)

-- One `=` alone is not `==`.
pair_equal : (q : ℕ) (r : List ℕ) → 61 ≢ q → All IsPlain r → find (61 ∷ 61 ∷ []) (q ∷ 61 ∷ r) ≡ none
pair_equal q r other plain =
    find-later (61 ∷ 61 ∷ []) q (61 ∷ r) (after_prefix-other 61 (61 ∷ []) q (61 ∷ r) other)
      (sign_alone 61 r IsMark-61 plain)

pair_here :
    (p : ℕ) (l r : List ℕ)
    → IsMark p
    → All IsPlain l
    → find (p ∷ 61 ∷ []) (l ++ p ∷ 61 ∷ r) ≡ some (l, r)
unfolding after_prefix
pair_here p l r mark plain =
    find-here p (61 ∷ []) l (p ∷ 61 ∷ r) r mark plain
      (find-now (p ∷ 61 ∷ []) p (61 ∷ r) r (after_prefix-same p (61 ∷ []) (61 ∷ r)))

sign_here :
    (p : ℕ) (l r : List ℕ) → IsMark p → All IsPlain l → find (p ∷ []) (l ++ p ∷ r) ≡ some (l, r)
unfolding after_prefix
sign_here p l r mark plain =
    find-here p [] l (p ∷ r) r mark plain (find-now (p ∷ []) p r r (after_prefix-same p [] r))

-- A condition whose sides have no byte of an operator is taken apart at its operator.
pub find_operator-printed :
    (l : List ℕ) (op : Operator) (r : List ℕ)
    → All IsPlain l
    → All IsPlain r
    → find_operator candidates (l ++ (operator_text op ++ r)) ≡ some (op, l, r)
unfolding find_operator
find_operator-printed l equal r left right =
    rw (find_operator, pair_here 61 l r IsMark-61 left) refl
find_operator-printed l not_equal r left right =
    rw
      (
        find_operator,
        find-past 61 (61 ∷ []) l (33 ∷ 61 ∷ r) IsMark-61 left (pair_equal 33 r (omega arith) right),
        pair_here 33 l r IsMark-33 left,
      )
      refl
find_operator-printed l at_least r left right =
    rw
      (
        find_operator,
        find-past 61 (61 ∷ []) l (62 ∷ 61 ∷ r) IsMark-61 left (pair_equal 62 r (omega arith) right),
        find-past 33 (61 ∷ []) l (62 ∷ 61 ∷ r) IsMark-33 left
            (pair_other 33 62 r IsMark-33 (omega arith) (omega arith) right),
        pair_here 62 l r IsMark-62 left,
      )
      refl
find_operator-printed l at_most r left right =
    rw
      (
        find_operator,
        find-past 61 (61 ∷ []) l (60 ∷ 61 ∷ r) IsMark-61 left (pair_equal 60 r (omega arith) right),
        find-past 33 (61 ∷ []) l (60 ∷ 61 ∷ r) IsMark-33 left
            (pair_other 33 60 r IsMark-33 (omega arith) (omega arith) right),
        find-past 62 (61 ∷ []) l (60 ∷ 61 ∷ r) IsMark-62 left
            (pair_other 62 60 r IsMark-62 (omega arith) (omega arith) right),
        pair_here 60 l r IsMark-60 left,
      )
      refl
find_operator-printed l above r left right =
    rw
      (
        find_operator,
        find-past 61 (61 ∷ []) l (62 ∷ r) IsMark-61 left
            (sign_other 61 62 (61 ∷ []) r IsMark-61 (omega arith) right),
        find-past 33 (61 ∷ []) l (62 ∷ r) IsMark-33 left
            (sign_other 33 62 (61 ∷ []) r IsMark-33 (omega arith) right),
        find-past 62 (61 ∷ []) l (62 ∷ r) IsMark-62 left (sign_alone 62 r IsMark-62 right),
        find-past 60 (61 ∷ []) l (62 ∷ r) IsMark-60 left
            (sign_other 60 62 (61 ∷ []) r IsMark-60 (omega arith) right),
        sign_here 62 l r IsMark-62 left,
      )
      refl
find_operator-printed l below r left right =
    rw
      (
        find_operator,
        find-past 61 (61 ∷ []) l (60 ∷ r) IsMark-61 left
            (sign_other 61 60 (61 ∷ []) r IsMark-61 (omega arith) right),
        find-past 33 (61 ∷ []) l (60 ∷ r) IsMark-33 left
            (sign_other 33 60 (61 ∷ []) r IsMark-33 (omega arith) right),
        find-past 62 (61 ∷ []) l (60 ∷ r) IsMark-62 left
            (sign_other 62 60 (61 ∷ []) r IsMark-62 (omega arith) right),
        find-past 60 (61 ∷ []) l (60 ∷ r) IsMark-60 left (sign_alone 60 r IsMark-60 right),
        find-past 62 [] l (60 ∷ r) IsMark-62 left
            (sign_other 62 60 [] r IsMark-62 (omega arith) right),
        sign_here 60 l r IsMark-60 left,
      )
      refl
