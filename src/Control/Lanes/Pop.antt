-- ===== src/Control/Lanes/Pop.antt =====
-- The search for the first entry, and the measures of the lanes.
use mxrc.Common.{
  ℕ, ◌≡◌, refl, ◌⊎◌, inl, inr, Option, none, some, List, [], ◌∷◌, ◌++◌, arith, length,
  length-append, is_empty, ◌≤◌, All, All-imp, All-append,
}
use mxrc.Control.Lanes.{Lanes, pop_front, to_list, size, all_empty}
use mxrc.Control.Lanes.Order.{IsHomed}

module _ {ℓ} {A : Type ℓ} where
  abbrev pub Splits : Lanes A → Option (A × Lanes A) → Type ℓ
  Splits q r =
      ((to_list q ≡ []) × (r ≡ none))
      ⊎ ((a : A) × (rest : Lanes A) × (to_list q ≡ a ∷ to_list rest) × (r ≡ some (a, rest)))

  abbrev lanes : List A → List A → List A → List A → List A → Lanes A
  lanes es si ur nt ma = record {
    emergency_stop = es;
    safety_issue = si;
    urgent_task = ur;
    normal_task = nt;
    maintenance = ma;
  }

  splits :
      (es si ur nt ma : List A) → Splits (lanes es si ur nt ma) (pop_front (lanes es si ur nt ma))
  unfolding pop_front to_list
  splits (a ∷ es) si ur nt ma = inr (a, lanes es si ur nt ma, refl, refl)
  splits [] (a ∷ si) ur nt ma = inr (a, lanes [] si ur nt ma, refl, refl)
  splits [] [] (a ∷ ur) nt ma = inr (a, lanes [] [] ur nt ma, refl, refl)
  splits [] [] [] (a ∷ nt) ma = inr (a, lanes [] [] [] nt ma, refl, refl)
  splits [] [] [] [] (a ∷ ma) = inr (a, lanes [] [] [] [] ma, refl, refl)
  splits [] [] [] [] [] = inl (refl, refl)

  -- `pop_front` fails on empty lanes only, and otherwise takes the head of `to_list`.
  pub pop_front-Splits : (q : Lanes A) → Splits q (pop_front q)
  pop_front-Splits q =
      splits q.emergency_stop q.safety_issue q.urgent_task q.normal_task q.maintenance

  pub size-length : (q : Lanes A) → size q ≡ length (to_list q)
  unfolding size to_list
  size-length q = omega (
    arith,
    length-append q.emergency_stop
        (q.safety_issue ++ (q.urgent_task ++ (q.normal_task ++ q.maintenance))),
    length-append q.safety_issue (q.urgent_task ++ (q.normal_task ++ q.maintenance)),
    length-append q.urgent_task (q.normal_task ++ q.maintenance),
    length-append q.normal_task q.maintenance,
  )

  all_empties :
      (es si ur nt ma : List A)
      → all_empty (lanes es si ur nt ma) ≡ is_empty (to_list (lanes es si ur nt ma))
  unfolding all_empty to_list
  all_empties (a ∷ es) si ur nt ma = refl
  all_empties [] (a ∷ si) ur nt ma = refl
  all_empties [] [] (a ∷ ur) nt ma = refl
  all_empties [] [] [] (a ∷ nt) ma = refl
  all_empties [] [] [] [] (a ∷ ma) = refl
  all_empties [] [] [] [] [] = refl

  pub all_empty-to_list : (q : Lanes A) → all_empty q ≡ is_empty (to_list q)
  all_empty-to_list q =
      all_empties q.emergency_stop q.safety_issue q.urgent_task q.normal_task q.maintenance

  homed :
      (key : A → ℕ) (es si ur nt ma : List A) {a : A} {rest : Lanes A}
      → IsHomed key (lanes es si ur nt ma)
      → pop_front (lanes es si ur nt ma) ≡ some (a, rest)
      → IsHomed key rest
  unfolding pop_front
  homed key (a ∷ es) si ur nt ma h e = ground arith
  homed key [] (a ∷ si) ur nt ma h e = ground arith
  homed key [] [] (a ∷ ur) nt ma h e = ground arith
  homed key [] [] [] (a ∷ nt) ma h e = ground arith
  homed key [] [] [] [] (a ∷ ma) h e = ground arith
  homed key [] [] [] [] [] h e = cc

  pub pop_front-IsHomed :
      (key : A → ℕ) (q : Lanes A) {a : A} {rest : Lanes A}
      → IsHomed key q
      → pop_front q ≡ some (a, rest)
      → IsHomed key rest
  pop_front-IsHomed key q =
      homed key q.emergency_stop q.safety_issue q.urgent_task q.normal_task q.maintenance

  module _ (key : A → ℕ) (m : ℕ) where
    above : (k : ℕ) (xs : List A) → m ≤ k → All (λ x. key x ≡ k) xs → All (λ x. m ≤ key x) xs
    above k xs h = All-imp (λ x e. omega arith) xs

    above_join :
        (k : ℕ) (xs ys : List A)
        → m ≤ k
        → All (λ x. key x ≡ k) xs
        → All (λ x. m ≤ key x) ys
        → All (λ x. m ≤ key x) (xs ++ ys)
    above_join k xs ys h all = All-append _ xs ys (above k xs h all)

  -- No entry that stays is more urgent than the one taken.
  abbrev pub IsLeast : (A → ℕ) → Option (A × Lanes A) → Type 0
  IsLeast key none = Unit
  IsLeast key (some (a, rest)) = All (λ x. key a ≤ key x) (to_list rest)

  least :
      (key : A → ℕ) (es si ur nt ma : List A)
      → IsHomed key (lanes es si ur nt ma)
      → IsLeast key (pop_front (lanes es si ur nt ma))
  unfolding pop_front to_list
  least key (a ∷ es) si ur nt ma h =
      let e = h.emergency_stop.0 in
      above_join key (key a) 0 es _ (omega arith) h.emergency_stop.1 (
        above_join key (key a) 1 si _ (omega arith) h.safety_issue (
          above_join key (key a) 2 ur _ (omega arith) h.urgent_task (
            above_join key (key a) 3 nt _ (omega arith) h.normal_task
              (above key (key a) 4 ma (omega arith) h.maintenance))))
  least key [] (a ∷ si) ur nt ma h =
      let e = h.safety_issue.0 in
      above_join key (key a) 1 si _ (omega arith) h.safety_issue.1 (
        above_join key (key a) 2 ur _ (omega arith) h.urgent_task (
          above_join key (key a) 3 nt _ (omega arith) h.normal_task
            (above key (key a) 4 ma (omega arith) h.maintenance)))
  least key [] [] (a ∷ ur) nt ma h =
      let e = h.urgent_task.0 in
      above_join key (key a) 2 ur _ (omega arith) h.urgent_task.1 (
        above_join key (key a) 3 nt _ (omega arith) h.normal_task
          (above key (key a) 4 ma (omega arith) h.maintenance))
  least key [] [] [] (a ∷ nt) ma h =
      let e = h.normal_task.0 in
      above_join key (key a) 3 nt _ (omega arith) h.normal_task.1
        (above key (key a) 4 ma (omega arith) h.maintenance)
  least key [] [] [] [] (a ∷ ma) h =
      let e = h.maintenance.0 in above key (key a) 4 ma (omega arith) h.maintenance.1
  least key [] [] [] [] [] h = tt

  pub pop_front-IsLeast : (key : A → ℕ) (q : Lanes A) → IsHomed key q → IsLeast key (pop_front q)
  pop_front-IsLeast key q =
      least key q.emergency_stop q.safety_issue q.urgent_task q.normal_task q.maintenance
