-- ===== src/Sequence/Bounds.antt =====
-- src/core/sequence/core/SequenceEngine.cpp: an execution counts no more steps than there are, and the
-- steps of a sequence whose actions differ once each.
use mxrc.Common.{
  ℕ, suc, ◌+◌, ◌-◌, ◌≤◌, ◌≡◌, refl, ap, String, true, false, Option, some, List, [], ◌∷◌, length,
  All, All-imp, Bool-cases, Option-cases, inl, inr, str_eq, eq_iff, eq_refl, arith,
}
use mxrc.Sequence.Definition.{SequenceDefinition, ActionStep, SequenceResult}
use mxrc.Sequence.Engine.{Collaborators, SequenceEngine, sequence_started, Tally, is_in}
use mxrc.Sequence.Execution.{publish}
use mxrc.Sequence.Steps.{run_steps, execute, begin}
use mxrc.Sequence.Counts.{left, has_step, left-drops, left-start, run_steps-counts}

pub steps-HasSteps : (steps : List ActionStep) → All (λ s. has_step s.action_id steps ≡ true) steps
unfolding has_step
steps-HasSteps [] = tt
steps-HasSteps (step ∷ steps) = (
  ground (arith, eq_refl step.action_id),
  All-imp {Q = λ s. has_step s.action_id (step ∷ steps) ≡ true} (λ s h. ground (arith, h)) steps
      (steps-HasSteps steps),
)

module _ {M A W : Type 0} (c : Collaborators M A W) (d : SequenceDefinition M) where
  -- What an execution starts the loop over the steps with.
  abbrev pub loop : ℕ → SequenceEngine W → Option (SequenceEngine W × SequenceResult)
  loop patience e =
      run_steps c patience d d.steps 0 (record { executed = []; count = 0 })
        (publish c (sequence_started d.id d.name (length d.steps)) (begin d (c.now e.world) e))

  pub execute-loop :
      (patience : ℕ) (e e' : SequenceEngine W) (r : SequenceResult)
      → execute c patience d e ≡ some (e', r)
      → (over : SequenceEngine W) × (s : SequenceResult) × (loop patience e ≡ some (over, s))
        × (r ≡ record s { execution_time = c.now over.world - c.now e.world })
  unfolding execute
  execute-loop patience e e' r h = elim (Option-cases (loop patience e)) [
    | inl l ↦ absurd (ground (arith, h, l))
    | inr ((over, s), l) ↦ (over, s, l, ground (arith, h, l))
  ]

  abbrev IsBounded : Tally → Type 0
  IsBounded t = t.count + left t.executed d.steps ≤ length d.steps

  -- An execution that ends has counted no more steps than the sequence has.
  pub execute-count :
      (patience : ℕ) (e e' : SequenceEngine W) (r : SequenceResult)
      → execute c patience d e ≡ some (e', r)
      → r.completed_steps ≤ length d.steps
  execute-count patience e e' r h =
      let (over, s, l, same) = execute-loop patience e e' r h in
      let (t, bounded, count, total) =
        run_steps-counts c d IsBounded
          (λ u id there out p. omega (arith, left-drops id u.executed d.steps there out, p))
          patience d.steps 0 (record { executed = []; count = 0 }) _ over s l
          (steps-HasSteps d.steps) (omega (arith, left-start d.steps)) in
      let kept = ap (λ (x : SequenceResult). SequenceResult.completed_steps x) same in
      omega (arith, bounded, count, kept)

-- The actions of the steps differ.
abbrev pub Distinct : List ActionStep → Type 0
Distinct [] = Unit
Distinct (step ∷ steps) = (has_step step.action_id steps ≡ false) × Distinct steps

left-without :
    (id : String) (executed : List String) (steps : List ActionStep)
    → has_step id steps ≡ false
    → left (id ∷ executed) steps ≡ left executed steps
unfolding left has_step
left-without id executed [] out = refl
left-without id executed (step ∷ steps) out =
    let ih = left-without id executed steps (ground (arith, out)) in
    ground (arith, ih, out, eq_iff id step.action_id, eq_iff step.action_id id)

pub left-drops_one :
    (id : String) (executed : List String) (steps : List ActionStep)
    → Distinct steps
    → has_step id steps ≡ true
    → is_in id executed ≡ false
    → suc (left (id ∷ executed) steps) ≡ left executed steps
unfolding left has_step
left-drops_one id executed [] distinct h out = absurd (ground (arith, h))
left-drops_one id executed (step ∷ steps) distinct h out =
    elim (Bool-cases (str_eq step.action_id id)) [
      | inl same ↦
          let names : step.action_id ≡ id = (eq_iff step.action_id id).0 same in
          let absent : has_step id steps ≡ false = rw names at distinct.0 in
          ground (arith, left-without id executed steps absent, eq_refl id, names, out)
      | inr other ↦ ground (
        arith,
        left-drops_one id executed steps distinct.1 (ground (arith, h, other)) out,
        eq_iff id step.action_id,
        eq_iff step.action_id id,
      )
    ]
