-- ===== src/Sequence/Counts.antt =====
-- src/core/sequence/core/SequenceEngine.cpp: how many steps an execution counts.
use mxrc.Common.{
  ℕ, suc, ◌≤◌, ◌≡◌, refl, sym, ap, ◌∙◌, subst, String, Bool, true, false, Option, some, List, [],
  ◌∷◌, ◌||◌, ◌&&◌, length, All, Bool-cases, Option-cases, inl, inr, str_eq, eq_iff, eq_refl,
  if◌then◌else◌, lookup, arith,
}
use mxrc.Action.Result as Action
use mxrc.Action.Result.{ExecutionResult, Outcome, threw, returned, Outcome-cases}
use mxrc.Sequence.Definition.{SequenceDefinition, ActionStep, SequenceResult, completed, cancelled}
use mxrc.Sequence.Engine.{
  Collaborators, SequenceEngine, step_started, Tally, is_in, find_step, state_of,
}
use mxrc.Sequence.Execution.{
  run_branch, handle_conditional_branch, run_action, attempt, rounds_for, publish,
}
use mxrc.Sequence.Steps.{
  StepEnd, goes_on, stops, finish_step, judge, conclude, perform, run_steps, result_of,
}
use mxrc.Sequence.Turns.{turn, asked, asleep, skipped, unended, performed, ended}

-- The steps whose action is not among the executed ones.
unfoldable pub left : List String → List ActionStep → ℕ
left executed [] = 0
left executed (step ∷ steps) =
    if is_in step.action_id executed then left executed steps else suc (left executed steps)

unfoldable pub has_step : String → List ActionStep → Bool
has_step id [] = false
has_step id (step ∷ steps) = str_eq step.action_id id || has_step id steps

pub left-counted :
    (id : String) (executed : List String) (steps : List ActionStep)
    → left (id ∷ executed) steps ≤ left executed steps
unfolding left
left-counted id executed [] = omega arith
left-counted id executed (step ∷ steps) = ground (arith, left-counted id executed steps)

pub left-drops :
    (id : String) (executed : List String) (steps : List ActionStep)
    → has_step id steps ≡ true
    → is_in id executed ≡ false
    → suc (left (id ∷ executed) steps) ≤ left executed steps
unfolding left has_step
left-drops id executed [] h out = absurd (ground arith)
left-drops id executed (step ∷ steps) h out = elim (Bool-cases (str_eq step.action_id id)) [
  | inl same ↦
      let names : step.action_id ≡ id = (eq_iff step.action_id id).0 same in
      ground (arith, left-counted id executed steps, eq_refl id, names)
  | inr other ↦ ground (
    arith,
    left-drops id executed steps (ground (arith, h, other)) out,
    eq_iff id step.action_id,
    eq_iff step.action_id id,
  )
]

pub left-start : (steps : List ActionStep) → left [] steps ≡ length steps
unfolding left
left-start [] = refl
left-start (step ∷ steps) = ground (arith, left-start steps)

pub find_step-found :
    (id : String) (steps : List ActionStep) (step : ActionStep)
    → find_step id steps ≡ some step
    → (step.action_id ≡ id) × (has_step id steps ≡ true)
unfolding find_step has_step
find_step-found id [] step e = absurd (cc)
find_step-found id (first ∷ steps) step e = elim (Bool-cases (str_eq first.action_id id)) [
  | inl same ↦
      let it : first ≡ step = ground (arith, e, same) in
      (rw (← it) ((eq_iff first.action_id id).0 same), ground (arith, same))
  | inr other ↦
      let ih = find_step-found id steps step (ground (arith, e, other)) in
      (ih.0, ground (arith, other, ih.1))
]

abbrev pub counted : String → Tally → Tally
counted id t = record { executed = id ∷ t.executed; count = suc t.count }

-- A property of the tally that the count of a new step keeps.
module _ {M A W : Type 0} (c : Collaborators M A W) (d : SequenceDefinition M) (P : Tally → Type 0)
    (closed : (t : Tally) (id : String)
      → has_step id d.steps ≡ true
      → is_in id t.executed ≡ false
      → P t
      → P (counted id t)) where
  run_branch-keeps :
      (ids : List String) (t : Tally) (e : SequenceEngine W) → P t → P (run_branch c d ids t e).1
  unfolding run_branch
  run_branch-keeps [] t e p = p
  run_branch-keeps (id ∷ rest) t e p = elim (Bool-cases (is_in id t.executed)) [
    | inl h ↦ rw (run_branch, h) (run_branch-keeps rest t e p)
    | inr h ↦ elim (Option-cases (find_step id d.steps)) [
      | inl f ↦ rw (run_branch, h, f) (run_branch-keeps rest t e p)
      | inr (step, f) ↦ elim (Outcome-cases (run_action c d.id step e).1) [
        | inl (message, o) ↦
            rw (run_branch, h, f, o) (run_branch-keeps rest t (run_action c d.id step e).0 p)
        | inr (r, o) ↦
            let (name, there) = find_step-found id d.steps step f in
            rw (run_branch, h, f, o)
              (run_branch-keeps rest (counted step.action_id t) _
                (closed t step.action_id (rw name there) (rw name h) p))
      ]
    ]
  ]

  handle_conditional_branch-keeps :
      (id : String) (t : Tally) (e : SequenceEngine W)
      → P t
      → P (handle_conditional_branch c id d t e).1
  unfolding handle_conditional_branch
  handle_conditional_branch-keeps id t e p =
      elim (Option-cases (lookup id d.conditional_branches)) [
        | inl none_there ↦ rw (handle_conditional_branch, none_there) p
        | inr (branch, there) ↦ elim (Outcome-cases (c.evaluate branch.condition e.world)) [
          | inl (message, o) ↦ rw (handle_conditional_branch, there, o) p
          | inr (holds, o) ↦
              rw (handle_conditional_branch, there, o)
                (run_branch-keeps (if holds then branch.true_actions else branch.false_actions) t e
                  p)
        ]
      ]

  -- A step that succeeds counts, and so do the actions of its branch.
  finish_step-keeps :
      (step : ActionStep) (t : Tally) (e : SequenceEngine W)
      → P (counted step.action_id t)
      → P (finish_step c d step t e).1
  unfolding finish_step
  finish_step-keeps step t e p =
      handle_conditional_branch-keeps step.action_id (counted step.action_id t) _ p

  -- The tally of a step that goes on.
  abbrev pub EndKeeps : StepEnd → Type 0
  EndKeeps (goes_on t) = P t
  EndKeeps (stops status message) = Unit

  judge-keeps :
      (step : ActionStep) (index : ℕ) (t : Tally) (r : ExecutionResult) (retries : ℕ)
      (e : SequenceEngine W)
      → P (counted step.action_id t)
      → EndKeeps (judge c d step index t r retries e).1
  unfolding judge
  judge-keeps step index t r retries e p =
      elim (Bool-cases (
        Action.is_cancelled r
        || (Action.is_status r.status Action.timed_out && (state_of d.id e).cancel_requested))) [
          | inl h ↦ rw h tt
          | inr h ↦ elim (Bool-cases (Action.is_failed r)) [
            | inl f ↦ rw (h, f) tt
            | inr f ↦ rw (h, f) (finish_step-keeps step t e p)
          ]
        ]

  conclude-keeps :
      (step : ActionStep) (index : ℕ) (t : Tally) (over : SequenceEngine W)
      (outcome : Outcome (ExecutionResult × ℕ))
      → P (counted step.action_id t)
      → EndKeeps (conclude c d step index t over outcome).1
  unfolding conclude
  conclude-keeps step index t over (threw message) p = tt
  conclude-keeps step index t over (returned (r, retries)) p =
      judge-keeps step index t r retries _ p

  pub perform-keeps :
      (step : ActionStep) (index : ℕ) (t : Tally) (e over : SequenceEngine W) (end : StepEnd)
      → perform c d step index t e ≡ some (over, end)
      → P (counted step.action_id t)
      → EndKeeps end
  unfolding perform
  perform-keeps step index t e over end h p =
      elim (Option-cases (
        attempt c (rounds_for d.retry_policy) d step index 0 (
          publish c (step_started d.id step.action_id step.action_type index (length d.steps))
            e))) [
              | inl o ↦ absurd (ground (arith, h, o))
              | inr ((later, outcome), o) ↦
                  let made : some (conclude c d step index t later outcome) ≡ some (over, end) =
                    sym (rw (perform, o) refl) ∙ h in
                  let same : conclude c d step index t later outcome ≡ (over, end) = cc in
                  subst EndKeeps (ap (λ (x : SequenceEngine W × StepEnd). x.1) same)
                    (conclude-keeps step index t later outcome p)
            ]

  abbrev pub Counts : SequenceResult → Type 0
  Counts r = (t : Tally) × P t × (r.completed_steps ≡ t.count) × (r.total_steps ≡ length d.steps)

  from_result :
      (t : Tally) (e e' : SequenceEngine W) (r r' : SequenceResult)
      → ◌≡◌ {A = Option (SequenceEngine W × SequenceResult)} (some (e, r)) (some (e', r'))
      → P t
      → r.completed_steps ≡ t.count
      → r.total_steps ≡ length d.steps
      → Counts r'
  from_result t e e' r r' h p count total =
      let same : r ≡ r' = cc in (t, p, rw (← same) count, rw (← same) total)

  pub run_steps-counts :
      (patience : ℕ) (rest : List ActionStep) (index : ℕ) (t : Tally) (e e' : SequenceEngine W)
      (r : SequenceResult)
      → run_steps c patience d rest index t e ≡ some (e', r)
      → All (λ s. has_step s.action_id d.steps ≡ true) rest
      → P t
      → Counts r
  unfolding run_steps
  run_steps-counts patience [] index t e e' r h hs p =
      from_result t _ e' (result_of d completed "" t.count (1, 1)) r h p refl refl
  run_steps-counts patience (step ∷ rest) index t e e' r h hs p =
      elim (turn c patience d step rest index t e) [
        | asked q s ↦
            from_result t _ e' (result_of d cancelled "" t.count (0, 1)) r (sym s ∙ h) p refl refl
        | asleep q w s ↦ absurd (ground (arith, h, s))
        | skipped woken q w i s ↦
            run_steps-counts patience rest (suc index) t woken e' r (sym s ∙ h) hs.1 p
        | unended woken q w i o s ↦ absurd (ground (arith, h, s))
        | performed woken over after q w i o s ↦
            run_steps-counts patience rest (suc index) after over e' r (sym s ∙ h) hs.1 (
              perform-keeps step index t woken over (goes_on after) o
                (closed t step.action_id hs.0 i p))
        | ended woken over status message q w i o s ↦
            from_result t _ e' (result_of d status message t.count (0, 1)) r (sym s ∙ h) p refl refl
      ]
