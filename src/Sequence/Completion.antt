-- ===== src/Sequence/Completion.antt =====
-- src/core/sequence/core/SequenceEngine.cpp: a sequence that is completed has executed every step.
use mxrc.Common.{
  ℕ, suc, ◌+◌, ◌≡◌, ◌≢◌, refl, sym, ap, ◌∙◌, subst, String, true, false, Option, some, List, [],
  ◌∷◌, ◌||◌, ◌&&◌, length, All, Bool-cases, Option-cases, inl, inr, eq_refl, arith,
}
use mxrc.Action.Result as Action
use mxrc.Action.Result.{ExecutionResult, Outcome, threw, returned, Outcome-cases}
use mxrc.Sequence.Definition.{
  SequenceStatus, SequenceDefinition, ActionStep, SequenceResult, completed, failed, cancelled,
  status_index,
}
use mxrc.Sequence.Engine.{Collaborators, SequenceEngine, step_started, Tally, is_in, state_of}
use mxrc.Sequence.Execution.{attempt, rounds_for, publish}
use mxrc.Sequence.Steps.{
  StepEnd, goes_on, stops, judge, conclude, perform, run_steps, execute, result_of,
}
use mxrc.Sequence.Turns.{turn, asked, asleep, skipped, unended, performed, ended}
use mxrc.Sequence.Counts.{left, has_step, perform-keeps, counted, left-start}
use mxrc.Sequence.Bounds.{steps-HasSteps, execute-loop, Distinct, left-drops_one}

-- A step that stops the sequence does not complete it.
abbrev IsNoCompletion : StepEnd → Type 0
IsNoCompletion (goes_on t) = Unit
IsNoCompletion (stops status message) = status ≢ completed

different : (s : SequenceStatus) → status_index s ≢ 2 → s ≢ completed
different s h e = h (ap status_index e)

left-none :
    (executed : List String) (steps : List ActionStep)
    → All (λ s. is_in s.action_id executed ≡ true) steps
    → left executed steps ≡ 0
unfolding left
left-none executed [] h = refl
left-none executed (step ∷ steps) h = ground (arith, h.0, left-none executed steps h.1)

module _ {M A W : Type 0} (c : Collaborators M A W) (d : SequenceDefinition M) where
  judge-IsNoCompletion :
      (step : ActionStep) (index : ℕ) (t : Tally) (r : ExecutionResult) (retries : ℕ)
      (e : SequenceEngine W)
      → IsNoCompletion (judge c d step index t r retries e).1
  unfolding judge
  judge-IsNoCompletion step index t r retries e =
      elim (Bool-cases (
        Action.is_cancelled r
        || (Action.is_status r.status Action.timed_out && (state_of d.id e).cancel_requested))) [
          | inl h ↦ rw h (different cancelled (omega arith))
          | inr h ↦ elim (Bool-cases (Action.is_failed r)) [
            | inl f ↦ rw (h, f) (different failed (omega arith))
            | inr f ↦ rw (h, f) tt
          ]
        ]

  conclude-IsNoCompletion :
      (step : ActionStep) (index : ℕ) (t : Tally) (over : SequenceEngine W)
      (outcome : Outcome (ExecutionResult × ℕ))
      → IsNoCompletion (conclude c d step index t over outcome).1
  unfolding conclude
  conclude-IsNoCompletion step index t over (threw message) = different failed (omega arith)
  conclude-IsNoCompletion step index t over (returned (r, retries)) =
      judge-IsNoCompletion step index t r retries _

  perform-stops :
      (step : ActionStep) (index : ℕ) (t : Tally) (e over : SequenceEngine W)
      (status : SequenceStatus) (message : String)
      → perform c d step index t e ≡ some (over, stops status message)
      → status ≢ completed
  unfolding perform
  perform-stops step index t e over status message h =
      elim (Option-cases (
        attempt c (rounds_for d.retry_policy) d step index 0 (
          publish c (step_started d.id step.action_id step.action_type index (length d.steps))
            e))) [
              | inl o ↦ absurd (ground (arith, h, o))
              | inr ((later, outcome), o) ↦
                  let made : some (conclude c d step index t later outcome)
                      ≡ some (over, stops status message) =
                    sym (rw (perform, o) refl) ∙ h in
                  let same : conclude c d step index t later outcome
                      ≡ (over, stops status message) =
                    cc in
                  subst IsNoCompletion (ap (λ (x : SequenceEngine W × StepEnd). x.1) same)
                    (conclude-IsNoCompletion step index t later outcome)
            ]

  perform-grows :
      (id : String) (step : ActionStep) (index : ℕ) (t after : Tally) (e over : SequenceEngine W)
      → perform c d step index t e ≡ some (over, goes_on after)
      → is_in id (step.action_id ∷ t.executed) ≡ true
      → is_in id after.executed ≡ true
  perform-grows id step index t after e over h p =
      perform-keeps c d (λ u. is_in id u.executed ≡ true) (λ u other there out q. ground (arith, q))
        step index t e over (goes_on after) h p

  -- The final tally has what this one has, and every step of the rest.
  abbrev Covers : List ActionStep → Tally → Tally → Type 0
  Covers rest t final =
      ((id : String) → is_in id t.executed ≡ true → is_in id final.executed ≡ true)
      × All (λ s. is_in s.action_id final.executed ≡ true) rest

  not_completed :
      {over : SequenceEngine W} (e' : SequenceEngine W) (r : SequenceResult)
      (status : SequenceStatus) (message : String) (t : Tally)
      → ◌≡◌ {A = Option (SequenceEngine W × SequenceResult)}
          (some (over, result_of d status message t.count (0, 1)))
          (some (e', r))
      → status ≢ completed
      → r.status ≢ completed
  not_completed e' r status message t h other done =
      let same : result_of d status message t.count (0, 1) ≡ r = cc in
      other (ap (λ (x : SequenceResult). SequenceResult.status x) same ∙ done)

  module _ (P : Tally → Type 0)
      (closed : (t : Tally) (id : String)
        → has_step id d.steps ≡ true
        → is_in id t.executed ≡ false
        → P t
        → P (counted id t)) where
    run_steps-Covers :
        (patience : ℕ) (rest : List ActionStep) (index : ℕ) (t : Tally) (e e' : SequenceEngine W)
        (r : SequenceResult)
        → run_steps c patience d rest index t e ≡ some (e', r)
        → r.status ≡ completed
        → All (λ s. has_step s.action_id d.steps ≡ true) rest
        → P t
        → (final : Tally) × P final × (r.completed_steps ≡ final.count) × Covers rest t final
    unfolding run_steps
    run_steps-Covers patience [] index t e e' r h done hs p =
        let same : result_of d completed "" t.count (1, 1) ≡ r = cc in
        (
          t,
          p,
          sym (ap (λ (x : SequenceResult). SequenceResult.completed_steps x) same),
          ((λ id i. i), tt),
        )
    run_steps-Covers patience (step ∷ rest) index t e e' r h done hs p =
        elim (turn c patience d step rest index t e) [
          | asked q s ↦ absurd (
              not_completed e' r cancelled "" t (sym s ∙ h) (different cancelled (omega arith))
                done)
          | asleep q w s ↦ absurd (ground (arith, h, s))
          | skipped woken q w i s ↦
              let (final, kept, count, (grows, covers)) =
                run_steps-Covers patience rest (suc index) t woken e' r (sym s ∙ h) done hs.1 p in
              (final, kept, count, (grows, (grows step.action_id i, covers)))
          | unended woken q w i o s ↦ absurd (ground (arith, h, s))
          | performed woken over after q w i o s ↦
              let counts =
                perform-keeps c d P closed step index t woken over (goes_on after) o
                  (closed t step.action_id hs.0 i p) in
              let (final, kept, count, (grows, covers)) =
                run_steps-Covers patience rest (suc index) after over e' r (sym s ∙ h) done hs.1
                  counts in
              let more = λ (id : String) (x : is_in id (step.action_id ∷ t.executed) ≡ true).
                grows id (perform-grows id step index t after woken over o x) in
              (
                final,
                kept,
                count,
                (
                  (λ id x. more id (ground (arith, x))),
                  (more step.action_id (ground (arith, eq_refl step.action_id)), covers),
                ),
              )
          | ended woken over status message q w i o s ↦ absurd (
              not_completed e' r status message t (sym s ∙ h)
                (perform-stops step index t woken over status message o) done)
        ]

  -- A sequence whose actions differ and that ends COMPLETED has counted all its steps.
  pub execute-completed :
      (patience : ℕ) (e e' : SequenceEngine W) (r : SequenceResult)
      → execute c patience d e ≡ some (e', r)
      → r.status ≡ completed
      → Distinct d.steps
      → r.completed_steps ≡ length d.steps
  execute-completed patience e e' r h done distinct =
      let (over, s, l, same) = execute-loop c d patience e e' r h in
      let (t, exact, count, (grows, covers)) =
        run_steps-Covers (λ u. u.count + left u.executed d.steps ≡ length d.steps)
          (λ u id there out p.
            omega (arith, left-drops_one id u.executed d.steps distinct there out, p))
          patience d.steps 0 (record { executed = []; count = 0 }) _ over s l
          (sym (ap (λ (x : SequenceResult). SequenceResult.status x) same) ∙ done)
          (steps-HasSteps d.steps) (omega (arith, left-start d.steps)) in
      let kept = ap (λ (x : SequenceResult). SequenceResult.completed_steps x) same in
      omega (arith, exact, count, kept, left-none t.executed d.steps covers)
