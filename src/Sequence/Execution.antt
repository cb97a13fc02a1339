-- ===== src/Sequence/Execution.antt =====
-- src/core/sequence/core/SequenceEngine.cpp: cancelling, and the execution of a sequence. A step that
-- waits for a resume sleeps so many times at most: `none` is an engine that still sleeps.
use mxrc.Common.{
  ℕ, zero, suc, String, Bool, true, false, Option, none, some, List, [], ◌∷◌, ◌&&◌, not, ltb,
  if◌then◌else◌, length, lookup, insert, str_eq,
}
use mxrc.Action.Result as Action
use mxrc.Action.Result.{ExecutionResult, Outcome, threw, returned}
use mxrc.Sequence.Definition.{SequenceDefinition, ActionStep, RetryPolicy}
use mxrc.Sequence.Retry.{calculate_delay, can_retry}
use mxrc.Sequence.Engine.{
  Request, ask_cancel, ask_pause, ask_resume, SequenceEvent, step_completed, Collaborators,
  SequenceEngine, Tally, is_in, find_step, state_of, with_state, with_world, pause, resume,
}

abbrev pub may_retry : {M : Type 0} → Option (RetryPolicy M) → ℕ → Bool
may_retry none retry_count = false
may_retry (some p) retry_count = can_retry p retry_count

-- As many rounds as the policy allows retries, and one.
abbrev pub rounds_for : {M : Type 0} → Option (RetryPolicy M) → ℕ
rounds_for none = 1
rounds_for (some p) = suc p.max_retries

module _ {M A W : Type 0} (c : Collaborators M A W) where
  unfoldable pub publish : SequenceEvent → SequenceEngine W → SequenceEngine W
  publish event e = with_world (c.publish event e.world) e

  unfoldable pub cancel : String → SequenceEngine W → SequenceEngine W
  cancel id e = elim (lookup id e.states) [
    | none ↦ e
    | some s ↦ record e {
      states = insert id (record s { cancel_requested = true }) e.states;
      world =
          if str_eq s.current_action_id ""
          then e.world
          else c.cancel_action s.current_action_id e.world;
    }
  ]

  unfoldable pub handle_requests : List Request → SequenceEngine W → SequenceEngine W
  handle_requests [] e = e
  handle_requests (ask_cancel id ∷ rest) e = handle_requests rest (cancel id e)
  handle_requests (ask_pause id ∷ rest) e = handle_requests rest (pause id e)
  handle_requests (ask_resume id ∷ rest) e = handle_requests rest (resume id e)

  unfoldable pub sleep : ℕ → SequenceEngine W → SequenceEngine W
  sleep ms e = let (w, requests) = c.sleep ms e.world in handle_requests requests (with_world w e)

  -- The loop of a paused sequence.
  unfoldable pub wait_while_paused : ℕ → String → SequenceEngine W → Option (SequenceEngine W)
  wait_while_paused zero id e =
      if (state_of id e).pause_requested && not (state_of id e).cancel_requested
      then none
      else some e
  wait_while_paused (suc patience) id e =
      let rest = wait_while_paused patience id (sleep 100 e) in
      if (state_of id e).pause_requested && not (state_of id e).cancel_requested
      then rest
      else some e

  unfoldable pub wait_before_retry : RetryPolicy M → ℕ → SequenceEngine W → SequenceEngine W
  wait_before_retry p current_retry e =
      let delay = calculate_delay c.power p current_retry in
      if ltb 0 delay then sleep delay e else e

  -- An action is made, started and waited for.
  unfoldable pub run_action :
      String → ActionStep → SequenceEngine W → SequenceEngine W × Outcome ExecutionResult
  run_action id step e =
      let (w, made) =
        c.create_action step.action_type (insert "id" step.action_id step.parameters) e.world in
      elim made [
        | threw message ↦ (with_world w e, threw message)
        | returned a ↦
            let (v, action_id) = c.execute_async a step.timeout w in
            let started =
              with_state id (λ s. record s { current_action_id = action_id }) (with_world v e) in
            let (u, requests) = c.wait_for_completion action_id started.world in
            let waited = handle_requests requests (with_world u started) in
            let over = with_state id (λ s. record s { current_action_id = "" }) waited in
            (over, returned (c.get_result action_id over.world))
      ]

  abbrev pub wait_to_retry : Option (RetryPolicy M) → ℕ → SequenceEngine W → SequenceEngine W
  wait_to_retry none retry_count e = e
  wait_to_retry (some p) retry_count e = wait_before_retry p retry_count e

  -- The retry loop, on fuel, with the number of retries so far; `none` is a loop that goes on.
  unfoldable pub attempt :
      ℕ
      → SequenceDefinition M
      → ActionStep
      → ℕ
      → ℕ
      → SequenceEngine W
      → Option (SequenceEngine W × Outcome (ExecutionResult × ℕ))
  attempt zero d step index retry_count e = none
  attempt (suc rounds) d step index retry_count e =
      let (over, outcome) = run_action d.id step e in
      let again =
        attempt rounds d step index (suc retry_count)
          (wait_to_retry d.retry_policy retry_count over) in
      elim outcome [
        | threw message ↦ some (over, threw message)
        | returned r ↦
            if Action.is_successful r
            then some (
              publish (step_completed d.id step.action_id step.action_type index (length d.steps))
                  over,
              returned (r, retry_count),
            )
            else if may_retry d.retry_policy retry_count
            then again
            else some (over, returned (r, retry_count))
      ]

  -- The actions of a branch, one after the other.
  unfoldable pub run_branch :
      SequenceDefinition M → List String → Tally → SequenceEngine W → SequenceEngine W × Tally
  run_branch d [] t e = (e, t)
  run_branch d (id ∷ rest) t e = elim (is_in id t.executed) [
    | true ↦ run_branch d rest t e
    | false ↦ elim (find_step id d.steps) [
      | none ↦ run_branch d rest t e
      | some step ↦
          let (over, outcome) = run_action d.id step e in
          elim outcome [
            | threw message ↦ run_branch d rest t over
            | returned r ↦
                run_branch d rest
                  (record { executed = step.action_id ∷ t.executed; count = suc t.count })
                  (with_world (c.set_action_result step.action_id r over.world) over)
          ]
    ]
  ]

  -- The branch of an action, if it has one and its condition can be evaluated.
  unfoldable pub handle_conditional_branch :
      String → SequenceDefinition M → Tally → SequenceEngine W → SequenceEngine W × Tally
  handle_conditional_branch id d t e = elim (lookup id d.conditional_branches) [
    | none ↦ (e, t)
    | some branch ↦ elim (c.evaluate branch.condition e.world) [
      | threw message ↦ (e, t)
      | returned holds ↦
          run_branch d (if holds then branch.true_actions else branch.false_actions) t e
    ]
  ]
