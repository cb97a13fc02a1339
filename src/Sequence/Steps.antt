-- ===== src/Sequence/Steps.antt =====
-- src/core/sequence/core/SequenceEngine.cpp: the loop over the steps, and `execute`.
use mxrc.Common.{
  ℕ, suc, ◌+◌, ◌-◌, String, ◌<>◌, true, false, Option, none, some, List, [], ◌∷◌, ◌&&◌, ◌||◌, ltb,
  if◌then◌else◌, length, decimal,
}
use mxrc.Action.Result as Action
use mxrc.Action.Result.{ExecutionResult, Outcome, threw, returned}
use mxrc.Sequence.Definition.{
  SequenceStatus, SequenceDefinition, ActionStep, SequenceResult, running, completed, failed,
  cancelled,
}
use mxrc.Sequence.Engine.{
  SequenceEvent, sequence_started, step_started, sequence_completed, sequence_failed,
  sequence_cancelled, Collaborators, SequenceState, SequenceEngine, Tally, is_in, state_of,
  with_state, with_world, update_progress,
}
use mxrc.Sequence.Execution.{
  publish, wait_while_paused, attempt, rounds_for, handle_conditional_branch,
}

-- How a step ends: the sequence goes on, or stops with its status and message.
pub data StepEnd : Type 0 where
  goes_on : Tally → StepEnd
  stops : SequenceStatus → String → StepEnd

abbrev pub add_completed : ℕ → SequenceState → SequenceState
add_completed n s = record s { completed_steps = s.completed_steps + n }

abbrev pub step_name : ActionStep → ℕ → String
step_name step index = "Step " <> (decimal (index + 1) <> (" (" <> (step.action_id <> ")")))

abbrev pub failure_message : ActionStep → ℕ → ℕ → String → String
failure_message step index retries message =
    step_name step index <> (" failed after " <> (decimal retries <> (" retries: " <> message)))

abbrev pub set_status : SequenceStatus → SequenceState → SequenceState
set_status status s = record s { status = status }

abbrev pub result_of :
    {M : Type 0} → SequenceDefinition M → SequenceStatus → String → ℕ → ℕ × ℕ → SequenceResult
result_of d status message count progress = record {
  sequence_id = d.id;
  status = status;
  progress = progress;
  error_message = message;
  completed_steps = count;
  total_steps = length d.steps;
  execution_time = 0;
}

abbrev pub ended_event : {M : Type 0} → SequenceDefinition M → SequenceResult → Option SequenceEvent
ended_event d r = elim r.status [
  | completed ↦ some (sequence_completed d.id r.completed_steps r.total_steps)
  | failed ↦ some (sequence_failed d.id r.error_message r.completed_steps r.total_steps)
  | cancelled ↦ some (sequence_cancelled d.id r.completed_steps r.total_steps)
  | _ ↦ none
]

-- The state of a sequence that is executed is made anew, but for its progress.
abbrev pub begin_state : {M : Type 0} → SequenceDefinition M → ℕ → SequenceState → SequenceState
begin_state d start s = record s {
  status = running;
  total_steps = length d.steps;
  completed_steps = 0;
  cancel_requested = false;
  pause_requested = false;
  start_time = start;
}

unfoldable pub begin :
    {M W : Type 0} → SequenceDefinition M → ℕ → SequenceEngine W → SequenceEngine W
begin d start e = with_state d.id (begin_state d start) e

module _ {M A W : Type 0} (c : Collaborators M A W) where
  -- A step that succeeded is counted, and its branch is run.
  unfoldable pub finish_step :
      SequenceDefinition M → ActionStep → Tally → SequenceEngine W → SequenceEngine W × Tally
  finish_step d step t e =
      let counted : Tally = record {
        executed = step.action_id ∷ t.executed;
        count = suc t.count;
      } in
      let (branched, after) = handle_conditional_branch c step.action_id d counted (
        update_progress d.id counted.count (length d.steps)
          (with_state d.id (add_completed 1) e)) in
      let extra = after.count - counted.count in
      let added = with_state d.id (add_completed extra) branched in
      (
        if ltb 0 extra then update_progress d.id after.count (length d.steps) added else added,
        after,
      )

  -- What follows a result that is final.
  unfoldable pub judge :
      SequenceDefinition M
      → ActionStep
      → ℕ
      → Tally
      → ExecutionResult
      → ℕ
      → SequenceEngine W
      → SequenceEngine W × StepEnd
  judge d step index t r retries e =
      let asked = (state_of d.id e).cancel_requested in
      if Action.is_cancelled r || (Action.is_status r.status Action.timed_out && asked)
      then (e, stops cancelled "")
      else if Action.is_failed r
      then (e, stops failed (failure_message step index retries r.error_message))
      else (let (over, after) = finish_step d step t e in (over, goes_on after))

  -- What follows the retry loop: an exception ends the sequence, a result is judged.
  unfoldable pub conclude :
      SequenceDefinition M
      → ActionStep
      → ℕ
      → Tally
      → SequenceEngine W
      → Outcome (ExecutionResult × ℕ)
      → SequenceEngine W × StepEnd
  conclude d step index t over (threw message) =
      (over, stops failed (step_name step index <> (" exception: " <> message)))
  conclude d step index t over (returned (r, retries)) =
      judge d step index t r retries
        (with_world (c.set_action_result step.action_id r over.world) over)

  unfoldable pub perform :
      SequenceDefinition M
      → ActionStep
      → ℕ
      → Tally
      → SequenceEngine W
      → Option (SequenceEngine W × StepEnd)
  perform d step index t e =
      let started =
        publish c (step_started d.id step.action_id step.action_type index (length d.steps)) e in
      elim (attempt c (rounds_for d.retry_policy) d step index 0 started) [
        | none ↦ none
        | some (over, outcome) ↦ some (conclude d step index t over outcome)
      ]

  unfoldable pub run_steps :
      ℕ
      → SequenceDefinition M
      → List ActionStep
      → ℕ
      → Tally
      → SequenceEngine W
      → Option (SequenceEngine W × SequenceResult)
  run_steps patience d [] index t e = some (
    with_state d.id (λ s. record s { status = completed; progress = (1, 1) }) e,
    result_of d completed "" t.count (1, 1),
  )
  run_steps patience d (step ∷ rest) index t e = elim (state_of d.id e).cancel_requested [
    | true ↦
        some (with_state d.id (set_status cancelled) e, result_of d cancelled "" t.count (0, 1))
    | false ↦ elim (wait_while_paused c patience d.id e) [
      | none ↦ none
      | some woken ↦ elim (is_in step.action_id t.executed) [
        | true ↦ run_steps patience d rest (suc index) t woken
        | false ↦ elim (perform d step index t woken) [
          | none ↦ none
          | some (over, goes_on after) ↦ run_steps patience d rest (suc index) after over
          | some (over, stops status message) ↦
              some (
                with_state d.id (set_status status) over,
                result_of d status message t.count (0, 1),
              )
        ]
      ]
    ]
  ]

  abbrev pub publish_if : Option SequenceEvent → SequenceEngine W → SequenceEngine W
  publish_if none e = e
  publish_if (some event) e = publish c event e

  unfoldable pub execute :
      ℕ → SequenceDefinition M → SequenceEngine W → Option (SequenceEngine W × SequenceResult)
  execute patience d e =
      let start = c.now e.world in
      let begun = begin d start e in
      let told = publish c (sequence_started d.id d.name (length d.steps)) begun in
      elim (run_steps patience d d.steps 0 (record { executed = []; count = 0 }) told) [
        | none ↦ none
        | some (over, r) ↦
            let timed = record r { execution_time = c.now over.world - start } in
            some (publish_if (ended_event d timed) over, timed)
      ]
