-- ===== src/Sequence/Tests.antt =====
-- Runs of the sequence engine. An action is its type, the world the types of the actions carried out;
-- an action of the type "broken" fails.
use mxrc.Common.{
  ℕ, ◌≤◌, ◌≡◌, refl, String, true, false, some, List, [], ◌∷◌, length, str_eq, if◌then◌else◌,
  lookup, insert, arith,
}
use mxrc.Action.Result as Action
use mxrc.Action.Result.{ExecutionResult, Outcome, threw, returned}
use mxrc.Sequence.Definition.{SequenceDefinition, ActionStep, SequenceResult, running, completed}
use mxrc.Sequence.Condition.{at_least, find_operator, candidates}
use mxrc.Sequence.Condition.Parsing.{find_operator-printed}
use mxrc.Sequence.Engine as Engine
use mxrc.Sequence.Engine.{
  Collaborators, SequenceEngine, SequenceState, first_state, state_of, get_status, resume,
  clear_completed_sequences,
}
use mxrc.Sequence.Execution as Execution
use mxrc.Sequence.Execution.{attempt}
use mxrc.Sequence.Steps as Steps
use mxrc.Sequence.Steps.{execute}
use mxrc.Sequence.Bounds.{execute-count, Distinct}
use mxrc.Sequence.Counts.{has_step}
use mxrc.Sequence.Completion.{execute-completed}
use mxrc.Sequence.Retries.{IsFinal, attempt-IsFinal}
use mxrc.Sequence.Status.{execute-status, resume-running}

abbrev result_for : String → ExecutionResult
result_for type =
    if str_eq type "broken"
    then record { action_id = type; status = Action.failed; progress = 0; error_message = "jammed" }
    else record { action_id = type; status = Action.completed; progress = 100; error_message = "" }

abbrev robot : Collaborators ℕ String (List String)
robot = record {
  create_action = λ type parameters w. (w, returned type);
  execute_async = λ a timeout w. (a ∷ w, a);
  wait_for_completion = λ id w. (w, []);
  get_result = λ id w. result_for id;
  cancel_action = λ id w. w;
  set_action_result = λ id r w. w;
  evaluate = λ condition w. returned true;
  sleep = λ ms w. (w, []);
  publish = λ event w. w;
  power = λ delay m n. delay;
  now = λ w. length w;
}

abbrev step : String → String → ActionStep
step id type = record { action_id = id; action_type = type; parameters = []; timeout = 0 }

abbrev sequence : List ActionStep → SequenceDefinition ℕ
sequence steps = record {
  id = "transport";
  name = "transport";
  description = "";
  steps = steps;
  timeout = 0;
  conditional_branches = [];
  retry_policy = some (record {
    max_retries = 2;
    retry_delay = 10;
    exponential_backoff = false;
    backoff_multiplier = 2;
  });
}

abbrev good_steps : List ActionStep
good_steps = step "a" "grip" ∷ step "b" "lift" ∷ []

abbrev idle : SequenceEngine (List String)
idle = record { states = []; world = [] }

abbrev done_state : SequenceState
done_state = record {
  status = completed;
  progress = (1, 1);
  cancel_requested = false;
  pause_requested = false;
  completed_steps = 2;
  total_steps = 2;
  current_action_id = "";
  start_time = 0;
}

abbrev done_engine : SequenceEngine (List String)
done_engine = record { states = ("transport", done_state) ∷ []; world = "lift" ∷ "grip" ∷ [] }

abbrev done_result : SequenceResult
done_result = record {
  sequence_id = "transport";
  status = completed;
  progress = (1, 1);
  error_message = "";
  completed_steps = 2;
  total_steps = 2;
  execution_time = 2;
}

run_lem : execute robot 5 (sequence good_steps) idle ≡ some (done_engine, done_result)
unfolding execute Steps.begin Steps.run_steps Steps.perform Steps.conclude Steps.judge
    Steps.finish_step Execution.handle_conditional_branch Execution.attempt Execution.run_action
    Execution.publish Execution.handle_requests Execution.wait_while_paused Engine.update_progress
    Action.is_successful Action.is_failed Action.is_cancelled lookup insert
run_lem = refl

execute-count_example : 2 ≤ 2
execute-count_example =
    execute-count robot (sequence good_steps) 5 idle done_engine done_result run_lem

good_steps-Distinct : Distinct good_steps
unfolding has_step
good_steps-Distinct = (refl, (refl, tt))

execute-completed_example : ◌≡◌ {A = ℕ} 2 2
execute-completed_example =
    execute-completed robot (sequence good_steps) 5 idle done_engine done_result run_lem refl
      good_steps-Distinct

execute-status_example : get_status "transport" done_engine ≡ completed
execute-status_example =
    execute-status robot (sequence good_steps) 5 idle done_engine done_result run_lem

attempt-IsFinal_example :
    (over : SequenceEngine (List String)) × (outcome : Outcome (ExecutionResult × ℕ)) × (attempt
        robot 3
        (sequence good_steps)
        (step "a" "broken")
        0
        0
        idle
      ≡ some (over, outcome))
    × IsFinal 2 outcome
attempt-IsFinal_example =
    attempt-IsFinal robot (sequence good_steps) (step "a" "broken") 0 3 0 idle (omega arith)
      (omega arith)

resume-running_example :
    (get_status "transport" (resume "transport" done_engine) ≡ running)
    × (get_status "transport" (clear_completed_sequences (resume "transport" done_engine)).0
        ≡ running)
unfolding lookup
resume-running_example = resume-running "transport" done_engine done_state refl

-- `speed>=10`
find_operator-printed_example :
    find_operator candidates (115 ∷ 112 ∷ 62 ∷ 61 ∷ 49 ∷ 48 ∷ [])
    ≡ some (at_least, 115 ∷ 112 ∷ [], 49 ∷ 48 ∷ [])
find_operator-printed_example =
    find_operator-printed (115 ∷ 112 ∷ []) at_least (49 ∷ 48 ∷ [])
      (
        (omega arith, omega arith, omega arith, omega arith),
        ((omega arith, omega arith, omega arith, omega arith), tt),
      )
      (
        (omega arith, omega arith, omega arith, omega arith),
        ((omega arith, omega arith, omega arith, omega arith), tt),
      )
