-- ===== src/System/Retries/Tests.antt =====
-- A step whose action has thrown, over the action executor. An action is its parameters.
use mxrc.Common.{
  ℕ, ◌+◌, ◌≡◌, refl, ap, inr, String, true, false, Option, none, some, List, [], ◌∷◌, lookup,
  lookup-inserted, arith,
}
use mxrc.Action.Result.{ExecutionResult, returned, failed, completed}
use mxrc.Action.Executor as Executor
use mxrc.Action.Executor.{Actions, ActionExecutor, ExecutionState, first_state, end_task}
use mxrc.Action.Executor.Starting.{Run}
use mxrc.Action.Executor.Stale.{end_task-HasFailed}
use mxrc.Sequence.Definition.{SequenceDefinition, ActionStep}
use mxrc.Sequence.Engine.{SequenceEngine}
use mxrc.Sequence.Execution.{attempt}
use mxrc.System.Retries.{over_executor, attempt-stale}

abbrev Parameters : Type 0
Parameters = List (String × String)

abbrev or_empty : Option String → String
or_empty none = ""
or_empty (some s) = s

-- Every action succeeds.
abbrev acts : Actions Parameters ℕ
acts = record {
  get_id = λ a. or_empty (lookup "id" a);
  get_type = λ a. "Move";
  get_status = λ a w. completed;
  get_progress = λ a w. 100;
  cancel = λ a w. w;
}

abbrev lift : Parameters
lift = ("id", "lift") ∷ []

abbrev jammed : ExecutionState Parameters
jammed = record (first_state lift 0 0 0) { exception_occurred = true; exception_message = "jammed" }

abbrev engine : SequenceEngine (ActionExecutor Parameters ℕ)
engine = record {
  states = [];
  world = record {
    running_actions = ("lift", jammed) ∷ [];
    next_task = 1;
    ended_tasks = 0 ∷ [];
    event_bus = none;
    world = 0;
  };
}

abbrev transport : SequenceDefinition ℕ
transport = record {
  id = "transport";
  name = "transport";
  description = "";
  steps = [];
  timeout = 0;
  conditional_branches = [];
  retry_policy = some (record {
    max_retries = 3;
    retry_delay = 10;
    exponential_backoff = false;
    backoff_multiplier = 2;
  });
}

abbrev lifting : ActionStep
lifting = record { action_id = "lift"; action_type = "Move"; parameters = []; timeout = 0 }

-- While the engine waits, the newest task ends without an exception.
abbrev task_ends : String → ActionExecutor Parameters ℕ → ActionExecutor Parameters ℕ
task_ends id e = end_task acts lift e.next_task 0 none 0 e

-- A retried task lifts once, and ends while executeAsync waits for it, without an exception.
abbrev lift_again : Parameters → ActionExecutor Parameters ℕ → Run ℕ
lift_again a e = record { ends_first = false; effect = λ w. w + 1; outcome = none; end_time = 0 }

abbrev delay : ℕ → ℕ → ℕ → ℕ
delay d m n = d

attempt-stale_example :
    (over : SequenceEngine (ActionExecutor Parameters ℕ)) × (r : ExecutionResult) × (attempt
        (over_executor acts (λ type p. p) lift_again task_ends delay)
        4
        transport
        lifting
        0
        0
        engine
      ≡ some (over, returned (r, 3)))
    × (r.status ≡ failed)
unfolding lookup Executor.is_ready
attempt-stale_example =
    attempt-stale acts (λ type p. p) lift_again task_ends delay
      (λ type id p. ap or_empty (lookup-inserted "id" id p))
      (λ id e h. end_task-HasFailed acts lift e.next_task 0 none 0 id e h) (λ a e. inr refl)
      transport lifting 0 4 0 engine refl (jammed, refl, refl, refl) (omega arith) (omega arith)
