-- ===== src/Action/Tests.antt =====
-- Runs of the action executor. An action is its id, the world their statuses.
use mxrc.Common.{refl, String, true, Option, none, some, List, [], ◌∷◌, lookup, insert}
use mxrc.Action.Result.{ActionStatus, pending, cancelled}
use mxrc.Action.Executor as Executor
use mxrc.Action.Executor.{
  Actions, ExecutionState, ActionExecutor, end_task, cancel, monitor, first_state,
}
use mxrc.Action.Executor.Stale.{HasFailed}

abbrev Statuses : Type 0
Statuses = List (String × ActionStatus)

abbrev status_or_pending : Option ActionStatus → ActionStatus
status_or_pending none = pending
status_or_pending (some s) = s

abbrev acts : Actions String Statuses
unfolding lookup insert
acts = record {
  get_id = λ a. a;
  get_type = λ a. "Move";
  get_status = λ a w. status_or_pending (lookup a w);
  get_progress = λ a w. 0;
  cancel = λ a w. insert a cancelled w;
}

-- An executor with one action, whose task 0 has ended.
abbrev with_entry : ExecutionState String → ActionExecutor String Statuses
with_entry s = record {
  running_actions = ("lift", s) ∷ [];
  next_task = 1;
  ended_tasks = 0 ∷ [];
  event_bus = none;
  world = [];
}

abbrev calm_state : ExecutionState String
calm_state = first_state "lift" 0 0 0

abbrev thrown_state : ExecutionState String
thrown_state = record calm_state { exception_occurred = true; exception_message = "jammed" }

thrown-HasFailed : HasFailed "lift" (with_entry thrown_state)
unfolding lookup Executor.is_ready
thrown-HasFailed = (thrown_state, refl, refl, refl)
