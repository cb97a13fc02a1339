-- ===== src/Control/Request.antt =====
-- src/core/control/dto/BehaviorRequest.h and src/core/task/dto/TaskStatus.h. The steady clock's
-- reading is an argument of the functions that ask for it; it does not run backwards.
use mxrc.Common.{ℕ, ◌-◌, String, Bool, true, false, leb, ◌==◌, if◌then◌else◌}
use mxrc.Control.Priority.{Priority}

pub data TaskStatus : Type 0 where
  idle running completed failed cancelled paused scheduled : TaskStatus

unfoldable pub to_string : TaskStatus → String
to_string idle = "IDLE"
to_string running = "RUNNING"
to_string completed = "COMPLETED"
to_string failed = "FAILED"
to_string cancelled = "CANCELLED"
to_string paused = "PAUSED"
to_string scheduled = "SCHEDULED"

-- `task` is the address of the task object; `timestamp` and `timeout` are milliseconds.
pub record BehaviorRequest : Type 0 where
  pub behavior_id : String
  pub priority : Priority
  pub task : ℕ
  pub timestamp : ℕ
  pub requester_id : String
  pub cancellable : Bool
  pub timeout : ℕ

unfoldable pub new_request : String → Priority → ℕ → String → ℕ → BehaviorRequest
new_request id prio t req now = record {
  behavior_id = id;
  priority = prio;
  task = t;
  timestamp = now;
  requester_id = req;
  cancellable = true;
  timeout = 0;
}

unfoldable pub get_elapsed_ms : BehaviorRequest → ℕ → ℕ
get_elapsed_ms r now = now - r.timestamp

unfoldable pub is_timed_out : BehaviorRequest → ℕ → Bool
unfolding get_elapsed_ms
is_timed_out r now = if r.timeout == 0 then false else leb r.timeout (get_elapsed_ms r now)
