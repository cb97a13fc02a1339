-- ===== src/Control/Objects.antt =====
-- What the arbiter holds pointers to, as an interface: the tasks (src/core/task/interfaces/ITask.h),
-- the alarm manager (src/core/alarm/interfaces/IAlarmManager.h) and the data store. `W` is the state
-- of all of them together; a task is named by its address.
pub mod Observed
use mxrc.Common.{ℕ, String, Bool, true, false}
use mxrc.Control.Request.{TaskStatus}

pub data StoreValue : Type 0 where
  int : ℕ → StoreValue
  text : String → StoreValue

-- The members of the data store's DataType that the arbiter uses.
pub data StoreType : Type 0 where
  robot_mode event : StoreType

pub record Env (W : Type 0) : Type 0 where
  pub task_start : ℕ → W → W
  pub task_stop : ℕ → W → W
  pub task_pause : ℕ → W → W
  pub task_resume : ℕ → W → W
  pub task_status : ℕ → W → TaskStatus
  pub task_id : ℕ → String
  -- hasCriticalAlarm(), and whether getActiveAlarmsBySeverity(WARNING) has an element
  pub has_critical_alarm : W → Bool
  pub has_warning_alarm : W → Bool
  -- whether the arbiter was given a data store, and a write to it: `false` is an exception
  pub data_store : Bool
  pub store_set : String → StoreValue → StoreType → W → W × Bool

abbrev pub is_finished : TaskStatus → Bool
is_finished TaskStatus.completed = true
is_finished TaskStatus.failed = true
is_finished TaskStatus.cancelled = true
is_finished _ = false
