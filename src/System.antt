-- ===== src/System.antt =====
-- The behaviour arbiter over the alarm manager: how src/core/control/impl/BehaviorArbiter.cpp asks the
-- manager of src/core/alarm/impl/AlarmManager.cpp in each tick.
pub mod Safety
pub mod Retries
pub mod Tests
use mxrc.Common.{ℕ, String, Bool, true, false, not, is_empty}
use mxrc.Control.Request.{TaskStatus}
use mxrc.Control.Objects.{Env, StoreValue, StoreType}
use mxrc.Alarm.Dto.{AlarmSeverity, warning}
use mxrc.Alarm.Manager
use mxrc.Alarm.Manager.{AlarmManager}
use mxrc.Alarm.Manager.Calls.{get_active_alarms_by_severity}

-- The other objects of the arbiter: the tasks and the data store, with the state `V`.
pub record Tasks (V : Type 0) : Type 0 where
  pub task_start : ℕ → V → V
  pub task_stop : ℕ → V → V
  pub task_pause : ℕ → V → V
  pub task_resume : ℕ → V → V
  pub task_status : ℕ → V → TaskStatus
  pub task_id : ℕ → String
  pub data_store : Bool
  pub store_set : String → StoreValue → StoreType → V → V × Bool

-- The interface of the arbiter, with the alarm manager in its place.
unfoldable pub with_alarms : {W V : Type 0} → Tasks V → Env (AlarmManager W × V)
with_alarms tasks = record {
  task_start = λ t w. (w.0, tasks.task_start t w.1);
  task_stop = λ t w. (w.0, tasks.task_stop t w.1);
  task_pause = λ t w. (w.0, tasks.task_pause t w.1);
  task_resume = λ t w. (w.0, tasks.task_resume t w.1);
  task_status = λ t w. tasks.task_status t w.1;
  task_id = tasks.task_id;
  has_critical_alarm = λ w. Manager.has_critical_alarm w.0;
  has_warning_alarm = λ w. not (is_empty (get_active_alarms_by_severity warning w.0));
  data_store = tasks.data_store;
  store_set = λ key value type w.
      ((w.0, (tasks.store_set key value type w.1).0), (tasks.store_set key value type w.1).1);
}
