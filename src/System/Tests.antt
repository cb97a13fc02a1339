-- ===== src/System/Tests.antt =====
-- The arbiter over the alarm manager on a small input.
use mxrc.Common.{ℕ, ◌*◌, ◌≡◌, refl, true, false, none, some, [], arith, lookup, insert, decimal}
use mxrc.Alarm.Dto.{
  AlarmDto, critical, active, is_active, acknowledge, new_alarm, set_recurrence_count,
}
use mxrc.Alarm.Config.{get_alarm_config, should_escalate_severity}
use mxrc.Alarm.Manager.{get_alarm, new, acknowledge_alarm, check_recurrence, next_recurrence}
use mxrc.Alarm.Manager.Calls.{raise_alarm, admit, made_alarm}
use mxrc.Alarm.Manager.Reachable.{run, step}
use mxrc.Alarm.Tests.{bench, second, calls, start}
use mxrc.Control.Mode.{ControlMode}
use mxrc.Control.Request.{TaskStatus}
use mxrc.Control.Arbiter
use mxrc.Control.Arbiter.{Arbiter}
use mxrc.Control.Arbiter.Tick.{tick}
use mxrc.System.{Tasks, with_alarms}
use mxrc.System.Safety.{tick-get_alarm}

-- Tasks that count the calls.
abbrev tasks : Tasks ℕ
tasks = record {
  task_start = λ t n. ℕ.suc n;
  task_stop = λ t n. ℕ.suc n;
  task_pause = λ t n. ℕ.suc n;
  task_resume = λ t n. ℕ.suc n;
  task_status = λ t n. TaskStatus.running;
  task_id = λ t. "task";
  data_store = false;
  store_set = λ key value type n. (n, true);
}

-- The second alarm of `calls`, raised within the recurrence window.
abbrev hot : AlarmDto
hot = record {
  alarm_id = "W001_5000";
  alarm_code = "W001";
  alarm_name = "Motor hot";
  severity = critical;
  state = active;
  timestamp = 5 * second;
  details = none;
  source = "rt";
  recurrence_count = 2;
  last_recurrence = none;
  acknowledged_time = none;
  acknowledged_by = none;
  resolved_time = none;
}

found : get_alarm "W001_5000" (run bench start calls) ≡ some hot
unfolding get_alarm run step raise_alarm check_recurrence next_recurrence lookup insert
    get_alarm_config should_escalate_severity made_alarm set_recurrence_count new_alarm decimal
    admit acknowledge_alarm acknowledge is_active new
found = refl

tick-get_alarm_example :
    (tick (with_alarms tasks) (Arbiter.new (run bench start calls, 0))).current_mode
    ≡ ControlMode.fault
unfolding is_active Arbiter.new
tick-get_alarm_example =
    tick-get_alarm bench tasks [] calls "W001_5000" hot (Arbiter.new (run bench start calls, 0))
      (omega arith) found refl refl refl
