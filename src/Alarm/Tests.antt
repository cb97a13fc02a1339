-- ===== src/Alarm/Tests.antt =====
-- Runs of the alarm manager on small inputs.
use mxrc.Common.{
  ℕ, ◌+◌, ◌*◌, ◌≡◌, refl, true, false, Option, none, some, List, [], ◌∷◌, arith, lookup, insert,
  decimal,
}
use mxrc.Alarm.Dto.{
  AlarmDto, critical, warning, active, is_active, acknowledge, set_recurrence_count, new_alarm,
}
use mxrc.Alarm.Config.{AlarmConfig, Configs, get_alarm_config, validate, should_escalate_severity}
use mxrc.Alarm.Manager.{
  AlarmManager, AlarmEvent, Ports, new, get_alarm, get_statistics, has_critical_alarm,
  acknowledge_alarm, check_recurrence, next_recurrence,
}
use mxrc.Alarm.Manager.Calls.{raise_alarm, resolve_alarm, made_alarm, admit}
use mxrc.Alarm.Manager.Counts.{Fits, active_in}
use mxrc.Alarm.Manager.Reachable.{
  Call, raises, acknowledges, run, step, run-Fits, run-has_critical_alarm,
}
use mxrc.Alarm.Manager.Raising.{raise-get_alarm, severity, recurrence}
use mxrc.Alarm.Manager.Resolving.{raise-resolve}

-- The writes and events so far.
pub data Effect : Type 0 where
  stored : AlarmDto → Effect
  counted : ℕ → Effect
  published : AlarmEvent → Effect

abbrev pub bench : Ports (List Effect)
bench = record {
  data_store = true;
  store_alarm = λ a w. (stored a ∷ w, true);
  store_count = λ n w. (counted n ∷ w, true);
  event_bus = true;
  publish = λ e w. published e ∷ w;
}

abbrev motor : AlarmConfig
motor = record {
  code = "W001";
  name = "Motor hot";
  severity = warning;
  description = "";
  recommended_action = none;
  recurrence_window = 60;
  recurrence_threshold = 2;
  auto_reset = false;
}

abbrev pub configs : Configs
configs = ("W001", motor) ∷ []

configured : get_alarm_config "W001" configs ≡ some motor
unfolding get_alarm_config lookup
configured = refl

configs_valid : validate configs ≡ true
unfolding validate
configs_valid = refl

abbrev pub second : ℕ
second = 1000000000

abbrev pub start : AlarmManager (List Effect)
start = new []

abbrev once_result : Option AlarmDto × AlarmManager (List Effect)
once_result = raise_alarm bench configs "W001" "rt" none second second start

abbrev once : AlarmManager (List Effect)
once = once_result.1

raise-get_alarm_example :
    (a : AlarmDto) × (once_result.0 ≡ some a)
    × (get_alarm a.alarm_id once_result.1 ≡ some a)
    × (is_active a ≡ true)
    × (a.recurrence_count ≡ recurrence bench configs "W001" "rt" none second second start)
    × (a.severity ≡ severity bench configs "W001" "rt" none second second start motor)
raise-get_alarm_example =
    raise-get_alarm bench configs "W001" "rt" none second second start motor configured

abbrev pub calls : List (Call (List Effect))
calls =
    raises configs "W001" "rt" none second second
    ∷ raises configs "W001" "rt" none (5 * second) (5 * second)
    ∷ acknowledges "W001_1000" "operator" (6 * second)
    ∷ []

run-Fits_example : Fits 3 (run bench start calls).alarms (run bench start calls).stats
run-Fits_example = run-Fits bench [] calls (omega arith)

one_critical : active_in critical (run bench start calls).alarms ≡ 1
unfolding run step raise_alarm check_recurrence next_recurrence lookup insert get_alarm_config
    should_escalate_severity made_alarm set_recurrence_count new_alarm decimal admit
    acknowledge_alarm new acknowledge is_active
one_critical = refl

run-has_critical_alarm_example : has_critical_alarm (run bench start calls) ≡ true
run-has_critical_alarm_example =
    run-has_critical_alarm bench [] calls (omega arith) (omega (arith, one_critical))

-- The alarm that is active after one raise.
abbrev w001 : AlarmDto
w001 = record {
  alarm_id = "W001_1000";
  alarm_code = "W001";
  alarm_name = "Motor hot";
  severity = warning;
  state = active;
  timestamp = second;
  details = none;
  source = "rt";
  recurrence_count = 1;
  last_recurrence = none;
  acknowledged_time = none;
  acknowledged_by = none;
  resolved_time = none;
}

found : get_alarm "W001_1000" once ≡ some w001
unfolding get_alarm raise_alarm check_recurrence next_recurrence lookup insert get_alarm_config
    should_escalate_severity made_alarm set_recurrence_count new_alarm decimal admit new
found = refl

raise-resolve_example :
    (a : AlarmDto) × (once_result.0 ≡ some a)
    × (let closed = resolve_alarm bench a.alarm_id (2 * second) once in
        (closed.0 ≡ true)
        × (get_statistics closed.1 ≡ record start.stats {
          total_raised = start.stats.total_raised + 1;
          resolved_count = start.stats.resolved_count + 1;
        }))
unfolding new run
raise-resolve_example =
    raise-resolve bench configs "W001" "rt" none second second (2 * second) 0 start motor configured
      (omega arith) (run-Fits bench [] [] (omega arith))
