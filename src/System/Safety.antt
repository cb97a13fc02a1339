-- ===== src/System/Safety.antt =====
-- What an alarm of the manager makes the arbiter do.
use mxrc.Common.{
  ℕ, ◌^◌, ◌<◌, ◌≤◌, ◌≡◌, ◌∙◌, ap, String, true, some, List, [], ◌∷◌, arith, length, lookup, ltb,
}
use mxrc.Alarm.Dto.{AlarmDto, AlarmSeverity, critical, is_active}
use mxrc.Alarm.Manager.{
  AlarmManager, Ports, new, get_alarm, get_statistics, acknowledge_alarm, has_critical_alarm,
}
use mxrc.Alarm.Manager.Calls.{resolve_alarm}
use mxrc.Alarm.Manager.Counts.{active_in, hit}
use mxrc.Alarm.Manager.Reachable.{Call, run, run-has_critical_alarm}
use mxrc.Alarm.Manager.Resolving.{acknowledge-resolve}
use mxrc.Control.Mode.{ControlMode}
use mxrc.Control.Arbiter.{Arbiter}
use mxrc.Control.Arbiter.Tick.{tick}
use mxrc.Control.Arbiter.Faults.{tick-critical_alarm}
use mxrc.System.{Tasks, with_alarms}

hit_le_active :
    (sev : AlarmSeverity) (id : String) (a : AlarmDto) (l : List (String × AlarmDto))
    → lookup id l ≡ some a
    → hit sev a ≤ active_in sev l
unfolding lookup
hit_le_active sev id a [] h = ground arith
hit_le_active sev id a ((k, b) ∷ l) h = ground (arith, h, hit_le_active sev id a l)

module _ {W V : Type 0} (ports : Ports W) (tasks : Tasks V) (w : W) (cs : List (Call W)) where
  abbrev manager : AlarmManager W
  manager = run ports (new w) cs

  seen :
      (id : String) (a : AlarmDto)
      → length cs < 2 ^ 64
      → get_alarm id manager ≡ some a
      → is_active a ≡ true
      → a.severity ≡ critical
      → has_critical_alarm manager ≡ true
  unfolding get_alarm
  seen id a small found on sev =
      run-has_critical_alarm ports w cs small
        (ground (arith, hit_le_active critical id a manager.alarms found, on, sev))

  faults :
      (s : Arbiter (AlarmManager W × V))
      → has_critical_alarm s.world.0 ≡ true
      → (tick (with_alarms tasks) s).current_mode ≡ ControlMode.fault
  unfolding with_alarms
  faults s h = tick-critical_alarm (with_alarms tasks) s h

  -- Whatever was called on the alarm manager, in fewer than 2^64 calls: while getAlarm shows an active
  -- critical alarm, each tick of the arbiter ends in FAULT, from every state of the arbiter.
  pub tick-get_alarm :
      (id : String) (a : AlarmDto) (s : Arbiter (AlarmManager W × V))
      → length cs < 2 ^ 64
      → get_alarm id manager ≡ some a
      → is_active a ≡ true
      → a.severity ≡ critical
      → s.world.0 ≡ manager
      → (tick (with_alarms tasks) s).current_mode ≡ ControlMode.fault
  tick-get_alarm id a s small found on sev same =
      faults s (ap has_critical_alarm same ∙ seen id a small found on sev)

  -- An active critical alarm that is acknowledged and then resolved with resolveAlarm still makes each
  -- tick of the arbiter end in FAULT, since an acknowledged alarm is not resolved.
  pub tick-acknowledge_alarm :
      (id by : String) (t now : ℕ) (a : AlarmDto) (s : Arbiter (AlarmManager W × V))
      → length cs < 2 ^ 64
      → get_alarm id manager ≡ some a
      → is_active a ≡ true
      → a.severity ≡ critical
      → s.world.0 ≡ (resolve_alarm ports id now (acknowledge_alarm id by t manager).1).1
      → (tick (with_alarms tasks) s).current_mode ≡ ControlMode.fault
  unfolding has_critical_alarm get_statistics
  tick-acknowledge_alarm id by t now a s small found on sev same =
      let kept = acknowledge-resolve ports id by t now manager a found on in
      faults s (
        ap has_critical_alarm (same ∙ ap (λ r. r.1) kept.1)
        ∙ (ap (λ stats. ltb 0 stats.critical_count) kept.2 ∙ seen id a small found on sev))
