-- ===== src/Alarm/Manager/Raising.antt =====
-- What raising, acknowledging and resolving an alarm do to the manager and the objects behind it.
use mxrc.Common.{
  ℕ, ◌≤◌, ◌≡◌, refl, subst, sym, String, true, Option, some, arith, if◌then◌else◌, leb,
  lookup-inserted,
}
use mxrc.Alarm.Dto.{
  AlarmSeverity, AlarmDto, is_active, set_recurrence_count, new_alarm, set_details, severity_rank,
}
use mxrc.Alarm.Config.{Configs, AlarmConfig, get_alarm_config, should_escalate_severity, escalated}
use mxrc.Alarm.Manager.{
  AlarmManager, AlarmEvent, Ports, check_recurrence, next_recurrence, get_alarm,
}
use mxrc.Alarm.Manager.Calls.{
  raise_alarm, admit, made_alarm, announce, store_to_data_store, publish_event, with_details,
}

with_details_severity :
    (d : Option String) (a : AlarmDto) → (with_details d a).severity ≡ a.severity
unfolding set_details
with_details_severity d a = ground arith

escalated_rank : (s : AlarmSeverity) → severity_rank (escalated s) ≤ severity_rank s
escalated_rank s = ground arith

module _ {W : Type 0} (ports : Ports W) (configs : Configs) (code source : String)
    (details : Option String) (now created : ℕ) (m : AlarmManager W) where
  abbrev pub recurrence : ℕ
  recurrence = next_recurrence code now configs m.last_occurrence m.recurrence_count

  abbrev pub severity : AlarmConfig → AlarmSeverity
  severity c = if leb c.recurrence_threshold recurrence then escalated c.severity else c.severity

  escalation :
      (c : AlarmConfig)
      → get_alarm_config code configs ≡ some c
      → should_escalate_severity code recurrence configs ≡ severity c
  unfolding should_escalate_severity
  escalation c e = ground (arith, e)

  pub made_severity :
      (c : AlarmConfig) (sev : AlarmSeverity) (n : ℕ)
      → (made_alarm code c sev source details n created).severity ≡ sev
  unfolding made_alarm set_recurrence_count new_alarm
  made_severity c sev n = with_details_severity details _

  -- The escalated alarm is never less severe, and never has the larger enumerator.
  severity_le : (c : AlarmConfig) → severity_rank (severity c) ≤ severity_rank c.severity
  severity_le c = ground (arith, escalated_rank c.severity)

  announce_raised :
      (a : AlarmDto) (base : AlarmSeverity) (n : ℕ) (w : W)
      → severity_rank a.severity ≤ severity_rank base
      → announce ports a base n w ≡ publish_event ports (AlarmEvent.raised a) w
  unfolding announce
  announce_raised a base n w h = ground arith

  abbrev pub result : Option AlarmDto × AlarmManager W
  result = raise_alarm ports configs code source details now created m

  pub raise_eq :
      (c : AlarmConfig)
      → get_alarm_config code configs ≡ some c
      → let a = made_alarm code c (severity c) source details recurrence created in
        result
        ≡ (some a, admit ports a c.severity recurrence (check_recurrence configs code now m).1)
  unfolding raise_alarm check_recurrence
  raise_eq c e = rw (e, raise_alarm, escalation c e) refl

  -- For a configured code, the objects behind the manager see the write of the new alarm and then an
  -- AlarmRaised event, also where the recurrence has raised the severity: no call of raiseAlarm
  -- publishes AlarmEscalated.
  pub raise-publishes_raised :
      (c : AlarmConfig)
      → get_alarm_config code configs ≡ some c
      → let a = made_alarm code c (severity c) source details recurrence created in
        result.1.world
        ≡ publish_event ports
            (AlarmEvent.raised a)
            (store_to_data_store ports a result.1.stats.active_count m.world)
  unfolding check_recurrence admit
  raise-publishes_raised c e =
      let a = made_alarm code c (severity c) source details recurrence created in
      let le =
        subst (λ s. severity_rank s ≤ severity_rank c.severity)
          (sym (made_severity c (severity c) recurrence)) (severity_le c) in
      rw (raise_eq c e, announce_raised a c.severity recurrence _ le) refl

  -- An alarm of a configured code is returned and is the one that getAlarm then finds. It is active,
  -- carries the recurrence count of this occurrence, and has the severity of the configuration, or the
  -- next higher one if the count has reached the threshold.
  pub raise-get_alarm :
      (c : AlarmConfig)
      → get_alarm_config code configs ≡ some c
      → (a : AlarmDto) × (result.0 ≡ some a)
        × (get_alarm a.alarm_id result.1 ≡ some a)
        × (is_active a ≡ true)
        × (a.recurrence_count ≡ recurrence)
        × (a.severity ≡ severity c)
  unfolding check_recurrence admit get_alarm made_alarm set_recurrence_count new_alarm set_details
      is_active
  raise-get_alarm c e =
      let a = made_alarm code c (severity c) source details recurrence created in
      (
        a,
        rw (raise_eq c e) refl,
        rw (raise_eq c e) (lookup-inserted a.alarm_id a m.alarms),
        ground arith,
        refl,
        made_severity c (severity c) recurrence,
      )
