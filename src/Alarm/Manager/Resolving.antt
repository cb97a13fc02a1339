-- ===== src/Alarm/Manager/Resolving.antt =====
-- An alarm after it was raised: again, acknowledged, and resolved.
use mxrc.Common.{
  ℕ, ◌+◌, ◌-◌, ◌/◌, ◌^◌, ◌<◌, ◌≡◌, refl, sym, ap, String, true, false, Option, some, List, ◌∙◌,
  arith, lookup, insert, if◌then◌else◌, leb, lookup-inserted, u32_inc,
}
use mxrc.Alarm.Dto.{AlarmSeverity, AlarmDto, is_active, resolve, acknowledge}
use mxrc.Alarm.Config.{Configs, AlarmConfig, get_alarm_config}
use mxrc.Alarm.Manager.{
  AlarmManager, AlarmStats, Ports, check_recurrence, next_recurrence, acknowledge_alarm,
  get_statistics, get_alarm, count_raised, count_resolved,
}
use mxrc.Alarm.Manager.Calls.{raise_alarm, resolve_alarm, admit, close}
use mxrc.Alarm.Manager.Counts.{Fits}
use mxrc.Alarm.Manager.Raising.{raise_eq, raise-get_alarm, made_severity}

next_recurrence-insert :
    (configs : Configs) (code : String) (c : AlarmConfig) (last counts : List (String × ℕ))
    (n now later : ℕ)
    → get_alarm_config code configs ≡ some c
    → next_recurrence code later configs (insert code now last) (insert code n counts)
      ≡ (if leb ((later - now) / 1000000000) c.recurrence_window then u32_inc n else 1)
unfolding next_recurrence
next_recurrence-insert configs code c last counts n now later e =
    rw (next_recurrence, lookup-inserted code now last, e, lookup-inserted code n counts) refl

module _ {W : Type 0} (ports : Ports W) where
  -- A code that is raised again counts one more when the whole seconds since then are within the
  -- recurrence window of its configuration, and starts again at 1 otherwise.
  pub raise-raise :
      (configs : Configs) (code : String) (c : AlarmConfig) (m : AlarmManager W)
      (first again : String) (d e : Option String) (now created later recreated : ℕ)
      → get_alarm_config code configs ≡ some c
      → let one = raise_alarm ports configs code first d now created m in
        let two = raise_alarm ports configs code again e later recreated one.1 in
        (a b : AlarmDto) × (one.0 ≡ some a)
        × (two.0 ≡ some b)
        × (b.recurrence_count ≡ (
            if leb ((later - now) / 1000000000) c.recurrence_window
            then u32_inc a.recurrence_count
            else 1))
  unfolding check_recurrence admit
  raise-raise configs code c m first again d e now created later recreated h =
      let one = raise_alarm ports configs code first d now created m in
      let x = raise-get_alarm ports configs code first d now created m c h in
      let y = raise-get_alarm ports configs code again e later recreated one.1 c h in
      let eq = raise_eq ports configs code first d now created m c h in
      let last : one.1.last_occurrence ≡ insert code now m.last_occurrence = rw eq refl in
      let counts : one.1.recurrence_count ≡ insert code x.0.recurrence_count m.recurrence_count =
        rw (eq, x.4) refl in
      let counted : next_recurrence code later configs one.1.last_occurrence one.1.recurrence_count
          ≡ (if leb ((later - now) / 1000000000) c.recurrence_window
              then u32_inc x.0.recurrence_count
              else 1) =
        rw (last, counts)
          (next_recurrence-insert configs code c m.last_occurrence m.recurrence_count
            x.0.recurrence_count now later h) in
      (x.0, y.0, x.1, y.1, y.4 ∙ counted)

  resolve_inactive :
      (id : String) (now : ℕ) (m : AlarmManager W) (a : AlarmDto)
      → lookup id m.alarms ≡ some a
      → is_active a ≡ false
      → resolve_alarm ports id now m ≡ (false, m)
  unfolding resolve_alarm
  resolve_inactive id now m a found h = rw (resolve_alarm, found, h) refl

  resolve_active :
      (id : String) (now : ℕ) (m : AlarmManager W) (a : AlarmDto)
      → lookup id m.alarms ≡ some a
      → is_active a ≡ true
      → resolve_alarm ports id now m ≡ (true, close ports id (resolve now a) m)
  unfolding resolve_alarm
  resolve_active id now m a found h = rw (resolve_alarm, found, h) refl

  -- An active alarm that has been acknowledged can no longer be resolved: resolveAlarm answers false
  -- and changes nothing, so the alarm stays in the counts.
  pub acknowledge-resolve :
      (id by : String) (t now : ℕ) (m : AlarmManager W) (a : AlarmDto)
      → get_alarm id m ≡ some a
      → is_active a ≡ true
      → let n = (acknowledge_alarm id by t m).1 in
        (get_alarm id n ≡ some (acknowledge by t a))
        × (resolve_alarm ports id now n ≡ (false, n))
        × (get_statistics n ≡ get_statistics m)
  unfolding get_alarm acknowledge_alarm get_statistics
  acknowledge-resolve id by t now m a found h =
      let b = acknowledge by t a in
      let held = lookup-inserted id b m.alarms in
      let done : is_active b ≡ false = unfold acknowledge is_active in ground (arith, h) in
      (
        rw (acknowledge_alarm, found) held,
        rw (acknowledge_alarm, found)
            (resolve_inactive id now (record m { alarms = insert id b m.alarms }) b held done),
        rw (acknowledge_alarm, found) refl,
      )

count_resolved-count_raised :
    (sev : AlarmSeverity) (s : AlarmStats) (n : ℕ) (l : List (String × AlarmDto))
    → n + 1 < 2 ^ 64
    → Fits n l s
    → count_resolved sev (count_raised sev s)
      ≡ record s { total_raised = s.total_raised + 1; resolved_count = s.resolved_count + 1 }
unfolding count_resolved count_raised
count_resolved-count_raised sev s n l small f = ground (arith, f.sum, f.total, f.few)

resolve_severity : (t : ℕ) (a : AlarmDto) → (resolve t a).severity ≡ a.severity
unfolding resolve
resolve_severity t a = ground arith

-- Raising an alarm of a configured code and resolving it leaves every counter as it was, but for the
-- numbers of alarms raised and resolved, which are one more, while these fit a 64-bit counter.
pub raise-resolve :
    {W : Type 0} (ports : Ports W) (configs : Configs) (code source : String)
    (details : Option String) (now created t n : ℕ) (m : AlarmManager W) (c : AlarmConfig)
    → get_alarm_config code configs ≡ some c
    → n + 1 < 2 ^ 64
    → Fits n m.alarms m.stats
    → let raised = raise_alarm ports configs code source details now created m in
      (a : AlarmDto) × (raised.0 ≡ some a)
      × (let closed = resolve_alarm ports a.alarm_id t raised.1 in
          (closed.0 ≡ true)
          × (get_statistics closed.1 ≡ record m.stats {
            total_raised = m.stats.total_raised + 1;
            resolved_count = m.stats.resolved_count + 1;
          }))
unfolding get_alarm get_statistics close admit check_recurrence
raise-resolve ports configs code source details now created t n m c h small f =
    let raised = raise_alarm ports configs code source details now created m in
    let x = raise-get_alarm ports configs code source details now created m c h in
    let eq = resolve_active ports x.0.alarm_id t raised.1 x.0 x.2 x.3 in
    let stats : raised.1.stats ≡ count_raised x.0.severity m.stats =
      rw (raise_eq ports configs code source details now created m c h) (
        ap (λ v. count_raised v m.stats)
          (made_severity ports configs code source details now created m c _ _ ∙ sym x.5)) in
    (
      x.0,
      x.1,
      (
        rw eq refl,
        rw (eq, resolve_severity t x.0, stats)
            (count_resolved-count_raised x.0.severity m.stats n m.alarms small f),
      ),
    )
