-- ===== src/Alarm/Manager/Reachable.antt =====
-- Every sequence of calls of the alarm manager.
use mxrc.Common.{
  ℕ, ◌+◌, ◌^◌, ◌<◌, ◌≡◌, refl, subst, sym, inl, inr, String, true, Option, List, [], ◌∷◌, arith,
  length, lookup, insert, Option-cases, Bool-cases,
}
use mxrc.Alarm.Dto.{AlarmSeverity, AlarmDto, critical, warning, info, is_active, resolve}
use mxrc.Alarm.Config.{Configs, get_alarm_config}
use mxrc.Alarm.Manager.{
  AlarmManager, AlarmStats, Ports, new, check_recurrence, acknowledge_alarm, has_critical_alarm,
  count_resolved,
}
use mxrc.Alarm.Manager.Calls.{raise_alarm, resolve_alarm, reset_all_alarms, admit, close}
use mxrc.Alarm.Manager.Counts.{
  Fits, active_in, resolved_number, Fits-raised, Fits-resolved, Fits-acknowledged, Fits-reset,
}

-- Every operation of the manager, with the clock readings it makes, and a change of the objects
-- behind it by anybody else.
pub data Call (W : Type 0) : Type 0 where
  raises : Configs → String → String → Option String → ℕ → ℕ → Call W
  acknowledges : String → String → ℕ → Call W
  resolves : String → ℕ → Call W
  resets : (String → ℕ) → Call W
  elsewhere : W → Call W

abbrev FitsManager : {W : Type 0} → ℕ → AlarmManager W → Type 0
FitsManager n m = Fits n m.alarms m.stats

later : (n : ℕ) (l : List (String × AlarmDto)) (s : AlarmStats) → Fits n l s → Fits (n + 1) l s
later n l s f = record { each = f.each; sum = f.sum; total = f.total; few = omega (arith, f.few) }

resolve_severity : (t : ℕ) (a : AlarmDto) → (resolve t a).severity ≡ a.severity
unfolding resolve
resolve_severity t a = ground arith

module _ {W : Type 0} (ports : Ports W) where
  unfoldable pub step : AlarmManager W → Call W → AlarmManager W
  step m (raises configs code source details now created) =
      (raise_alarm ports configs code source details now created m).1
  step m (acknowledges id by now) = (acknowledge_alarm id by now m).1
  step m (resolves id now) = (resolve_alarm ports id now m).1
  step m (resets now) = (reset_all_alarms now m).1
  step m (elsewhere w) = record m { world = w }

  unfoldable pub run : AlarmManager W → List (Call W) → AlarmManager W
  run m [] = m
  run m (c ∷ cs) = run (step m c) cs

  raise_fits :
      (n : ℕ) (configs : Configs) (code source : String) (details : Option String) (now created : ℕ)
      (m : AlarmManager W)
      → n + 1 < 2 ^ 64
      → FitsManager n m
      → FitsManager (n + 1) (raise_alarm ports configs code source details now created m).1
  unfolding raise_alarm check_recurrence admit
  raise_fits n configs code source details now created m small f =
      elim (Option-cases (get_alarm_config code configs)) [
        | inl e ↦ rw (e, raise_alarm) (later n _ _ f)
        | inr (c, e) ↦ rw (e, raise_alarm) (Fits-raised n _ _ _ _ small f)
      ]

  resolve_fits :
      (n : ℕ) (id : String) (now : ℕ) (m : AlarmManager W)
      → n + 1 < 2 ^ 64
      → FitsManager n m
      → FitsManager (n + 1) (resolve_alarm ports id now m).1
  unfolding resolve_alarm close
  resolve_fits n id now m small f = elim (Option-cases (lookup id m.alarms)) [
    | inl e ↦ rw (e, resolve_alarm) (later n _ _ f)
    | inr (a, e) ↦ elim (Bool-cases (is_active a)) [
      | inl active ↦
          let fits = λ (sev : AlarmSeverity).
            Fits (n + 1) (insert id (resolve now a) m.alarms) (count_resolved sev m.stats) in
          rw (e, active, resolve_alarm)
            (subst fits (sym (resolve_severity now a))
              (Fits-resolved n id now a _ _ small e active f))
      | inr inactive ↦ rw (e, inactive, resolve_alarm) (later n _ _ f)
    ]
  ]

  acknowledge_fits :
      (n : ℕ) (id by : String) (now : ℕ) (m : AlarmManager W)
      → FitsManager n m
      → FitsManager (n + 1) (acknowledge_alarm id by now m).1
  unfolding acknowledge_alarm
  acknowledge_fits n id by now m f = elim (Option-cases (lookup id m.alarms)) [
    | inl e ↦ rw (e, acknowledge_alarm) (later n _ _ f)
    | inr (a, e) ↦ rw (e, acknowledge_alarm) (Fits-acknowledged n id by now a _ _ e f)
  ]

  reset_fits :
      (n : ℕ) (now : String → ℕ) (m : AlarmManager W)
      → n + 1 < 2 ^ 64
      → FitsManager n m
      → FitsManager (n + 1) (reset_all_alarms now m).1
  unfolding reset_all_alarms
  reset_fits n now m small f = Fits-reset n now m.alarms m.stats small f (
      omega
        (arith, resolved_number now m.alarms, f.sum, f.each critical, f.each warning, f.each info))

  step_fits :
      (n : ℕ) (m : AlarmManager W) (c : Call W)
      → n + 1 < 2 ^ 64
      → FitsManager n m
      → FitsManager (n + 1) (step m c)
  unfolding step
  step_fits n m (raises configs code source details now created) small f =
      raise_fits n configs code source details now created m small f
  step_fits n m (acknowledges id by now) small f = acknowledge_fits n id by now m f
  step_fits n m (resolves id now) small f = resolve_fits n id now m small f
  step_fits n m (resets now) small f = reset_fits n now m small f
  step_fits n m (elsewhere w) small f = later n _ _ f

  run_fits :
      (n : ℕ) (m : AlarmManager W) (cs : List (Call W))
      → n + length cs < 2 ^ 64
      → FitsManager n m
      → FitsManager (n + length cs) (run m cs)
  unfolding run
  run_fits n m [] small f = subst (λ k. FitsManager k m) (omega arith) f
  run_fits n m (c ∷ cs) small f =
      subst (λ k. FitsManager k (run (step m c) cs)) (omega arith)
        (run_fits (n + 1) (step m c) cs (omega (arith, small))
          (step_fits n m c (omega (arith, small)) f))

  new_fits : (w : W) → FitsManager 0 (new w)
  unfolding new
  new_fits w = record {
    each = λ sev. ground arith;
    sum = refl;
    total = omega arith;
    few = omega arith;
  }

  -- After fewer than 2^64 calls on a new manager, no counter has wrapped around: for each severity the
  -- counter is at least the number of active alarms of it, the three add up to the active count, the
  -- active and resolved counts are at most the number of alarms raised, and that is at most the number
  -- of calls.
  pub run-Fits :
      (w : W) (cs : List (Call W))
      → length cs < 2 ^ 64
      → Fits (length cs) (run (new w) cs).alarms (run (new w) cs).stats
  run-Fits w cs small =
      subst (λ k. Fits k (run (new w) cs).alarms (run (new w) cs).stats) (omega arith)
        (run_fits 0 (new w) cs (omega (arith, small)) (new_fits w))

  -- While an active critical alarm is in the map, hasCriticalAlarm answers true, whatever was called
  -- before.
  pub run-has_critical_alarm :
      (w : W) (cs : List (Call W))
      → length cs < 2 ^ 64
      → 0 < active_in critical (run (new w) cs).alarms
      → has_critical_alarm (run (new w) cs) ≡ true
  unfolding has_critical_alarm
  run-has_critical_alarm w cs small h = ground (arith, (run-Fits w cs small).each critical)
