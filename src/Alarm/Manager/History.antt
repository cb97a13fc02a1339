-- ===== src/Alarm/Manager/History.antt =====
-- The alarm history of the manager, and its bound.
use mxrc.Common.{
  ◌≤◌, ◌≡◌, List, [], ◌∷◌, ◌++◌, arith, length, tail, length-append, ◌+◌, ◌<◌, lookup, Option-cases,
  Bool-cases, inl, inr,
}
use mxrc.Alarm.Dto.{AlarmDto, is_active}
use mxrc.Alarm.Config.{get_alarm_config}
use mxrc.Alarm.Manager.{
  AlarmManager, Ports, new, check_recurrence, acknowledge_alarm, max_history_size, add_history,
}
use mxrc.Alarm.Manager.Calls.{raise_alarm, resolve_alarm, reset_all_alarms, admit, close}
use mxrc.Alarm.Manager.Reachable.{
  Call, raises, acknowledges, resolves, resets, elsewhere, step, run,
}

length-tail : (l : List AlarmDto) → 0 < length l → length (tail l) + 1 ≡ length l
length-tail [] h = omega (arith, h)
length-tail (a ∷ l) h = omega arith

length-add_history :
    (a : AlarmDto) (h : List AlarmDto)
    → length h ≤ max_history_size
    → length (add_history a h) ≤ max_history_size
unfolding add_history
length-add_history a h small = ground (arith, length-append h (a ∷ []), length-tail (h ++ a ∷ []))

module _ {W : Type 0} (ports : Ports W) where
  step_history :
      (m : AlarmManager W) (c : Call W)
      → length m.alarm_history ≤ max_history_size
      → length (step ports m c).alarm_history ≤ max_history_size
  unfolding step raise_alarm resolve_alarm reset_all_alarms acknowledge_alarm admit close
      check_recurrence
  step_history m (raises configs code source details now created) h =
      elim (Option-cases (get_alarm_config code configs)) [
        | inl e ↦ rw (step, length, e, raise_alarm) h
        | inr (c, e) ↦ rw (step, length, e, raise_alarm) (length-add_history _ _ h)
      ]
  step_history m (acknowledges id by now) h = ground (arith, h)
  step_history m (resolves id now) h = elim (Option-cases (lookup id m.alarms)) [
    | inl e ↦ rw (step, length, e, resolve_alarm) h
    | inr (a, e) ↦ elim (Bool-cases (is_active a)) [
      | inl p ↦ rw (step, length, e, p, resolve_alarm) (length-add_history _ _ h)
      | inr p ↦ rw (step, length, e, p, resolve_alarm) h
    ]
  ]
  step_history m (resets now) h = h
  step_history m (elsewhere w) h = h

  run_history :
      (m : AlarmManager W) (cs : List (Call W))
      → length m.alarm_history ≤ max_history_size
      → length (run ports m cs).alarm_history ≤ max_history_size
  unfolding run
  run_history m [] h = h
  run_history m (c ∷ cs) h = run_history (step ports m c) cs (step_history m c h)

  -- Whatever is called on a new manager, its history never has more than 1000 entries.
  pub length-run : (w : W) (cs : List (Call W)) → length (run ports (new w) cs).alarm_history ≤ 1000
  unfolding new
  length-run w cs = run_history (new w) cs (omega arith)
