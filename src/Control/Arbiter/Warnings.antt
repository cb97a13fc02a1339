-- ===== src/Control/Arbiter/Warnings.antt =====
-- Which modes one tick can lead to: what a warning alarm does.
use mxrc.Common.{◌≡◌, refl, ◌⊎◌, inl, inr, none, arith, Option-cases}
use mxrc.Control.Mode.{ControlMode, is_valid_transition}
use mxrc.Control.Priority.{Priority}
use mxrc.Control.Request.{BehaviorRequest}
use mxrc.Control.Objects.{Env}
use mxrc.Control.Arbiter.{
  Arbiter, StopMethod, select_next_behavior, stop_current_task, start_task, transition_to,
  remove_timed_out_behaviors,
}
use mxrc.Control.Arbiter.Tick.{
  suspend, make_way, handle_preemption, check_critical_alarms, check_warning_alarms, start_next,
  finish_current, preempt_or_keep, decide, tick,
}

-- The mode stays, becomes FAULT, or goes from STANDBY to MAINT.
abbrev pub Outcome : ControlMode → ControlMode → Type 0
Outcome m n =
    (n ≡ m) ⊎ ((n ≡ ControlMode.fault) ⊎ ((m ≡ ControlMode.standby) × (n ≡ ControlMode.maint)))

Outcome-trans : (m k n : ControlMode) → Outcome m k → Outcome k n → Outcome m n
Outcome-trans m k n a b = ground arith

module _ {W : Type 0} (env : Env W) where
  abbrev Ends : Arbiter W → Arbiter W → Type 0
  Ends s t = Outcome s.current_mode t.current_mode

  to_maint : (s : Arbiter W) → Ends s (transition_to env ControlMode.maint s).0
  unfolding transition_to is_valid_transition
  to_maint s = ground arith

  to_fault : (s : Arbiter W) → Ends s (transition_to env ControlMode.fault s).0
  unfolding transition_to is_valid_transition
  to_fault s = ground arith

  make_way-Ends : (c : BehaviorRequest) (p : Priority) (s : Arbiter W) → Ends s (make_way env c p s)
  unfolding make_way suspend stop_current_task
  make_way-Ends c Priority.emergency_stop s = ground (
    arith,
    to_fault (record (stop_current_task env StopMethod.cancel s) { current_behavior = none }),
  )
  make_way-Ends c Priority.safety_issue s = ground arith
  make_way-Ends c Priority.urgent_task s = ground arith
  make_way-Ends c _ s = inl refl

  handle_preemption-Ends :
      (r : BehaviorRequest) (s : Arbiter W) → Ends s (handle_preemption env r s)
  unfolding handle_preemption start_task
  handle_preemption-Ends r s = elim (Option-cases s.current_behavior) [
    | inl n ↦ rw (n, handle_preemption) (inl refl)
    | inr (c, n) ↦ rw (n, handle_preemption) (make_way-Ends c r.priority _)
  ]

  start_next_mode : (s : Arbiter W) → (start_next env s).current_mode ≡ s.current_mode
  unfolding start_next select_next_behavior start_task
  start_next_mode s = ground arith

  select_mode : (s : Arbiter W) → (select_next_behavior s).1.current_mode ≡ s.current_mode
  unfolding select_next_behavior
  select_mode s = ground arith

  finish_current-Ends : (s : Arbiter W) → Ends s (finish_current env s)
  unfolding finish_current
  finish_current-Ends s =
      let t = record s { current_behavior = none } in ground (arith, to_maint t, start_next_mode t)

  preempt_or_keep-Ends : (s : Arbiter W) → Ends s (preempt_or_keep env s)
  unfolding preempt_or_keep
  preempt_or_keep-Ends s =
      let t = (select_next_behavior s).1 in
      elim (Option-cases (select_next_behavior s).0) [
        | inl n ↦ rw (n, preempt_or_keep) (inl (select_mode s))
        | inr (r, n) ↦
            rw (n, preempt_or_keep) (ground (arith, select_mode s, handle_preemption-Ends r t))
      ]

  decide-Ends : (s : Arbiter W) → Ends s (decide env s)
  unfolding decide
  decide-Ends s = ground (arith, start_next_mode s, finish_current-Ends s, preempt_or_keep-Ends s)

  check_critical-Ends : (s : Arbiter W) → Ends s (check_critical_alarms env s)
  unfolding check_critical_alarms
  check_critical-Ends s = ground (arith, to_fault s)

  check_warning-Ends : (s : Arbiter W) → Ends s (check_warning_alarms env s)
  unfolding check_warning_alarms
  check_warning-Ends s = ground (arith, to_maint s)

  -- A tick leaves the mode, enters FAULT, or goes from STANDBY to MAINT: from every other mode, AUTO
  -- included, a warning alarm does not lead to MAINT.
  pub tick-Outcome : (s : Arbiter W) → Outcome s.current_mode (tick env s).current_mode
  unfolding tick remove_timed_out_behaviors
  tick-Outcome s =
      let a = check_critical_alarms env s in
      let b = check_warning_alarms env a in
      let first = Outcome-trans _ _ b.current_mode (check_critical-Ends s) (check_warning-Ends a) in
      ground (arith, first, Outcome-trans _ _ (decide env b).current_mode first (decide-Ends b))
