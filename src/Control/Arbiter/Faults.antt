-- ===== src/Control/Arbiter/Faults.antt =====
-- Alarms, the FAULT mode and the MAINT mode.
use mxrc.Common.{◌≡◌, ◌≢◌, ◌⊎◌, inl, inr, true, false, none, some, [], arith, Option-cases}
use mxrc.Control.Mode.{ControlMode, is_valid_transition}
use mxrc.Control.Priority.{Priority}
use mxrc.Control.Request.{BehaviorRequest}
use mxrc.Control.Lanes
use mxrc.Control.BehaviorPriorityQueue
use mxrc.Control.BehaviorPriorityQueue.{BehaviorPriorityQueue}
use mxrc.Control.Objects.{Env}
use mxrc.Control.Arbiter.{
  Arbiter, clear_pending_behaviors, select_next_behavior, stop_current_task, start_task,
  transition_to, remove_timed_out_behaviors,
}
use mxrc.Control.Arbiter.Tick.{
  suspend, make_way, handle_preemption, check_critical_alarms, check_warning_alarms, start_next,
  finish_current, preempt_or_keep, decide, tick,
}

module _ {W : Type 0} (env : Env W) where
  enters_fault :
      (s : Arbiter W) → (transition_to env ControlMode.fault s).0.current_mode ≡ ControlMode.fault
  unfolding transition_to is_valid_transition
  enters_fault s = ground arith

  no_maint :
      (s : Arbiter W)
      → s.current_mode ≡ ControlMode.fault
      → (transition_to env ControlMode.maint s).0 ≡ s
  unfolding transition_to is_valid_transition
  no_maint s e = ground arith

  make_way_fault :
      (c : BehaviorRequest) (p : Priority) (s : Arbiter W)
      → s.current_mode ≡ ControlMode.fault
      → (make_way env c p s).current_mode ≡ ControlMode.fault
  unfolding make_way suspend stop_current_task
  make_way_fault c Priority.emergency_stop s e = enters_fault _
  make_way_fault c Priority.safety_issue s e = ground arith
  make_way_fault c Priority.urgent_task s e = ground arith
  make_way_fault c _ s e = e

  handle_preemption_fault :
      (r : BehaviorRequest) (s : Arbiter W)
      → s.current_mode ≡ ControlMode.fault
      → (handle_preemption env r s).current_mode ≡ ControlMode.fault
  unfolding handle_preemption start_task
  handle_preemption_fault r s e = elim (Option-cases s.current_behavior) [
    | inl n ↦ rw (n, handle_preemption) e
    | inr (c, n) ↦ rw (n, handle_preemption) (make_way_fault c r.priority _ e)
  ]

  start_next_fault : (s : Arbiter W) → (start_next env s).current_mode ≡ s.current_mode
  unfolding start_next select_next_behavior start_task
  start_next_fault s = ground arith

  finish_current_fault :
      (s : Arbiter W)
      → s.current_mode ≡ ControlMode.fault
      → (finish_current env s).current_mode ≡ ControlMode.fault
  unfolding finish_current
  finish_current_fault s e =
      let t = record s { current_behavior = none } in ground (arith, no_maint t, start_next_fault t)

  select_mode : (s : Arbiter W) → (select_next_behavior s).1.current_mode ≡ s.current_mode
  unfolding select_next_behavior
  select_mode s = ground arith

  preempt_or_keep_fault :
      (s : Arbiter W)
      → s.current_mode ≡ ControlMode.fault
      → (preempt_or_keep env s).current_mode ≡ ControlMode.fault
  unfolding preempt_or_keep
  preempt_or_keep_fault s e =
      let t = (select_next_behavior s).1 in
      elim (Option-cases (select_next_behavior s).0) [
        | inl n ↦ rw (n, preempt_or_keep) (ground (arith, select_mode s))
        | inr (r, n) ↦
            rw (n, preempt_or_keep) (ground (arith, select_mode s, handle_preemption_fault r t))
      ]

  decide_fault :
      (s : Arbiter W)
      → s.current_mode ≡ ControlMode.fault
      → (decide env s).current_mode ≡ ControlMode.fault
  unfolding decide
  decide_fault s e =
      ground (arith, start_next_fault s, finish_current_fault s, preempt_or_keep_fault s)

  check_critical_fault :
      (s : Arbiter W)
      → env.has_critical_alarm s.world ≡ true
      → (check_critical_alarms env s).current_mode ≡ ControlMode.fault
  unfolding check_critical_alarms
  check_critical_fault s h = ground (arith, enters_fault s)

  check_warning_fault :
      (s : Arbiter W) → s.current_mode ≡ ControlMode.fault → check_warning_alarms env s ≡ s
  unfolding check_warning_alarms
  check_warning_fault s e = ground arith

  -- While a critical alarm is active, every tick ends in FAULT, whatever mode and task it found.
  pub tick-critical_alarm :
      (s : Arbiter W)
      → env.has_critical_alarm s.world ≡ true
      → (tick env s).current_mode ≡ ControlMode.fault
  unfolding tick remove_timed_out_behaviors
  tick-critical_alarm s h =
      let a = check_critical_alarms env s in
      ground (arith, check_critical_fault s h, check_warning_fault a, decide_fault a)

  clears :
      (s : Arbiter W)
      → let t = (transition_to env ControlMode.fault s).0 in
        (t.pending_behaviors ≡ Lanes.empty)
        × (t.suspended_behaviors ≡ [])
        × (t.current_behavior ≡ s.current_behavior)
        × (t.paused ≡ s.paused)
  unfolding transition_to is_valid_transition clear_pending_behaviors stop_current_task
      BehaviorPriorityQueue.clear
  clears s = ground arith

  -- A tick's last part has nothing to start.
  abbrev Idles : Arbiter W → Arbiter W → Type 0
  Idles s t =
      (t.pending_behaviors ≡ Lanes.empty)
      × (t.suspended_behaviors ≡ s.suspended_behaviors)
      × ((t.current_behavior ≡ none) ⊎ (t.current_behavior ≡ s.current_behavior))

  select_empty :
      (s : Arbiter W) → s.pending_behaviors ≡ Lanes.empty → select_next_behavior s ≡ (none, s)
  unfolding select_next_behavior
  select_empty s e = ground (arith, BehaviorPriorityQueue.pop-empty)

  decide-Idles :
      (s : Arbiter W)
      → s.pending_behaviors ≡ Lanes.empty
      → s.current_mode ≡ ControlMode.fault
      → Idles s (decide env s)
  unfolding decide finish_current preempt_or_keep start_next
  decide-Idles s e f =
      let t = record s { current_behavior = none } in
      ground (arith, select_empty s e, select_empty t e, no_maint t f)

  -- The tick that enters FAULT on a critical alarm drops every waiting and every suspended request
  -- and starts none.
  pub tick-enters_fault :
      (s : Arbiter W)
      → env.has_critical_alarm s.world ≡ true
      → s.current_mode ≢ ControlMode.fault
      → let t = tick env s in
        (t.pending_behaviors ≡ Lanes.empty)
        × (t.suspended_behaviors ≡ [])
        × ((t.current_behavior ≡ none) ⊎ (t.current_behavior ≡ s.current_behavior))
  unfolding tick remove_timed_out_behaviors check_critical_alarms
  tick-enters_fault s h n =
      let a = (transition_to env ControlMode.fault s).0 in
      ground (arith, clears s, enters_fault s, check_warning_fault a, decide-Idles a)

  check_critical_again :
      (s : Arbiter W) → s.current_mode ≡ ControlMode.fault → check_critical_alarms env s ≡ s
  unfolding check_critical_alarms
  check_critical_again s e = ground arith

  -- In FAULT, with no running task and no pause, a tick starts the next request all the same, also
  -- under a critical alarm.
  pub tick-starts_in_fault :
      (s : Arbiter W) (r : BehaviorRequest) (q : BehaviorPriorityQueue)
      → s.current_mode ≡ ControlMode.fault
      → s.paused ≡ false
      → s.current_behavior ≡ none
      → BehaviorPriorityQueue.pop s.pending_behaviors ≡ some (r, q)
      → let t = tick env s in
        (t.current_mode ≡ ControlMode.fault)
        × (t.current_behavior ≡ some r)
        × (t.world ≡ env.task_start r.task s.world)
  unfolding tick remove_timed_out_behaviors decide start_next select_next_behavior start_task
  tick-starts_in_fault s r q m p c e =
      ground (arith, check_critical_again s m, check_warning_fault s m)
