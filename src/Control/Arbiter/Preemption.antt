-- ===== src/Control/Arbiter/Preemption.antt =====
-- What a tick does with the request that it takes off the queue while a task is running.
use mxrc.Common.{
  ◌≡◌, ◌⊎◌, ◌≤◌, ◌<◌, true, false, some, [], arith, if◌then◌else◌, lookup, lookup-insert, eq_refl,
  u64_inc,
}
use mxrc.Control.Mode.{ControlMode, is_valid_transition}
use mxrc.Control.Priority.{Priority, rank, can_preempt}
use mxrc.Control.Request.{BehaviorRequest}
use mxrc.Control.Lanes
use mxrc.Control.BehaviorPriorityQueue
use mxrc.Control.BehaviorPriorityQueue.{BehaviorPriorityQueue}
use mxrc.Control.Objects.{Env, is_finished}
use mxrc.Control.Arbiter.{
  Arbiter, select_next_behavior, should_preempt, stop_current_task, start_task, transition_to,
  record_transition, clear_pending_behaviors, remove_timed_out_behaviors,
}
use mxrc.Control.Arbiter.Tick.{
  suspend, make_way, handle_preemption, check_critical_alarms, check_warning_alarms,
  preempt_or_keep, decide, tick,
}

-- A tick in the middle of a task, with no alarm: `c` is running, and `r` is the next request.
pub record IsBusy {W : Type 0} (env : Env W) (s : Arbiter W) (c r : BehaviorRequest)
    (q : BehaviorPriorityQueue) : Type 0 where
  pub no_critical : env.has_critical_alarm s.world ≡ false
  pub no_warning : env.has_warning_alarm s.world ≡ false
  pub not_paused : s.paused ≡ false
  pub current : s.current_behavior ≡ some c
  pub unfinished : is_finished (env.task_status c.task s.world) ≡ false
  pub next : BehaviorPriorityQueue.pop s.pending_behaviors ≡ some (r, q)

module _ {W : Type 0} (env : Env W) (s : Arbiter W) (c r : BehaviorRequest)
    (q : BehaviorPriorityQueue) where
  abbrev taken : Arbiter W
  taken = record s { pending_behaviors = q }

  busy_tick :
      IsBusy env s c r q
      → tick env s ≡ (if should_preempt r taken then handle_preemption env r taken else taken)
  unfolding tick check_critical_alarms check_warning_alarms remove_timed_out_behaviors decide
      preempt_or_keep select_next_behavior
  busy_tick b =
      ground (arith, b.no_critical, b.no_warning, b.not_paused, b.current, b.unfinished, b.next)

  keeps :
      s.current_behavior ≡ some c
      → (rank c.priority ≤ rank r.priority) ⊎ (2 < rank r.priority)
      → should_preempt r taken ≡ false
  unfolding should_preempt can_preempt
  keeps e h = ground arith

  preempts :
      s.current_behavior ≡ some c
      → rank r.priority < rank c.priority
      → rank r.priority ≤ 2
      → should_preempt r taken ≡ true
  unfolding should_preempt can_preempt
  preempts e h k = ground arith

  -- In a tick in the middle of a task, with no alarm and no pause, a next request that is not more
  -- urgent, or is of normal priority or below, is taken off the queue all the same, and is lost: the
  -- tick changes nothing but the queue.
  pub tick-loses_request :
      IsBusy env s c r q
      → (rank c.priority ≤ rank r.priority) ⊎ (2 < rank r.priority)
      → tick env s ≡ record s { pending_behaviors = q }
  tick-loses_request b h = ground (arith, busy_tick b, keeps b.current h)

  -- In a tick in the middle of a task that is no emergency stop itself, with no alarm and no pause, an
  -- emergency stop that is next cancels the task, enters FAULT, drops all other requests, and is
  -- started.
  pub tick-emergency :
      IsBusy env s c r q
      → r.priority ≡ Priority.emergency_stop
      → 0 < rank c.priority
      → let t = tick env s in
        (t.current_mode ≡ ControlMode.fault)
        × (t.current_behavior ≡ some r)
        × (t.pending_behaviors ≡ Lanes.empty)
        × (t.suspended_behaviors ≡ [])
        × (t.world
            ≡ env.task_start r.task (
                record_transition env s.current_mode ControlMode.fault
                  (u64_inc s.stats.mode_transitions)
                  (env.task_stop c.task s.world)))
  unfolding handle_preemption make_way start_task stop_current_task transition_to
      is_valid_transition clear_pending_behaviors BehaviorPriorityQueue.clear
  tick-emergency b p h = ground (arith, b.current, busy_tick b, preempts b.current)

  -- In a tick in the middle of a task, with no alarm and no pause, a safety issue or an urgent task that
  -- is next pauses and suspends a less urgent task, and is started; the mode and the other requests
  -- stay.
  pub tick-suspends :
      IsBusy env s c r q
      → (r.priority ≡ Priority.safety_issue) ⊎ (r.priority ≡ Priority.urgent_task)
      → rank r.priority < rank c.priority
      → let t = tick env s in
        (t.current_mode ≡ s.current_mode)
        × (t.current_behavior ≡ some r)
        × (t.pending_behaviors ≡ q)
        × (lookup c.behavior_id t.suspended_behaviors ≡ some c)
        × (t.world ≡ env.task_start r.task (env.task_pause c.task s.world))
  unfolding handle_preemption make_way suspend start_task stop_current_task
  tick-suspends b p h = ground (
    arith,
    b.current,
    busy_tick b,
    preempts b.current,
    lookup-insert c.behavior_id c.behavior_id c s.suspended_behaviors,
    eq_refl c.behavior_id,
  )
