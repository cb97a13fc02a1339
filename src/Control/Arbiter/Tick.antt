-- ===== src/Control/Arbiter/Tick.antt =====
-- src/core/control/impl/BehaviorArbiter.cpp: the decision of each period, preemption, cancelling,
-- pausing and resuming.
use mxrc.Common.{
  String, Bool, true, false, none, some, leb, str_eq, if◌then◌else◌, ◌&&◌, not, lookup, insert,
  erase, u64_inc,
}
use mxrc.Control.Mode.{ControlMode}
use mxrc.Control.Priority.{Priority, rank}
use mxrc.Control.Request.{BehaviorRequest}
use mxrc.Control.Arbiter.{
  Arbiter, cancel, pause, is_fault, is_maint, select_next_behavior, should_preempt,
  remove_timed_out_behaviors, stop_current_task, start_task, transition_to,
}
use mxrc.Control.Objects.{Env, is_finished}

module _ {W : Type 0} (env : Env W) where
  -- `suspended_behaviors_[id] = current; current_behavior_.reset()`
  unfoldable pub suspend : BehaviorRequest → Arbiter W → Arbiter W
  suspend c s =
      let t = stop_current_task env pause s in
      record t {
        suspended_behaviors = insert c.behavior_id c t.suspended_behaviors;
        current_behavior = none;
      }

  unfoldable pub make_way : BehaviorRequest → Priority → Arbiter W → Arbiter W
  make_way c Priority.emergency_stop s =
      let t = stop_current_task env cancel s in
      (transition_to env ControlMode.fault (record t { current_behavior = none })).0
  make_way c Priority.safety_issue s = suspend c s
  make_way c Priority.urgent_task s =
      if leb (rank Priority.normal_task) (rank c.priority) then suspend c s else s
  make_way c Priority.normal_task s = s
  make_way c Priority.maintenance s = s

  unfoldable pub handle_preemption : BehaviorRequest → Arbiter W → Arbiter W
  handle_preemption r s = elim s.current_behavior [
    | none ↦ s
    | some c ↦
        let t = record s { stats = record s.stats { preemptions = u64_inc s.stats.preemptions } } in
        start_task env r (make_way c r.priority t)
  ]

  unfoldable pub check_critical_alarms : Arbiter W → Arbiter W
  check_critical_alarms s =
      if env.has_critical_alarm s.world
      then (if is_fault s.current_mode then s else (transition_to env ControlMode.fault s).0)
      else s

  unfoldable pub check_warning_alarms : Arbiter W → Arbiter W
  check_warning_alarms s =
      if env.has_warning_alarm s.world
      then (if not (is_maint s.current_mode)
            && not (is_fault s.current_mode)
            && not s.pending_safe_mode
          then elim s.current_behavior [
            | some c ↦ record s { pending_safe_mode = true }
            | none ↦ (transition_to env ControlMode.maint s).0
          ]
          else s)
      else s

  unfoldable pub start_next : Arbiter W → Arbiter W
  start_next s =
      let (next, t) = select_next_behavior s in elim next [ none ↦ t | some r ↦ start_task env r t ]

  -- The running task has ended.
  unfoldable pub finish_current : Arbiter W → Arbiter W
  finish_current s =
      let t = record s { current_behavior = none } in
      if t.pending_safe_mode
      then record (transition_to env ControlMode.maint t).0 { pending_safe_mode = false }
      else start_next t

  -- The running task goes on, unless the next request preempts it.
  unfoldable pub preempt_or_keep : Arbiter W → Arbiter W
  preempt_or_keep s =
      let (next, t) = select_next_behavior s in
      elim next [ none ↦ t | some r ↦ if should_preempt r t then handle_preemption r t else t ]

  unfoldable pub decide : Arbiter W → Arbiter W
  decide s = elim s.current_behavior [
    | none ↦ start_next s
    | some c ↦
        if is_finished (env.task_status c.task s.world) then finish_current s else preempt_or_keep s
  ]

  unfoldable pub tick : Arbiter W → Arbiter W
  tick s =
      let t = check_warning_alarms (check_critical_alarms s) in
      if t.paused then t else decide (remove_timed_out_behaviors t)

  unfoldable pub cancel_behavior : String → Arbiter W → Arbiter W × Bool
  cancel_behavior id s = elim s.current_behavior [
    | some c ↦
        if str_eq c.behavior_id id
        then (if c.cancellable
            then (record (stop_current_task env cancel s) { current_behavior = none }, true)
            else (s, false))
        else cancel_suspended
    | none ↦ cancel_suspended
  ]
    where
      cancel_suspended : Arbiter W × Bool
      cancel_suspended = elim (lookup id s.suspended_behaviors) [
        | some c ↦ (record s { suspended_behaviors = erase id s.suspended_behaviors }, true)
        | none ↦ (s, false)
      ]

  unfoldable pub pause_all : Arbiter W → Arbiter W × Bool
  pause_all s =
      if s.paused
      then (s, false)
      else (stop_current_task env pause (record s { paused = true }), true)

  unfoldable pub resume_all : Arbiter W → Arbiter W × Bool
  resume_all s =
      if s.paused
      then (
        elim s.current_behavior [
          | none ↦ record s { paused = false }
          | some c ↦ record s { paused = false; world = env.task_resume c.task s.world }
        ],
        true,
      )
      else (s, false)
