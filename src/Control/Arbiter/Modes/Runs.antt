-- ===== src/Control/Arbiter/Modes/Runs.antt =====
-- src/core/control/impl/BehaviorArbiter.cpp: the history of the modes over every sequence of calls.
use mxrc.Common.{
  ◌≡◌, refl, inl, inr, String, true, none, List, [], ◌∷◌, arith, Bool-cases, Option-cases, leb,
  u64_inc,
}
use mxrc.Control.Mode.{ControlMode}
use mxrc.Control.Priority.{Priority, rank}
use mxrc.Control.Request.{BehaviorRequest}
use mxrc.Control.Objects.{Env, StoreValue, StoreType}
use mxrc.Control.Objects.Observed.{Observed, observed}
use mxrc.Control.Arbiter.{
  Arbiter, StopMethod, new, request_behavior, clear_pending_behaviors, select_next_behavior,
  stop_current_task, start_task, remove_timed_out_behaviors,
}
use mxrc.Control.Arbiter.Tick.{
  suspend, make_way, handle_preemption, check_critical_alarms, check_warning_alarms, start_next,
  finish_current, preempt_or_keep, decide, tick, cancel_behavior, pause_all, resume_all,
}
use mxrc.Control.Arbiter.Modes.{
  Call, requests, ticks, clears, pauses, resumes, transitions, cancels, elsewhere, observe, step,
  run, IsHistory, Follows, Keeps, Keeps-Follows, stop-Keeps, transition_to-Follows,
}

module _ {W : Type 0} (env : Env W) (stored : env.data_store ≡ true)
    (accepts : (key : String) (value : StoreValue) (type : StoreType) (w : W)
      → (env.store_set key value type w).1 ≡ true) where
  suspend-Keeps :
      (c : BehaviorRequest) (s : Arbiter (Observed W)) → Keeps s (suspend (observed env) c s)
  unfolding suspend
  suspend-Keeps c s = stop-Keeps env StopMethod.pause s

  make_way-Follows :
      (c : BehaviorRequest) (p : Priority) (s : Arbiter (Observed W))
      → Follows s (make_way (observed env) c p s)
  unfolding make_way
  make_way-Follows c Priority.emergency_stop s h =
      let t = stop_current_task (observed env) StopMethod.cancel s in
      transition_to-Follows env stored accepts ControlMode.fault
        (record t { current_behavior = none })
        (Keeps-Follows s t (stop-Keeps env StopMethod.cancel s) h)
  make_way-Follows c Priority.safety_issue s h =
      Keeps-Follows s (suspend (observed env) c s) (suspend-Keeps c s) h
  make_way-Follows c Priority.urgent_task s h =
      let suspended = Keeps-Follows s (suspend (observed env) c s) (suspend-Keeps c s) h in
      elim (Bool-cases (leb (rank Priority.normal_task) (rank c.priority))) [
        | inl low ↦ rw (make_way, low) suspended
        | inr high ↦ rw (make_way, high) h
      ]
  make_way-Follows c Priority.normal_task s h = h
  make_way-Follows c Priority.maintenance s h = h

  select-Keeps : (s : Arbiter (Observed W)) → Keeps s (select_next_behavior s).1
  unfolding select_next_behavior
  select-Keeps s = ground arith

  start_next-Keeps : (s : Arbiter (Observed W)) → Keeps s (start_next (observed env) s)
  unfolding start_next select_next_behavior start_task observed
  start_next-Keeps s = ground arith

  handle_preemption-Follows :
      (r : BehaviorRequest) (s : Arbiter (Observed W))
      → Follows s (handle_preemption (observed env) r s)
  unfolding handle_preemption start_task observed
  handle_preemption-Follows r s h = elim (Option-cases s.current_behavior) [
    | inl e ↦ rw (e, handle_preemption) h
    | inr (c, e) ↦
        rw (e, handle_preemption)
          (make_way-Follows c r.priority
            (record s { stats = record s.stats { preemptions = u64_inc s.stats.preemptions } }) h)
  ]

  check_critical-Follows :
      (s : Arbiter (Observed W)) → Follows s (check_critical_alarms (observed env) s)
  unfolding check_critical_alarms
  check_critical-Follows s h =
      ground (arith, transition_to-Follows env stored accepts ControlMode.fault s h)

  check_warning-Follows :
      (s : Arbiter (Observed W)) → Follows s (check_warning_alarms (observed env) s)
  unfolding check_warning_alarms
  check_warning-Follows s h =
      ground (arith, transition_to-Follows env stored accepts ControlMode.maint s h)

  finish_current-Follows : (s : Arbiter (Observed W)) → Follows s (finish_current (observed env) s)
  unfolding finish_current
  finish_current-Follows s h =
      let t = record s { current_behavior = none } in
      ground (
        arith,
        transition_to-Follows env stored accepts ControlMode.maint t h,
        Keeps-Follows t (start_next (observed env) t) (start_next-Keeps t) h,
      )

  preempt_or_keep-Follows :
      (s : Arbiter (Observed W)) → Follows s (preempt_or_keep (observed env) s)
  unfolding preempt_or_keep
  preempt_or_keep-Follows s h =
      let t = (select_next_behavior s).1 in
      let kept = Keeps-Follows s t (select-Keeps s) h in
      elim (Option-cases (select_next_behavior s).0) [
        | inl e ↦ rw (e, preempt_or_keep) kept
        | inr (r, e) ↦
            let moved = handle_preemption-Follows r t kept in
            rw (e, preempt_or_keep) (ground (arith, moved, kept))
      ]

  decide-Follows : (s : Arbiter (Observed W)) → Follows s (decide (observed env) s)
  unfolding decide
  decide-Follows s h = ground (
    arith,
    Keeps-Follows s (start_next (observed env) s) (start_next-Keeps s) h,
    finish_current-Follows s h,
    preempt_or_keep-Follows s h,
  )

  tick-Follows : (s : Arbiter (Observed W)) → Follows s (tick (observed env) s)
  unfolding tick remove_timed_out_behaviors
  tick-Follows s h =
      let a = check_critical_alarms (observed env) s in
      let b = check_warning_alarms (observed env) a in
      let moved = check_warning-Follows a (check_critical-Follows s h) in
      ground (arith, moved, decide-Follows b moved)

  pause-Keeps : (s : Arbiter (Observed W)) → Keeps s (pause_all (observed env) s).0
  unfolding pause_all
  pause-Keeps s = ground (arith, stop-Keeps env StopMethod.pause (record s { paused = true }))

  resume-Keeps : (s : Arbiter (Observed W)) → Keeps s (resume_all (observed env) s).0
  unfolding resume_all observed
  resume-Keeps s = ground arith

  cancel-Keeps :
      (id : String) (s : Arbiter (Observed W)) → Keeps s (cancel_behavior (observed env) id s).0
  unfolding cancel_behavior
  cancel-Keeps id s = ground (arith, stop-Keeps env StopMethod.cancel s)

  step-Follows :
      (s : Arbiter (Observed W)) (c : Call W)
      → Follows s (step (observed env) s (observe c s.world))
  unfolding step request_behavior clear_pending_behaviors
  step-Follows s (requests r) h = h
  step-Follows s ticks h = tick-Follows s h
  step-Follows s clears h = h
  step-Follows s pauses h = Keeps-Follows s (pause_all (observed env) s).0 (pause-Keeps s) h
  step-Follows s resumes h = Keeps-Follows s (resume_all (observed env) s).0 (resume-Keeps s) h
  step-Follows s (transitions m) h = transition_to-Follows env stored accepts m s h
  step-Follows s (cancels id) h =
      Keeps-Follows s (cancel_behavior (observed env) id s).0 (cancel-Keeps id s) h
  step-Follows s (elsewhere w) h = h

  run-Follows : (s : Arbiter (Observed W)) (cs : List (Call W)) → Follows s (run env s cs)
  unfolding run
  run-Follows s [] h = h
  run-Follows s (c ∷ cs) h =
      run-Follows (step (observed env) s (observe c s.world)) cs (step-Follows s c h)

  -- A new arbiter with a data store that accepts every write: whatever is called, and whatever the
  -- tasks, alarms and other users do between the calls, the transitions that it has written to
  -- `control/mode_transition_history` are each one that ControlMode.h allows, from the mode that the
  -- one before led to; the first starts in STANDBY, and the last has led to the current mode.
  pub run-IsHistory :
      (w : W) (cs : List (Call W))
      → let s = run env (new (record { inner = w; history = []; begun = [] })) cs in
        IsHistory s.current_mode s.world.history
  unfolding new
  run-IsHistory w cs = run-Follows (new (record { inner = w; history = []; begun = [] })) cs refl
