-- ===== src/Control/Arbiter/Current/Ticks.antt =====
-- src/core/control/impl/BehaviorArbiter.cpp: the tasks that a tick starts or resumes.
use mxrc.Common.{List, ◌∷◌, refl, ◌∙◌, inl, inr, Bool-cases, ap, ◌≡◌, ◌⊎◌, some, arith}
use mxrc.Control.Mode.{ControlMode, is_valid_transition}
use mxrc.Control.Request.{BehaviorRequest}
use mxrc.Control.Lanes
use mxrc.Control.BehaviorPriorityQueue
use mxrc.Control.BehaviorPriorityQueue.{BehaviorPriorityQueue}
use mxrc.Control.Objects.{Env}
use mxrc.Control.Objects.Observed.{Observed, Begun, started, observed}
use mxrc.Control.Arbiter.{
  Arbiter, select_next_behavior, stop_current_task, transition_to, clear_pending_behaviors,
  remove_timed_out_behaviors,
}
use mxrc.Control.Arbiter.Tick.{check_critical_alarms, check_warning_alarms, decide, tick}
use mxrc.Control.Arbiter.Current.{Begins, transition_to_begun, decide-Begins, by_eq}

module _ {W : Type 0} (env : Env W) where
  -- What the two alarm checks leave for the rest of the tick.
  abbrev Clears : Arbiter (Observed W) → Arbiter (Observed W) → Type 0
  Clears s t =
      (t.world.begun ≡ s.world.begun)
      × (t.current_behavior ≡ s.current_behavior)
      × ((t.pending_behaviors ≡ s.pending_behaviors) ⊎ (t.pending_behaviors ≡ Lanes.empty))

  maint_pending :
      (s : Arbiter (Observed W))
      → (transition_to (observed env) ControlMode.maint s).0.pending_behaviors ≡ s.pending_behaviors
  unfolding transition_to is_valid_transition
  maint_pending s = ground arith

  fault_pending :
      (s : Arbiter (Observed W))
      → let q = (transition_to (observed env) ControlMode.fault s).0.pending_behaviors in
        (q ≡ s.pending_behaviors) ⊎ (q ≡ Lanes.empty)
  unfolding transition_to is_valid_transition clear_pending_behaviors stop_current_task
      BehaviorPriorityQueue.clear
  fault_pending s = ground arith

  check_critical-Clears :
      (s : Arbiter (Observed W)) → Clears s (check_critical_alarms (observed env) s)
  unfolding check_critical_alarms
  check_critical-Clears s =
      ground (arith, transition_to_begun env ControlMode.fault s, fault_pending s)

  check_warning_keeps :
      (s : Arbiter (Observed W))
      → let t = check_warning_alarms (observed env) s in
        (t.world.begun ≡ s.world.begun)
        × (t.current_behavior ≡ s.current_behavior)
        × (t.pending_behaviors ≡ s.pending_behaviors)
  unfolding check_warning_alarms
  check_warning_keeps s =
      ground (arith, transition_to_begun env ControlMode.maint s, maint_pending s)

  select-Clears :
      (s t : Arbiter (Observed W)) (x : BehaviorRequest)
      → Clears s t
      → (select_next_behavior t).0 ≡ some x
      → (select_next_behavior s).0 ≡ some x
  unfolding select_next_behavior
  select-Clears s t x k e = ground (arith, BehaviorPriorityQueue.pop-empty)

  Begins-Clears : (s t u : Arbiter (Observed W)) → Clears s t → Begins env t u → Begins env s u
  Begins-Clears s t u k (inl (quiet, now)) =
      inl (quiet ∙ k.0, elim now [ inl e ↦ inl (e ∙ k.1) | inr e ↦ inr e ])
  Begins-Clears s t u k (inr (r, first, begun, now)) =
      inr (
        r,
        select-Clears s t r k first,
        begun ∙ ap (λ (l : List Begun). started r.task ∷ l) k.0,
        now,
      )

  -- A tick over observed tasks does one of two things, whatever the state of the arbiter and its
  -- objects. Either it starts no task and resumes none, and the running task stays or is given up. Or it
  -- starts exactly one task, that of the first request in the queue, which becomes the running one, and
  -- resumes none. So no tick resumes the task of a suspended request, and none starts it
  -- unless it is that of the first request in the queue.
  pub tick-Begins : (s : Arbiter (Observed W)) → Begins env s (tick (observed env) s)
  unfolding tick remove_timed_out_behaviors
  tick-Begins s =
      let a = check_critical_alarms (observed env) s in
      let b = check_warning_alarms (observed env) a in
      let critical = check_critical-Clears s in
      let warning = check_warning_keeps a in
      let clears : Clears s b = (
        warning.0 ∙ critical.0,
        warning.1 ∙ critical.1,
        elim critical.2 [ inl e ↦ inl (warning.2 ∙ e) | inr e ↦ inr (warning.2 ∙ e) ],
      ) in
      elim (Bool-cases b.paused) [
        | inl p ↦
            by_eq env s (tick (observed env) s) b (rw (tick, p) refl) (inl (clears.0, inl clears.1))
        | inr p ↦
            by_eq env s (tick (observed env) s) (decide (observed env) b) (rw (tick, p) refl)
              (Begins-Clears s b (decide (observed env) b) clears (decide-Begins env b))
      ]
