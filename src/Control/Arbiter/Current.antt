-- ===== src/Control/Arbiter/Current.antt =====
-- src/core/control/impl/BehaviorArbiter.cpp: the tasks that the steps of a tick start or resume.
pub mod Ticks
use mxrc.Common.{
  ℕ, List, ◌∷◌, refl, ◌∙◌, inl, inr, Option-cases, Bool-cases, u64_inc, ap, subst, sym, ◌≡◌, ◌⊎◌,
  String, true, false, none, some, arith, lookup, lookup-erase, eq_refl, str_eq,
}
use mxrc.Control.Mode.{ControlMode, is_valid_transition}
use mxrc.Control.Request.{BehaviorRequest}
use mxrc.Control.Lanes
use mxrc.Control.BehaviorPriorityQueue
use mxrc.Control.BehaviorPriorityQueue.{BehaviorPriorityQueue}
use mxrc.Control.Priority.{Priority}
use mxrc.Control.Objects.{Env, is_finished}
use mxrc.Control.Objects.Observed.{Observed, Begun, started, observed, note_set}
use mxrc.Control.Arbiter.{
  Arbiter, StopMethod, record_transition, is_fault, select_next_behavior, stop_current_task,
  start_task, transition_to, clear_pending_behaviors, remove_timed_out_behaviors, should_preempt,
}
use mxrc.Control.Arbiter.Tick.{
  make_way, suspend, handle_preemption, check_critical_alarms, check_warning_alarms, start_next,
  finish_current, preempt_or_keep, decide, tick, cancel_behavior,
}

module _ {W : Type 0} (env : Env W) where
  -- From `s` to `t` no task was set going, and the running one is that of `s` or none; or the first
  -- request in the queue of `s` was started, nothing else was set going, and it is the running one.
  abbrev pub Begins : Arbiter (Observed W) → Arbiter (Observed W) → Type 0
  Begins s t =
      ((t.world.begun ≡ s.world.begun)
        × ((t.current_behavior ≡ s.current_behavior) ⊎ (t.current_behavior ≡ none)))
      ⊎ ((r : BehaviorRequest) × ((select_next_behavior s).0 ≡ some r)
          × (t.world.begun ≡ started r.task ∷ s.world.begun)
          × (t.current_behavior ≡ some r))

  -- What an operation that sets no task going leaves alone.
  abbrev pub Rests : Arbiter (Observed W) → Arbiter (Observed W) → Type 0
  Rests s t = (t.world.begun ≡ s.world.begun) × (t.current_behavior ≡ s.current_behavior)

  record_transition_begun :
      (from to : ControlMode) (n : ℕ) (o : Observed W)
      → (record_transition (observed env) from to n o).begun ≡ o.begun
  unfolding record_transition observed note_set
  record_transition_begun from to n o = ground arith

  stop_begun :
      (m : StopMethod) (s : Arbiter (Observed W)) → Rests s (stop_current_task (observed env) m s)
  unfolding stop_current_task observed
  stop_begun m s = ground arith

  pub transition_to_begun :
      (m : ControlMode) (s : Arbiter (Observed W)) → Rests s (transition_to (observed env) m s).0
  unfolding transition_to clear_pending_behaviors
  transition_to_begun m s = elim (Bool-cases (is_valid_transition s.current_mode m)) [
    | inr v ↦ rw (transition_to, v) (refl, refl)
    | inl v ↦ elim (Bool-cases (is_fault m)) [
      | inl fault ↦
          let t = stop_current_task (observed env) StopMethod.cancel s in
          rw (transition_to, v, fault)
            (
              record_transition_begun s.current_mode m (u64_inc t.stats.mode_transitions) t.world
                  ∙ (stop_begun StopMethod.cancel s).0,
              (stop_begun StopMethod.cancel s).1,
            )
      | inr other ↦
          rw (transition_to, v, other)
            (
              record_transition_begun s.current_mode m (u64_inc s.stats.mode_transitions) s.world,
              refl,
            )
    ]
  ]

  select_begun : (s : Arbiter (Observed W)) → Rests s (select_next_behavior s).1
  unfolding select_next_behavior
  select_begun s = ground arith

  pub by_eq : (s t u : Arbiter (Observed W)) → t ≡ u → Begins s u → Begins s t
  by_eq s t u e h = subst (λ (v : Arbiter (Observed W)). Begins s v) (sym e) h

  start_next-Begins : (s : Arbiter (Observed W)) → Begins s (start_next (observed env) s)
  unfolding start_next start_task observed
  start_next-Begins s = elim (Option-cases (select_next_behavior s).0) [
    | inl e ↦
        by_eq s (start_next (observed env) s) (select_next_behavior s).1 (rw (start_next, e) refl)
          (inl ((select_begun s).0, inl (select_begun s).1))
    | inr (r, e) ↦
        by_eq s (start_next (observed env) s)
          (start_task (observed env) r (select_next_behavior s).1) (rw (start_next, e) refl)
          (inr (r, e, ap (λ (l : List Begun). started r.task ∷ l) (select_begun s).0, refl))
  ]

  make_way_begun :
      (c : BehaviorRequest) (p : Priority) (s : Arbiter (Observed W))
      → (make_way (observed env) c p s).world.begun ≡ s.world.begun
  unfolding make_way suspend
  make_way_begun c Priority.emergency_stop s =
      let t = stop_current_task (observed env) StopMethod.cancel s in
      (transition_to_begun ControlMode.fault (record t { current_behavior = none })).0
      ∙ (stop_begun StopMethod.cancel s).0
  make_way_begun c Priority.safety_issue s = (stop_begun StopMethod.pause s).0
  make_way_begun c Priority.urgent_task s = ground (arith, stop_begun StopMethod.pause s)
  make_way_begun c Priority.normal_task s = refl
  make_way_begun c Priority.maintenance s = refl

  finish_current-Begins : (s : Arbiter (Observed W)) → Begins s (finish_current (observed env) s)
  unfolding finish_current
  finish_current-Begins s =
      let t = record s { current_behavior = none } in
      let moved = transition_to_begun ControlMode.maint t in
      let same : (select_next_behavior t).0 ≡ (select_next_behavior s).0 =
        unfold select_next_behavior in ground arith in
      elim (Bool-cases s.pending_safe_mode) [
        | inl safe ↦
            by_eq s (finish_current (observed env) s)
              (record (transition_to (observed env) ControlMode.maint t).0 {
                pending_safe_mode = false;
              })
              (rw (finish_current, safe) refl) (inl (moved.0, inr moved.1))
        | inr not_safe ↦
            by_eq s (finish_current (observed env) s) (start_next (observed env) t)
              (rw (finish_current, not_safe) refl)
              (elim (start_next-Begins t) [
                | inl (quiet, now) ↦ inl (quiet, inr (elim now [ inl e ↦ e | inr e ↦ e ]))
                | inr (r, first, begun, now) ↦ inr (r, sym same ∙ first, begun, now)
              ])
      ]

  handle_preemption-Begins :
      (r : BehaviorRequest) (s t : Arbiter (Observed W))
      → Rests s t
      → (select_next_behavior s).0 ≡ some r
      → Begins s (handle_preemption (observed env) r t)
  unfolding handle_preemption start_task observed
  handle_preemption-Begins r s t rests first = elim (Option-cases t.current_behavior) [
    | inl e ↦ rw (handle_preemption, e) (inl (rests.0, inl rests.1))
    | inr (c, e) ↦
        let u = record t { stats = record t.stats { preemptions = u64_inc t.stats.preemptions } } in
        rw (handle_preemption, e)
          (inr (
            r,
            first,
            ap (λ (l : List Begun). started r.task ∷ l) (make_way_begun c r.priority u ∙ rests.0),
            refl,
          ))
  ]

  preempt_or_keep-Begins : (s : Arbiter (Observed W)) → Begins s (preempt_or_keep (observed env) s)
  unfolding preempt_or_keep
  preempt_or_keep-Begins s =
      let t = (select_next_behavior s).1 in
      let rests = select_begun s in
      elim (Option-cases (select_next_behavior s).0) [
        | inl e ↦
            by_eq s (preempt_or_keep (observed env) s) t (rw (preempt_or_keep, e) refl)
              (inl (rests.0, inl rests.1))
        | inr (r, e) ↦ elim (Bool-cases (should_preempt r t)) [
          | inl may ↦
              by_eq s (preempt_or_keep (observed env) s) (handle_preemption (observed env) r t)
                (rw (preempt_or_keep, e, may) refl) (handle_preemption-Begins r s t rests e)
          | inr keep ↦
              by_eq s (preempt_or_keep (observed env) s) t (rw (preempt_or_keep, e, keep) refl)
                (inl (rests.0, inl rests.1))
        ]
      ]

  pub decide-Begins : (s : Arbiter (Observed W)) → Begins s (decide (observed env) s)
  unfolding decide
  decide-Begins s = elim (Option-cases s.current_behavior) [
    | inl e ↦
        by_eq s (decide (observed env) s) (start_next (observed env) s) (ground (arith, e))
          (start_next-Begins s)
    | inr (c, e) ↦ elim (Bool-cases (is_finished ((observed env).task_status c.task s.world))) [
      | inl over ↦
          by_eq s (decide (observed env) s) (finish_current (observed env) s)
            (ground (arith, e, over)) (finish_current-Begins s)
      | inr busy ↦
          by_eq s (decide (observed env) s) (preempt_or_keep (observed env) s)
            (ground (arith, e, busy)) (preempt_or_keep-Begins s)
    ]
  ]
