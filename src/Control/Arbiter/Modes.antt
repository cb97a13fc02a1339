-- ===== src/Control/Arbiter/Modes.antt =====
-- src/core/control/impl/BehaviorArbiter.cpp: the control modes that the arbiter passes through, as it
-- writes them to the data store.
pub mod Runs
use mxrc.Common.{
  ◌≡◌, refl, inl, inr, String, true, none, List, [], ◌∷◌, arith, Bool-cases, Option-cases,
  if◌then◌else◌, ℕ, ◌<>◌, ◌∙◌, subst, sym, ap, leb, u64_inc,
}
use mxrc.Control.Mode.{ControlMode, is_valid_transition}
use mxrc.Control.Priority.{Priority, rank}
use mxrc.Control.Request.{BehaviorRequest}
use mxrc.Control.Mode
use mxrc.Control.Objects.{Env, StoreValue, StoreType}
use mxrc.Control.Objects.Observed.{Observed, observed, note_set}
use mxrc.Control.Arbiter.{
  Arbiter, StopMethod, new, request_behavior, clear_pending_behaviors, select_next_behavior,
  stop_current_task, start_task, transition_to, remove_timed_out_behaviors, record_transition,
  mode_code, is_fault, is_maint,
}
use mxrc.Control.Arbiter.Tick.{
  suspend, make_way, handle_preemption, check_critical_alarms, check_warning_alarms, start_next,
  finish_current, preempt_or_keep, decide, tick, cancel_behavior, pause_all, resume_all,
}

-- The text of a transition in the data store.
abbrev pub transition_text : ControlMode → ControlMode → StoreValue
transition_text from to = StoreValue.text (Mode.to_string from <> " -> " <> Mode.to_string to)

-- Each entry of a history, the newest first, is a transition that is_valid_transition allows, from the
-- mode that the entry before it led to; the first one starts in STANDBY, and the last one led to `m`.
abbrev pub IsHistory : ControlMode → List StoreValue → Type 0
IsHistory m [] = m ≡ ControlMode.standby
IsHistory m (entry ∷ before) =
    (k : ControlMode) × (entry ≡ transition_text k m)
    × (is_valid_transition k m ≡ true)
    × IsHistory k before

-- Every operation of the arbiter, and a change of the objects by anybody else.
pub data Call (W : Type 0) : Type 0 where
  requests : BehaviorRequest → Call W
  ticks clears pauses resumes : Call W
  transitions : ControlMode → Call W
  cancels : String → Call W
  elsewhere : W → Call W

-- Calls on the arbiter over observed objects; a change by anybody else leaves the observer alone.
abbrev pub observe : {W : Type 0} → Call W → Observed W → Call (Observed W)
observe (requests r) o = requests r
observe ticks o = ticks
observe clears o = clears
observe pauses o = pauses
observe resumes o = resumes
observe (transitions m) o = transitions m
observe (cancels id) o = cancels id
observe (elsewhere w) o = elsewhere (record o { inner = w })

module _ {W : Type 0} (env : Env W) where
  unfoldable pub step : Arbiter W → Call W → Arbiter W
  step s (requests r) = (request_behavior r s).0
  step s ticks = tick env s
  step s clears = clear_pending_behaviors s
  step s pauses = (pause_all env s).0
  step s resumes = (resume_all env s).0
  step s (transitions m) = (transition_to env m s).0
  step s (cancels id) = (cancel_behavior env id s).0
  step s (elsewhere w) = record s { world = w }

module _ {W : Type 0} where
  -- The mode and the history of `t` go on from those of `s`.
  abbrev pub Follows : Arbiter (Observed W) → Arbiter (Observed W) → Type 0
  Follows s t = IsHistory s.current_mode s.world.history → IsHistory t.current_mode t.world.history

  -- Neither changes.
  abbrev pub Keeps : Arbiter (Observed W) → Arbiter (Observed W) → Type 0
  Keeps s t = (t.current_mode ≡ s.current_mode) × (t.world.history ≡ s.world.history)

  pub Keeps-Follows : (s t : Arbiter (Observed W)) → Keeps s t → Follows s t
  Keeps-Follows s t k h =
      subst (λ (m : ControlMode). IsHistory m t.world.history) (sym k.0)
        (subst (λ (l : List StoreValue). IsHistory s.current_mode l) (sym k.1) h)

module _ {W : Type 0} (env : Env W) where
  -- Calls on an arbiter whose objects are observed.
  unfoldable pub run : Arbiter (Observed W) → List (Call W) → Arbiter (Observed W)
  run s [] = s
  run s (c ∷ cs) = run (step (observed env) s (observe c s.world)) cs

  pub stop-Keeps :
      (m : StopMethod) (s : Arbiter (Observed W)) → Keeps s (stop_current_task (observed env) m s)
  unfolding stop_current_task observed
  stop-Keeps m s = ground arith

  module _ (stored : env.data_store ≡ true)
      (accepts : (key : String) (value : StoreValue) (type : StoreType) (w : W)
        → (env.store_set key value type w).1 ≡ true) where
    record_transition-history :
        (from to : ControlMode) (n : ℕ) (o : Observed W)
        → (record_transition (observed env) from to n o).history
          ≡ transition_text from to ∷ o.history
    unfolding record_transition observed note_set
    record_transition-history from to n o =
        let w₁ =
          (env.store_set "control/current_mode" (StoreValue.int (mode_code to)) StoreType.robot_mode
            o.inner).0 in
        rw
          (
            stored,
            accepts "control/current_mode" (StoreValue.int (mode_code to)) StoreType.robot_mode
                o.inner,
            accepts "control/mode_transition_history" (transition_text from to) StoreType.event w₁,
          )
          refl

    transition_to-history :
        (m : ControlMode) (s : Arbiter (Observed W))
        → is_valid_transition s.current_mode m ≡ true
        → (transition_to (observed env) m s).0.world.history
          ≡ transition_text s.current_mode m ∷ s.world.history
    unfolding transition_to clear_pending_behaviors
    transition_to-history m s v = elim (Bool-cases (is_fault m)) [
      | inl fault ↦
          let t = stop_current_task (observed env) StopMethod.cancel s in
          rw (transition_to, v, fault)
            (record_transition-history s.current_mode m (u64_inc t.stats.mode_transitions) t.world
              ∙ ap (λ (l : List StoreValue). transition_text s.current_mode m ∷ l)
                  (stop-Keeps StopMethod.cancel s).1)
      | inr other ↦
          rw (transition_to, v, other)
            (record_transition-history s.current_mode m (u64_inc s.stats.mode_transitions) s.world)
    ]

    pub transition_to-Follows :
        (m : ControlMode) (s : Arbiter (Observed W))
        → Follows s (transition_to (observed env) m s).0
    unfolding transition_to
    transition_to-Follows m s h = elim (Bool-cases (is_valid_transition s.current_mode m)) [
      | inl v ↦
          let t = (transition_to (observed env) m s).0 in
          let mode : t.current_mode ≡ m = rw (transition_to, v) refl in
          subst (λ (k : ControlMode). IsHistory k t.world.history) (sym mode)
            (subst (λ (l : List StoreValue). IsHistory m l) (sym (transition_to-history m s v))
              (s.current_mode, refl, v, h))
      | inr v ↦ rw (transition_to, v) h
    ]
