-- ===== src/Ha/StateMachine/Trace.antt =====
-- The calls of the state transition callback of src/core/ha/HAStateMachine.cpp, for every sequence of
-- calls on the machine. `V` is what the callbacks work on; a log beside it takes down the transitions
-- that the callback is called for.
use mxrc.Common.{
  ℕ, ◌≡◌, subst, sym, refl, inl, inr, true, List, [], ◌∷◌, Bool, Option, none, some, Option-cases,
  Bool-cases, leb, u32_inc,
}
use mxrc.Ha.Policy.{HaState, FailureType, RecoveryAction, Policies, normal, manual_intervention}
use mxrc.Ha.StateMachine.{
  HaStateMachine, new, is_valid_transition, transition_to, notify, report_recovery_failure,
  report_recovery_success, handle_failure, respond, execute_recovery_action, set_recovery_policies,
  register_state_transition_callback, register_recovery_action_callback, determine_target_state,
}

-- The newest entry stands first.
abbrev pub Log : Type 0
Log = List (HaState × HaState)

-- Each transition is one that is_valid_transition allows, from the state that the one before led to; the
-- first starts in NORMAL, and the last one led to `s`.
abbrev pub IsChain : HaState → Log → Type 0
IsChain s [] = s ≡ normal
IsChain s ((from, to) ∷ before) =
    (to ≡ s) × (is_valid_transition from to ≡ true) × IsChain from before

-- Every operation with the time it is called at, and a change behind the callbacks by anybody else.
pub data Call (V : Type 0) : Type 0 where
  fails : FailureType → Call V
  moves : HaState → Call V
  succeeds recovers_not : Call V
  sets_policies : Policies → Call V
  sets_transition_callback : (HaState → HaState → FailureType → V → V) → Call V
  sets_action_callback : Option (RecoveryAction → V → V × Bool) → Call V
  elsewhere : V → Call V

module _ {V : Type 0} where
  -- The callbacks, the first with the log.
  abbrev pub logging :
      (HaState → HaState → FailureType → V → V)
      → HaState
      → HaState
      → FailureType
      → V × Log
      → V × Log
  logging f from to failure w = (f from to failure w.0, (from, to) ∷ w.1)

  abbrev pub lifted :
      Option (RecoveryAction → V → V × Bool) → Option (RecoveryAction → V × Log → (V × Log) × Bool)
  lifted none = none
  lifted (some f) = some (λ a w. (((f a w.0).0, w.1), (f a w.0).1))

  unfoldable pub step : HaStateMachine (V × Log) → ℕ × Call V → HaStateMachine (V × Log)
  step m (now, fails f) = (handle_failure f now m).0
  step m (now, moves to) = (transition_to to now m).0
  step m (now, succeeds) = (report_recovery_success now m).0
  step m (now, recovers_not) = (report_recovery_failure now m).0
  step m (now, sets_policies p) = set_recovery_policies p m
  step m (now, sets_transition_callback f) = register_state_transition_callback (some (logging f)) m
  step m (now, sets_action_callback f) = register_recovery_action_callback (lifted f) m
  step m (now, elsewhere v) = record m { world = (v, m.world.1) }

  unfoldable pub run : HaStateMachine (V × Log) → List (ℕ × Call V) → HaStateMachine (V × Log)
  run m [] = m
  run m (c ∷ cs) = run (step m c) cs

  -- The callbacks are those with the log, and the log is a chain.
  record IsLogged (m : HaStateMachine (V × Log)) : Type 0 where
    callback :
        (f : HaState → HaState → FailureType → V → V) × (m.state_transition_callback
          ≡ some (logging f))
    action : (f : Option (RecoveryAction → V → V × Bool)) × (m.recovery_action_callback ≡ lifted f)
    chain : IsChain m.current_state m.world.1

  notify-log :
      (from to : HaState) (m : HaStateMachine (V × Log))
      (f : HaState → HaState → FailureType → V → V)
      → m.state_transition_callback ≡ some (logging f)
      → (notify from to m).1 ≡ (from, to) ∷ m.world.1
  unfolding notify
  notify-log from to m f e = rw (notify, e) refl

  transition_to-IsLogged :
      (to : HaState) (now : ℕ) (m : HaStateMachine (V × Log))
      → IsLogged m
      → IsLogged (transition_to to now m).0
  unfolding transition_to
  transition_to-IsLogged to now m h = elim (Bool-cases (is_valid_transition m.current_state to)) [
    | inl v ↦
        simp (transition_to, v)
          (record {
            callback = h.callback;
            action = h.action;
            chain =
                subst (λ (l : Log). IsChain to l)
                  (sym (notify-log m.current_state to m h.callback.0 h.callback.1))
                  (refl, v, h.chain);
          })
    | inr v ↦ simp (transition_to, v) h
  ]

  -- A change of the counter, or of what the callbacks work on.
  reset-IsLogged :
      (n : ℕ) (v : V) (m : HaStateMachine (V × Log))
      → IsLogged m
      → IsLogged (record m { recovery_attempt_count = n; world = (v, m.world.1) })
  reset-IsLogged n v m h = record { callback = h.callback; action = h.action; chain = h.chain }

  success-IsLogged :
      (now : ℕ) (m : HaStateMachine (V × Log))
      → IsLogged m
      → IsLogged (report_recovery_success now m).0
  unfolding report_recovery_success
  success-IsLogged now m h =
      transition_to-IsLogged normal now (record m { recovery_attempt_count = 0 })
        (reset-IsLogged 0 m.world.0 m h)

  failure-IsLogged :
      (now : ℕ) (m : HaStateMachine (V × Log))
      → IsLogged m
      → IsLogged (report_recovery_failure now m).0
  unfolding report_recovery_failure
  failure-IsLogged now m h =
      let attempts = u32_inc m.recovery_attempt_count in
      elim (Bool-cases (leb m.max_recovery_attempts attempts)) [
        | inl last ↦
            simp (report_recovery_failure, last)
              (transition_to-IsLogged manual_intervention now
                (record m { recovery_attempt_count = 0 }) (reset-IsLogged 0 m.world.0 m h))
        | inr more ↦ simp (report_recovery_failure, more) (reset-IsLogged attempts m.world.0 m h)
      ]

  -- A recovery action leaves the log alone.
  execute-IsLogged :
      (a : RecoveryAction) (m : HaStateMachine (V × Log))
      (f : Option (RecoveryAction → V → V × Bool))
      → m.recovery_action_callback ≡ lifted f
      → IsLogged m
      → IsLogged (execute_recovery_action a m).0
  unfolding execute_recovery_action
  execute-IsLogged a m none e h = simp (execute_recovery_action, e) h
  execute-IsLogged a m (some f) e h =
      simp (execute_recovery_action, e)
        (record { callback = h.callback; action = (some f, refl); chain = h.chain })

  respond-IsLogged :
      (f : FailureType) (a : RecoveryAction) (now : ℕ) (m : HaStateMachine (V × Log))
      → IsLogged m
      → IsLogged (respond f a now m).0
  unfolding respond
  respond-IsLogged f a now m h =
      let n = (execute_recovery_action a m).0 in
      let kept = execute-IsLogged a m h.action.0 h.action.1 h in
      elim (Bool-cases (execute_recovery_action a m).1) [
        | inl done ↦
            simp (respond, done) (transition_to-IsLogged (determine_target_state f a) now n kept)
        | inr not_done ↦ simp (respond, not_done) (failure-IsLogged now n kept)
      ]

  handle_failure-IsLogged :
      (f : FailureType) (now : ℕ) (m : HaStateMachine (V × Log))
      → IsLogged m
      → IsLogged (handle_failure f now m).0
  unfolding handle_failure
  handle_failure-IsLogged f now m h = elim (Option-cases (m.recovery_policies f)) [
    | inl e ↦ simp (handle_failure, e) h
    | inr (a, e) ↦ simp (handle_failure, e) (respond-IsLogged f a now m h)
  ]

  step-IsLogged : (m : HaStateMachine (V × Log)) (c : ℕ × Call V) → IsLogged m → IsLogged (step m c)
  unfolding step set_recovery_policies register_state_transition_callback
      register_recovery_action_callback
  step-IsLogged m (now, fails f) h = handle_failure-IsLogged f now m h
  step-IsLogged m (now, moves to) h = transition_to-IsLogged to now m h
  step-IsLogged m (now, succeeds) h = success-IsLogged now m h
  step-IsLogged m (now, recovers_not) h = failure-IsLogged now m h
  step-IsLogged m (now, sets_policies p) h = record {
    callback = h.callback;
    action = h.action;
    chain = h.chain;
  }
  step-IsLogged m (now, sets_transition_callback f) h = record {
    callback = (f, refl);
    action = h.action;
    chain = h.chain;
  }
  step-IsLogged m (now, sets_action_callback f) h = record {
    callback = h.callback;
    action = (f, refl);
    chain = h.chain;
  }
  step-IsLogged m (now, elsewhere v) h = record {
    callback = h.callback;
    action = h.action;
    chain = h.chain;
  }

  run_from :
      (cs : List (ℕ × Call V)) (m : HaStateMachine (V × Log)) → IsLogged m → IsLogged (run m cs)
  unfolding run
  run_from [] m h = h
  run_from (c ∷ cs) m h = run_from cs (step m c) (step-IsLogged m c h)

  -- A new machine with a transition callback that takes down a log, and any calls, changes of the
  -- policies and of both callbacks among them (the log stays): the transitions that the callback is
  -- called for are each one that isValidTransition allows, from the state that the one before led to;
  -- the first starts in NORMAL, and the last has led to the current state.
  pub run-IsTrace :
      (attempts now : ℕ) (v : V) (f : HaState → HaState → FailureType → V → V)
      (cs : List (ℕ × Call V))
      → let m =
          run
            (register_state_transition_callback (some (logging f)) (new attempts now (v, [])))
            cs in
        IsChain m.current_state m.world.1
  unfolding new register_state_transition_callback
  run-IsTrace attempts now v f cs =
      (run_from cs
        (register_state_transition_callback (some (logging f)) (new attempts now (v, [])))
        (record { callback = (f, refl); action = (none, refl); chain = refl })).chain
