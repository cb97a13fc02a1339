-- ===== src/Ha/StateMachine/Transitions.antt =====
-- What one operation does to the state of the machine, and the state that it never leaves.
use mxrc.Common.{
  ℕ, ◌<◌, ◌≡◌, ◌∙◌, subst, ◌⊎◌, refl, inl, inr, true, List, [], ◌∷◌, arith, Bool, Option,
  Option-cases,
}
use mxrc.Ha.Policy.{HaState, FailureType, RecoveryAction, Policies, shutdown}
use mxrc.Ha.StateMachine.{
  HaStateMachine, is_valid_transition, transition_to, report_recovery_failure,
  report_recovery_success, handle_failure, respond, execute_recovery_action, set_recovery_policies,
  register_state_transition_callback, register_recovery_action_callback,
}

from_shutdown : (a : HaState) → is_valid_transition shutdown a ≡ true → a ≡ shutdown
unfolding is_valid_transition
from_shutdown a h = ground arith

-- Every operation with the time it is called at, and a change behind the callbacks by anybody else.
pub data Call (W : Type 0) : Type 0 where
  fails : FailureType → Call W
  moves : HaState → Call W
  succeeds recovers_not : Call W
  sets_policies : Policies → Call W
  sets_transition_callback : Option (HaState → HaState → FailureType → W → W) → Call W
  sets_action_callback : Option (RecoveryAction → W → W × Bool) → Call W
  elsewhere : W → Call W

module _ {W : Type 0} where
  unfoldable pub step : HaStateMachine W → ℕ × Call W → HaStateMachine W
  step m (now, fails f) = (handle_failure f now m).0
  step m (now, moves to) = (transition_to to now m).0
  step m (now, succeeds) = (report_recovery_success now m).0
  step m (now, recovers_not) = (report_recovery_failure now m).0
  step m (now, sets_policies p) = set_recovery_policies p m
  step m (now, sets_transition_callback f) = register_state_transition_callback f m
  step m (now, sets_action_callback f) = register_recovery_action_callback f m
  step m (now, elsewhere w) = record m { world = w }

  unfoldable pub run : HaStateMachine W → List (ℕ × Call W) → HaStateMachine W
  run m [] = m
  run m (c ∷ cs) = run (step m c) cs

  -- What one operation may do to the machine.
  abbrev Steps : HaStateMachine W → HaStateMachine W → Type 0
  Steps m n =
      ((n.current_state ≡ m.current_state)
        ⊎ (is_valid_transition m.current_state n.current_state ≡ true))
      × (n.max_recovery_attempts ≡ m.max_recovery_attempts)
      × ((n.recovery_attempt_count ≡ m.recovery_attempt_count)
          ⊎ (n.recovery_attempt_count ≡ 0)
          ⊎ (n.recovery_attempt_count < n.max_recovery_attempts))

  transition_to-Steps :
      (to : HaState) (now : ℕ) (m : HaStateMachine W) → Steps m (transition_to to now m).0
  unfolding transition_to
  transition_to-Steps to now m = ground arith

  failure-Steps : (now : ℕ) (m : HaStateMachine W) → Steps m (report_recovery_failure now m).0
  unfolding report_recovery_failure transition_to
  failure-Steps now m = ground arith

  success-Steps : (now : ℕ) (m : HaStateMachine W) → Steps m (report_recovery_success now m).0
  unfolding report_recovery_success transition_to
  success-Steps now m = ground arith

  respond-Steps :
      (f : FailureType) (a : RecoveryAction) (now : ℕ) (m : HaStateMachine W)
      → Steps m (respond f a now m).0
  unfolding respond execute_recovery_action report_recovery_failure transition_to
  respond-Steps f a now m = ground arith

  handle_failure-Steps :
      (f : FailureType) (now : ℕ) (m : HaStateMachine W) → Steps m (handle_failure f now m).0
  unfolding handle_failure
  handle_failure-Steps f now m = elim (Option-cases (m.recovery_policies f)) [
    | inl e ↦ rw (e, handle_failure) (inl refl, refl, inl refl)
    | inr (a, e) ↦ rw (e, handle_failure) (respond-Steps f a now m)
  ]

  step-Steps : (m : HaStateMachine W) (c : ℕ × Call W) → Steps m (step m c)
  unfolding step set_recovery_policies register_state_transition_callback
      register_recovery_action_callback
  step-Steps m (now, fails f) = handle_failure-Steps f now m
  step-Steps m (now, moves to) = transition_to-Steps to now m
  step-Steps m (now, succeeds) = success-Steps now m
  step-Steps m (now, recovers_not) = failure-Steps now m
  step-Steps m (now, sets_policies p) = (inl refl, refl, inl refl)
  step-Steps m (now, sets_transition_callback f) = (inl refl, refl, inl refl)
  step-Steps m (now, sets_action_callback f) = (inl refl, refl, inl refl)
  step-Steps m (now, elsewhere w) = (inl refl, refl, inl refl)

  -- A machine that is in SHUTDOWN stays there, whatever is called.
  pub run-shutdown :
      (m : HaStateMachine W) (cs : List (ℕ × Call W))
      → m.current_state ≡ shutdown
      → (run m cs).current_state ≡ shutdown
  unfolding run
  run-shutdown m [] h = h
  run-shutdown m (c ∷ cs) h = run-shutdown (step m c) cs (elim ((step-Steps m c).0) [
    | inl e ↦ e ∙ h
    | inr v ↦
        from_shutdown _ (subst (λ a. is_valid_transition a (step m c).current_state ≡ true) h v)
  ])
