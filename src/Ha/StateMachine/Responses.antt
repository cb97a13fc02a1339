-- ===== src/Ha/StateMachine/Responses.antt =====
-- What a failure makes the machine do, by its policy and state.
use mxrc.Common.{ℕ, ◌≡◌, ◌⊎◌, refl, inl, inr, true, false, Bool, some, arith, Option-cases}
use mxrc.Ha.Policy.{
  FailureType, RecoveryAction, normal, degraded, safe_mode, recovery_in_progress,
  manual_intervention, get_default_policies, notify_and_wait,
}
use mxrc.Ha.StateMachine.{
  HaStateMachine, is_valid_transition, transition_to, report_recovery_success, handle_failure,
  respond, execute_recovery_action, determine_target_state,
}

-- The failures that determineTargetState always answers with SAFE_MODE.
pub data IsCritical : FailureType → Type 0 where
  deadline : IsCritical FailureType.deadline_miss_consecutive
  comm : IsCritical FailureType.ethercat_comm_failure
  overcurrent : IsCritical FailureType.motor_overcurrent

critical_target :
    (f : FailureType) (a : RecoveryAction) → IsCritical f → determine_target_state f a ≡ safe_mode
unfolding determine_target_state
critical_target _ a deadline = refl
critical_target _ a comm = refl
critical_target _ a overcurrent = refl

-- The policy for `f` is `a`, and the callback carries it out, leaving `w`.
pub record IsHandled {W : Type 0} (m : HaStateMachine W) (f : FailureType) (a : RecoveryAction)
    (w : W) : Type 0 where
  pub policy : m.recovery_policies f ≡ some a
  pub acts : RecoveryAction → W → W × Bool
  pub callback : m.recovery_action_callback ≡ some acts
  pub works : acts a m.world ≡ (w, true)

module _ {W : Type 0} (m : HaStateMachine W) (f : FailureType) (now : ℕ) where
  executed :
      (a : RecoveryAction) (w : W)
      → IsHandled m f a w
      → execute_recovery_action a m ≡ (record m { world = w }, true)
  unfolding execute_recovery_action
  executed a w h = elim (Option-cases m.recovery_action_callback) [
    | inl e ↦ ground (arith, h.callback, e)
    | inr (g, e) ↦ ground (arith, h.callback, h.works, e)
  ]

  handled :
      (a : RecoveryAction) (w : W)
      → IsHandled m f a w
      → handle_failure f now m
        ≡ transition_to (determine_target_state f a) now (record m { world = w })
  unfolding handle_failure respond
  handled a w h = rw (handle_failure, h.policy, respond, executed a w h) refl

  -- A critical failure brings the machine from NORMAL, RECOVERY_IN_PROGRESS or SAFE_MODE to SAFE_MODE,
  -- whatever its policy is, once the recovery action has been carried out.
  pub handle_failure-critical :
      (a : RecoveryAction) (w : W)
      → IsCritical f
      → IsHandled m f a w
      → (m.current_state ≡ normal)
        ⊎ (m.current_state ≡ recovery_in_progress)
        ⊎ (m.current_state ≡ safe_mode)
      → let r = handle_failure f now m in (r.1 ≡ true) × (r.0.current_state ≡ safe_mode)
  unfolding transition_to is_valid_transition
  handle_failure-critical a w c h s =
      let e = handled a w h in
      let t = critical_target f a c in (ground (arith, e, t, s), ground (arith, e, t, s))

  -- In DEGRADED or MANUAL_INTERVENTION a critical failure does not lead to SAFE_MODE: the recovery
  -- action is carried out, and then the transition is refused. The state stays, and the answer is
  -- false.
  pub handle_failure-refused :
      (a : RecoveryAction) (w : W)
      → IsCritical f
      → IsHandled m f a w
      → (m.current_state ≡ degraded) ⊎ (m.current_state ≡ manual_intervention)
      → handle_failure f now m ≡ (record m { world = w }, false)
  unfolding transition_to is_valid_transition
  handle_failure-refused a w c h s = ground (arith, handled a w h, critical_target f a c)

  -- With the default policies, a sensor failure, a corrupt data store or an unknown failure in NORMAL
  -- notifies the operator and leaves the machine in NORMAL, since the transition to
  -- MANUAL_INTERVENTION is refused; the answer is false.
  pub handle_failure-notify_and_wait :
      (w : W) (acts : RecoveryAction → W → W × Bool)
      → (f ≡ FailureType.sensor_failure)
        ⊎ (f ≡ FailureType.datastore_corruption)
        ⊎ (f ≡ FailureType.unknown)
      → m.recovery_policies ≡ get_default_policies
      → m.recovery_action_callback ≡ some acts
      → acts notify_and_wait m.world ≡ (w, true)
      → m.current_state ≡ normal
      → handle_failure f now m ≡ (record m { world = w }, false)
  unfolding transition_to is_valid_transition determine_target_state
  handle_failure-notify_and_wait w acts k d c h s =
      let p : get_default_policies f ≡ some notify_and_wait =
        unfold get_default_policies in ground (arith, k) in
      let e =
        handled notify_and_wait w
          (record { policy = rw d p; acts = acts; callback = c; works = h }) in
      ground (arith, e)

  -- After a failure whose target state is RECOVERY_IN_PROGRESS and whose action was carried out, a
  -- successful recovery brings the machine from NORMAL, DEGRADED or SAFE_MODE to NORMAL, with no failed
  -- recovery counted.
  pub handle_failure-report_recovery_success :
      (a : RecoveryAction) (w : W) (later : ℕ)
      → determine_target_state f a ≡ recovery_in_progress
      → IsHandled m f a w
      → (m.current_state ≡ normal) ⊎ (m.current_state ≡ degraded) ⊎ (m.current_state ≡ safe_mode)
      → let r = report_recovery_success later (handle_failure f now m).0 in
        (r.1 ≡ true)
        × (r.0.current_state ≡ normal)
        × (r.0.previous_state ≡ recovery_in_progress)
        × (r.0.recovery_attempt_count ≡ 0)
  unfolding transition_to is_valid_transition report_recovery_success
  handle_failure-report_recovery_success a w later t h s =
      let e = handled a w h in
      (
        ground (arith, e, t, s),
        ground (arith, e, t, s),
        ground (arith, e, t, s),
        ground (arith, e, t, s),
      )
