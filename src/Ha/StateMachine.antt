-- ===== src/Ha/StateMachine.antt =====
-- src/core/ha/HAStateMachine.{h,cpp}. `W` is the state behind the two callbacks, which do not call
-- the machine back; the clock of transitionTo is an argument.
pub mod Attempts
pub mod Transitions
pub mod Trace
pub mod Responses
use mxrc.Common.{
  ℕ, ◌-◌, ◌/◌, Bool, true, false, Option, none, some, ◌||◌, ◌==◌, leb, if◌then◌else◌, u32_inc,
}
use mxrc.Ha.Policy.{
  HaState, FailureType, RecoveryAction, Policies, normal, degraded, safe_mode, recovery_in_progress,
  manual_intervention, shutdown,
}

abbrev pub state_index : HaState → ℕ
state_index normal = 0
state_index degraded = 1
state_index safe_mode = 2
state_index recovery_in_progress = 3
state_index manual_intervention = 4
state_index shutdown = 5

abbrev same_state : HaState → HaState → Bool
same_state a b = state_index a == state_index b

abbrev listed : HaState → HaState → Bool
listed normal to =
    same_state to degraded
    || same_state to recovery_in_progress
    || same_state to safe_mode
    || same_state to shutdown
listed degraded to =
    same_state to normal || same_state to recovery_in_progress || same_state to shutdown
listed safe_mode to =
    same_state to recovery_in_progress
    || same_state to manual_intervention
    || same_state to shutdown
listed recovery_in_progress to =
    same_state to normal
    || same_state to safe_mode
    || same_state to manual_intervention
    || same_state to shutdown
listed manual_intervention to = same_state to normal || same_state to shutdown
listed shutdown to = false

unfoldable pub is_valid_transition : HaState → HaState → Bool
is_valid_transition from to = if same_state from to then true else listed from to

pub record HaStateMachine (W : Type 0) : Type 0 where
  pub current_state : HaState
  pub previous_state : HaState
  pub recovery_policies : Policies
  pub recovery_attempt_count : ℕ
  pub max_recovery_attempts : ℕ
  pub state_entered_at : ℕ
  pub state_transition_callback : Option (HaState → HaState → FailureType → W → W)
  pub recovery_action_callback : Option (RecoveryAction → W → W × Bool)
  pub world : W

unfoldable pub determine_target_state : FailureType → RecoveryAction → HaState
determine_target_state FailureType.deadline_miss_consecutive a = safe_mode
determine_target_state FailureType.ethercat_comm_failure a = safe_mode
determine_target_state FailureType.motor_overcurrent a = safe_mode
determine_target_state _ RecoveryAction.enter_safe_mode = safe_mode
determine_target_state _ RecoveryAction.restart_rt_process = recovery_in_progress
determine_target_state _ RecoveryAction.reload_configuration = recovery_in_progress
determine_target_state _ RecoveryAction.notify_and_wait = manual_intervention
determine_target_state _ RecoveryAction.shutdown_system = shutdown
determine_target_state _ RecoveryAction.nothing = degraded

module _ {W : Type 0} where
  unfoldable pub new : ℕ → ℕ → W → HaStateMachine W
  new attempts now w = record {
    current_state = normal;
    previous_state = normal;
    recovery_policies = λ f. none;
    recovery_attempt_count = 0;
    max_recovery_attempts = attempts;
    state_entered_at = now;
    state_transition_callback = none;
    recovery_action_callback = none;
    world = w;
  }

  unfoldable pub set_recovery_policies : Policies → HaStateMachine W → HaStateMachine W
  set_recovery_policies p m = record m { recovery_policies = p }

  unfoldable pub register_state_transition_callback :
      Option (HaState → HaState → FailureType → W → W) → HaStateMachine W → HaStateMachine W
  register_state_transition_callback f m = record m { state_transition_callback = f }

  unfoldable pub register_recovery_action_callback :
      Option (RecoveryAction → W → W × Bool) → HaStateMachine W → HaStateMachine W
  register_recovery_action_callback f m = record m { recovery_action_callback = f }

  -- The callback is told FailureType::UNKNOWN, whatever the failure was.
  unfoldable pub notify : HaState → HaState → HaStateMachine W → W
  notify from to m = elim m.state_transition_callback [
    | none ↦ m.world
    | some f ↦ f from to FailureType.unknown m.world
  ]

  unfoldable pub transition_to : HaState → ℕ → HaStateMachine W → HaStateMachine W × Bool
  transition_to to now m =
      if is_valid_transition m.current_state to
      then (
        record m {
          previous_state = m.current_state;
          current_state = to;
          state_entered_at = now;
          world = notify m.current_state to m;
        },
        true,
      )
      else (m, false)

  unfoldable pub execute_recovery_action :
      RecoveryAction → HaStateMachine W → HaStateMachine W × Bool
  execute_recovery_action a m = elim m.recovery_action_callback [
    | none ↦ (m, false)
    | some f ↦ let (w, done) = f a m.world in (record m { world = w }, done)
  ]

  unfoldable pub report_recovery_success : ℕ → HaStateMachine W → HaStateMachine W × Bool
  report_recovery_success now m = transition_to normal now (record m { recovery_attempt_count = 0 })

  unfoldable pub report_recovery_failure : ℕ → HaStateMachine W → HaStateMachine W × Bool
  report_recovery_failure now m =
      let attempts = u32_inc m.recovery_attempt_count in
      if leb m.max_recovery_attempts attempts
      then transition_to manual_intervention now (record m { recovery_attempt_count = 0 })
      else (record m { recovery_attempt_count = attempts }, true)

  unfoldable pub respond :
      FailureType → RecoveryAction → ℕ → HaStateMachine W → HaStateMachine W × Bool
  respond f a now m =
      let (n, done) = execute_recovery_action a m in
      if done
      then transition_to (determine_target_state f a) now n
      else report_recovery_failure now n

  unfoldable pub handle_failure : FailureType → ℕ → HaStateMachine W → HaStateMachine W × Bool
  handle_failure f now m = elim (m.recovery_policies f) [
    | none ↦ (m, false)
    | some a ↦ respond f a now m
  ]

  -- `now - state_entered_at` of a steady clock in nanoseconds, as milliseconds.
  unfoldable pub get_time_in_current_state : ℕ → HaStateMachine W → ℕ
  get_time_in_current_state now m = (now - m.state_entered_at) / 1000000
