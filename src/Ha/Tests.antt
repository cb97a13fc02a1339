-- ===== src/Ha/Tests.antt =====
-- Runs of the high-availability state machine and of the failover manager on small inputs.
use mxrc.Common.{
  ℕ, ◌+◌, ◌*◌, ◌≡◌, refl, inl, String, Bool, true, false, none, some, List, [], ◌∷◌, arith,
}
use mxrc.Ha.Policy.{
  HaState, FailureType, RecoveryAction, normal, safe_mode, recovery_in_progress,
  manual_intervention, motor_overcurrent, memory_exhaustion, rt_process_crash, enter_safe_mode,
  restart_rt_process, get_default_policies, is_complete,
}
use mxrc.Ha.StateMachine.{
  HaStateMachine, new, report_recovery_failure, handle_failure, register_state_transition_callback,
}
use mxrc.Ha.StateMachine.Attempts.{failures, failures-manual_intervention}
use mxrc.Ha.StateMachine.Trace
use mxrc.Ha.StateMachine.Trace.{run-IsTrace}
use mxrc.Ha.StateMachine.Responses.{IsHandled, overcurrent, handle_failure-critical}
use mxrc.Ha.Failover
use mxrc.Ha.Failover.{FailoverPolicy, FailoverManager, PolicyJson, missing, given}
use mxrc.Ha.Failover.Limits
use mxrc.Ha.Failover.Limits.{failure-starts_window, load_policy-keeps_invalid}

-- The actions carried out so far.
abbrev works : RecoveryAction → List RecoveryAction → List RecoveryAction × Bool
works a w = (a ∷ w, true)

-- A machine in a state, with the default policies and a callback that always works.
abbrev machine : HaState → HaStateMachine (List RecoveryAction)
machine s = record {
  current_state = s;
  previous_state = normal;
  recovery_policies = get_default_policies;
  recovery_attempt_count = 0;
  max_recovery_attempts = 3;
  state_entered_at = 0;
  state_transition_callback = none;
  recovery_action_callback = some works;
  world = [];
}

defaults_complete : is_complete get_default_policies ≡ true
unfolding is_complete get_default_policies
defaults_complete = refl

failures-manual_intervention_example :
    (report_recovery_failure 3
      (failures (1 ∷ 2 ∷ []) (machine recovery_in_progress))).0.current_state
    ≡ manual_intervention
failures-manual_intervention_example =
    (failures-manual_intervention (1 ∷ 2 ∷ []) 3 (machine recovery_in_progress) refl refl
      (omega arith) (inl refl)).1

abbrev calls : List (ℕ × Trace.Call ℕ)
calls =
    (1, Trace.moves recovery_in_progress)
    ∷ (2, Trace.recovers_not)
    ∷ (3, Trace.fails memory_exhaustion)
    ∷ (4, Trace.succeeds)
    ∷ []

-- Nothing happens behind the callback.
abbrev ignores : HaState → HaState → FailureType → ℕ → ℕ
ignores from to failure n = n

run-IsTrace_example :
    let m =
      Trace.run
        (register_state_transition_callback (some (Trace.logging ignores)) (new 3 0 (7, [])))
        calls in
    Trace.IsChain m.current_state m.world.1
run-IsTrace_example = run-IsTrace 3 0 7 ignores calls

overcurrent-IsHandled :
    (s : HaState) → IsHandled (machine s) motor_overcurrent enter_safe_mode (enter_safe_mode ∷ [])
unfolding get_default_policies
overcurrent-IsHandled s = record { policy = refl; acts = works; callback = refl; works = refl }

handle_failure-critical_example :
    (handle_failure motor_overcurrent 5 (machine normal)).0.current_state ≡ safe_mode
handle_failure-critical_example =
    (handle_failure-critical (machine normal) motor_overcurrent 5 enter_safe_mode
      (enter_safe_mode ∷ []) overcurrent (overcurrent-IsHandled normal) (inl refl)).1

crash-IsHandled :
    IsHandled (machine safe_mode) rt_process_crash restart_rt_process (restart_rt_process ∷ [])
unfolding get_default_policies
crash-IsHandled = record { policy = refl; acts = works; callback = refl; works = refl }

abbrev second : ℕ
second = 1000000000

abbrev day : ℕ
day = 86400 * second

abbrev rt_policy : FailoverPolicy
rt_policy = record {
  process_name = "rt";
  health_check_interval_ms = 1000;
  health_check_timeout_ms = 500;
  failure_threshold = 3;
  restart_delay_ms = 100;
  max_restart_count = 2;
  restart_window_sec = 60;
  enable_state_recovery = true;
  checkpoint_interval_sec = 60;
  enable_leader_election = false;
}

abbrev idle : FailoverManager (List String)
idle = record { policy = rt_policy; restart_tracking = []; running = true; world = [] }

abbrev restarted : FailoverManager (List String)
restarted = record idle { restart_tracking = ("rt", record { count = 1; window_start = day }) ∷ [] }

-- Two checkpoints are there, and the names of the loaded ones are kept.
abbrev checkpoints : Failover.Checkpoints (List String)
checkpoints = record {
  list_checkpoints = λ w. (w, some ("older" ∷ "newer" ∷ []));
  load_checkpoint = λ id w. (id ∷ w, true);
}

abbrev crashes : List (ℕ × ℕ)
crashes = (day, day) ∷ (day + second, day + second) ∷ []

abbrev no_restarts : PolicyJson
no_restarts = record {
  process_name = missing;
  health_check_interval_ms = missing;
  health_check_timeout_ms = missing;
  failure_threshold = missing;
  restart_delay_ms = missing;
  max_restart_count = given 0;
  restart_window_sec = missing;
  enable_state_recovery = missing;
  checkpoint_interval_sec = missing;
  enable_leader_election = missing;
}
