-- ===== src/Rt/Tests.antt =====
-- Runs of the RT state machine on small inputs.
use mxrc.Common.{some, List, [], ◌∷◌}
use mxrc.Rt.StateMachine.{
  RtEvent, RtStateMachine, safe_mode, start, pause, stop, reset, safe_mode_enter, new,
  set_transition_callback,
}
use mxrc.Rt.StateMachine.Runs.{Log, IsChain, log, run, run-IsChain}

abbrev in_safe_mode : RtStateMachine Log
in_safe_mode = record { current_state = safe_mode; transition_callback = some log; world = [] }

abbrev events : List RtEvent
events = start ∷ pause ∷ start ∷ safe_mode_enter ∷ stop ∷ reset ∷ []

run-IsChain_example :
    let m = run (set_transition_callback (some log) (new [])) events in
    IsChain m.current_state m.world
run-IsChain_example = run-IsChain events
