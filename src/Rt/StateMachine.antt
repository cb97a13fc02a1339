-- ===== src/Rt/StateMachine.antt =====
-- src/core/rt/RTStateMachine.{h,cpp}. `W` is the state behind the callback, which does not call the
-- machine back.
pub mod Runs
use mxrc.Common.{ℕ, String, Bool, true, false, Option, none, some, ◌==◌, if◌then◌else◌}

pub data RtState : Type 0 where
  init ready running paused safe_mode error shutdown : RtState

pub data RtEvent : Type 0 where
  start pause resume stop error_occur safe_mode_enter safe_mode_exit reset : RtEvent

-- The enumerator's value.
abbrev pub state_index : RtState → ℕ
state_index init = 0
state_index ready = 1
state_index running = 2
state_index paused = 3
state_index safe_mode = 4
state_index error = 5
state_index shutdown = 6

unfoldable pub state_to_string : RtState → String
state_to_string init = "INIT"
state_to_string ready = "READY"
state_to_string running = "RUNNING"
state_to_string paused = "PAUSED"
state_to_string safe_mode = "SAFE_MODE"
state_to_string error = "ERROR"
state_to_string shutdown = "SHUTDOWN"

unfoldable pub event_to_string : RtEvent → String
event_to_string start = "START"
event_to_string pause = "PAUSE"
event_to_string resume = "RESUME"
event_to_string stop = "STOP"
event_to_string error_occur = "ERROR_OCCUR"
event_to_string safe_mode_enter = "SAFE_MODE_ENTER"
event_to_string safe_mode_exit = "SAFE_MODE_EXIT"
event_to_string reset = "RESET"

-- The switch of handleEvent: the state itself where the event has no transition.
unfoldable pub next_state : RtState → RtEvent → RtState
next_state init start = ready
next_state init error_occur = error
next_state ready start = running
next_state ready error_occur = error
next_state ready stop = shutdown
next_state running pause = paused
next_state running stop = shutdown
next_state running error_occur = error
next_state running safe_mode_enter = safe_mode
next_state paused resume = running
next_state paused stop = shutdown
next_state paused error_occur = error
next_state safe_mode safe_mode_exit = running
next_state safe_mode stop = shutdown
next_state safe_mode error_occur = error
next_state error reset = init
next_state error stop = shutdown
next_state s _ = s

pub record RtStateMachine (W : Type 0) : Type 0 where
  pub current_state : RtState
  pub transition_callback : Option (RtState → RtState → RtEvent → W → W)
  pub world : W

-- What handleEvent answers: 0 and -1.
pub data Answer : Type 0 where
  done refused : Answer

module _ {W : Type 0} where
  unfoldable pub new : W → RtStateMachine W
  new w = record { current_state = init; transition_callback = none; world = w }

  unfoldable pub set_transition_callback :
      Option (RtState → RtState → RtEvent → W → W) → RtStateMachine W → RtStateMachine W
  set_transition_callback f m = record m { transition_callback = f }

  unfoldable pub transition_to : RtState → RtEvent → RtStateMachine W → RtStateMachine W
  transition_to to event m = record m {
    current_state = to;
    world = elim m.transition_callback [
      | none ↦ m.world
      | some f ↦ f m.current_state to event m.world
    ];
  }

  unfoldable pub handle_event : RtEvent → RtStateMachine W → RtStateMachine W × Answer
  handle_event event m =
      let next = next_state m.current_state event in
      if state_index next == state_index m.current_state
      then (m, refused)
      else (transition_to next event m, done)
