-- ===== src/Rt/Executive/Loop.antt =====
-- src/core/rt/RTExecutive.cpp: the main loop, its stop, and the initialization hooks.
use mxrc.Common.{
  ℕ, ◌+◌, ◌*◌, ◌%◌, ◌^◌, String, Bool, true, false, Option, none, some, List, [], ◌∷◌, ◌++◌,
  if◌then◌else◌, u64_inc,
}
use mxrc.Rt.StateMachine.{ready, running, paused, start, stop, handle_event}
use mxrc.Rt.Executive.Watch.{check_heartbeat}
use mxrc.Rt.Executive.{InitHook, RtExecutive, execute_slot, in_state, with_world}

-- What other threads and the other process do before a cycle, and the clock at it.
pub record Tick : Type 0 where
  pub beat : Option ℕ
  pub stops : Bool
  pub now_ns : ℕ

module _ {W : Type 0} where
  unfoldable pub start_run : RtExecutive W → RtExecutive W
  start_run e = record e {
    state_machine =
        if in_state ready e then (handle_event start e.state_machine).0 else e.state_machine;
    is_running = true;
    current_slot = 0;
    cycle_count = 0;
  }

  unfoldable pub update_context : ℕ → RtExecutive W → RtExecutive W
  update_context cycle_start e = record e {
    context = record (RtExecutive.context e) {
      current_slot = e.current_slot;
      cycle_count = e.cycle_count;
      timestamp_ns = cycle_start;
    };
  }

  unfoldable pub advance : RtExecutive W → RtExecutive W
  advance e = record e {
    current_slot = (e.current_slot + 1) % e.num_slots;
    cycle_count = u64_inc e.cycle_count;
  }

  -- One turn of the main loop: the start of the cycle, and the clock at the check.
  unfoldable pub cycle : ℕ → ℕ → RtExecutive W → RtExecutive W
  cycle cycle_start now e =
      let checked = check_heartbeat now (update_context cycle_start e) in
      advance (execute_slot checked.current_slot checked)

  -- `stop`, which another thread calls.
  unfoldable pub stop_run : RtExecutive W → RtExecutive W
  stop_run e =
      if e.is_running
      then record e {
        is_running = false;
        state_machine =
            if in_state running e
            then (handle_event stop e.state_machine).0
            else if in_state paused e
            then (handle_event stop e.state_machine).0
            else e.state_machine;
      }
      else e

  unfoldable pub register_initialization_hook :
      String → (W → W × Bool) → RtExecutive W → RtExecutive W
  register_initialization_hook name hook e = record e {
    init_hooks = e.init_hooks ++ (record { name = name; hook = hook }) ∷ [];
  }

  -- The hooks in order, up to the first that throws.
  unfoldable pub run_hooks : List (InitHook W) → W → W × Bool
  run_hooks [] w = (w, true)
  run_hooks (h ∷ rest) w =
      let (v, worked) = InitHook.hook h w in
      let others = run_hooks rest v in if worked then others else (v, false)

  unfoldable pub execute_initialization_hooks : RtExecutive W → RtExecutive W × Bool
  execute_initialization_hooks e =
      let (w, worked) = run_hooks e.init_hooks e.state_machine.world in
      (record e { state_machine = with_world w e.state_machine }, worked)

  unfoldable pub receive_beat : Option ℕ → RtExecutive W → RtExecutive W
  receive_beat none e = e
  receive_beat (some ns) e = elim e.shared_memory [
    | none ↦ e
    | some memory ↦ record e { shared_memory = some (record memory { nonrt_heartbeat_ns = ns }) }
  ]

  -- The main loop over the ticks to come: each cycle starts a minor cycle after the last.
  unfoldable pub run_cycles : List Tick → ℕ → RtExecutive W → RtExecutive W
  run_cycles [] cycle_start e = e
  run_cycles (t ∷ ticks) cycle_start e =
      let before = receive_beat t.beat (if t.stops then stop_run e else e) in
      let rest =
        run_cycles ticks ((cycle_start + before.minor_cycle_ms * 1000000) % 2 ^ 64)
          (cycle cycle_start t.now_ns before) in
      if before.is_running then rest else before

  unfoldable pub run : List Tick → ℕ → RtExecutive W → RtExecutive W
  run ticks now e = run_cycles ticks now (start_run e)
