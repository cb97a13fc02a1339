-- ===== src/Rt/Executive/Tests.antt =====
-- Runs of the cyclic executive with three slots of ten milliseconds.
use native.Mathlib.Nat as Nat
use mxrc.Common.{ℕ, ◌≡◌, refl, Bool, true, false, Option, none, some, List, [], ◌∷◌, arith}
use mxrc.Rt.StateMachine.{RtState, running, safe_mode, handle_event, next_state}
use mxrc.Rt.Executive.{
  Context, RtExecutive, new_action, items_of, register_action, execute_slot, execute_actions,
  execute_action, is_allowed, heartbeat_timeout_ns, in_state, register_loop, push_at,
}
use mxrc.Rt.Executive.Loop.{
  Tick, run, run_cycles, start_run, cycle, update_context, advance, receive_beat, stop_run,
}
use mxrc.Rt.Executive.Watch.{check_heartbeat, check_memory, since}
use mxrc.Rt.Executive.Cycles.{register_action-periodic}
use mxrc.Rt.Executive.Heartbeat.{check_heartbeat-state}

-- An executive in a state; the world is the list of the slots in which the callback ran.
abbrev executive : RtState → ℕ → RtExecutive (List ℕ)
executive s beat = record {
  minor_cycle_ms = 10;
  major_cycle_ms = 40;
  num_slots = 4;
  is_running = false;
  current_slot = 0;
  cycle_count = 0;
  context = record { data_store = none; current_slot = 0; cycle_count = 0; timestamp_ns = 0 };
  state_machine = record { current_state = s; transition_callback = none; world = [] };
  shared_memory = some (record { nonrt_heartbeat_ns = beat; rt_heartbeat_ns = 0 });
  heartbeat_monitoring_enabled = true;
  last_heartbeat_check_ns = 0;
  safe_mode_enter_time_ns = 0;
  event_bus = none;
  schedule = [] ∷ [] ∷ [] ∷ [] ∷ [];
  init_hooks = [];
}

abbrev logs : Context → List ℕ → Context × List ℕ
logs c w = (c, c.current_slot ∷ w)

abbrev quiet : ℕ → Tick
quiet now = record { beat = none; stops = false; now_ns = now }

check_heartbeat-state_example :
    ((check_heartbeat 600000000 (executive running 50000000)).state_machine.current_state
      ≡ safe_mode)
    × ((check_heartbeat 600000000 (executive running 50000000)).shared_memory
        ≡ some (record { nonrt_heartbeat_ns = 50000000; rt_heartbeat_ns = 600000000 }))
check_heartbeat-state_example =
    check_heartbeat-state 600000000 (record { nonrt_heartbeat_ns = 50000000; rt_heartbeat_ns = 0 })
      (executive running 50000000) refl refl (omega arith) (omega arith)

register_action-periodic_example :
    (e' : RtExecutive (List ℕ)) × (register_action 5 "other" 20
        (some logs)
        none
        (executive running 0)
      ≡ some (e', true))
    × (items_of
          (run (quiet 1 ∷ quiet 2 ∷ []) 0 e').current_slot
          (run (quiet 1 ∷ quiet 2 ∷ []) 0 e').schedule
        ≡ new_action "other" 20 (some logs) none 2 ∷ [])
unfolding items_of
register_action-periodic_example =
    register_action-periodic "other" 20 (some logs) none (executive running 0)
      (quiet 1 ∷ quiet 2 ∷ []) 0 (omega arith) (omega arith) (omega arith) (omega arith)
      (Nat.dvd-mul_right 2 2) (omega arith) refl (refl, (refl, tt))

-- The callback of a 20 ms action runs in the slots 0 and 2 of five cycles.
abbrev logged : Option (RtExecutive (List ℕ) × Bool) → Option (List ℕ)
unfolding run run_cycles start_run cycle update_context execute_slot execute_actions execute_action
    is_allowed advance receive_beat stop_run items_of check_heartbeat check_memory since
    heartbeat_timeout_ns in_state handle_event next_state
logged none = none
logged (some (e, done)) =
    some (run (quiet 1 ∷ quiet 2 ∷ quiet 3 ∷ quiet 4 ∷ quiet 5 ∷ []) 0 e).state_machine.world

logged_lem :
    logged (register_action 5 "other" 20 (some logs) none (executive running 0))
    ≡ some (0 ∷ 2 ∷ 0 ∷ [])
unfolding register_action register_loop push_at logged
logged_lem = refl
