-- ===== src/Rt/Executive/Watch.antt =====
-- src/core/rt/RTExecutive.cpp, checkHeartbeat: SAFE_MODE when the other process stops beating.
use mxrc.Common.{ℕ, ◌+◌, ◌-◌, ◌/◌, ◌%◌, ◌^◌, none, some, ltb, if◌then◌else◌}
use mxrc.Rt.StateMachine.{running, safe_mode, safe_mode_enter, safe_mode_exit, handle_event}
use mxrc.Rt.Executive.{
  SharedMemory, RtExecutive, safe_mode_entered, safe_mode_exited, heartbeat_timeout_ns, publish,
  in_state, with_world,
}

-- The unsigned difference of two 64-bit times.
unfoldable pub since : ℕ → ℕ → ℕ
since now then_ns = (now + 2 ^ 64 - then_ns) % 2 ^ 64

module _ {W : Type 0} where
  unfoldable pub enter_safe_mode : ℕ → ℕ → RtExecutive W → RtExecutive W
  enter_safe_mode now elapsed e =
      let w =
        publish e.event_bus (safe_mode_entered (elapsed / 1000000) "Non-RT heartbeat timeout")
          e.state_machine.world in
      record e {
        safe_mode_enter_time_ns = now;
        state_machine = (handle_event safe_mode_enter (with_world w e.state_machine)).0;
      }

  unfoldable pub exit_safe_mode : ℕ → RtExecutive W → RtExecutive W
  exit_safe_mode now e =
      let w =
        if ltb 0 e.safe_mode_enter_time_ns
        then publish e.event_bus (safe_mode_exited (since now e.safe_mode_enter_time_ns / 1000000))
            e.state_machine.world
        else e.state_machine.world in
      record e {
        safe_mode_enter_time_ns = 0;
        state_machine = (handle_event safe_mode_exit (with_world w e.state_machine)).0;
      }

  -- `now` is read before the other process's heartbeat is.
  unfoldable pub check_memory : ℕ → SharedMemory → RtExecutive W → RtExecutive W
  check_memory now memory e =
      let elapsed = since now memory.nonrt_heartbeat_ns in
      let checked =
        if ltb heartbeat_timeout_ns elapsed
        then (if in_state running e then enter_safe_mode now elapsed e else e)
        else (if in_state safe_mode e then exit_safe_mode now e else e) in
      record checked { shared_memory = some (record memory { rt_heartbeat_ns = now }) }

  unfoldable pub check_heartbeat : ℕ → RtExecutive W → RtExecutive W
  check_heartbeat now e =
      if e.heartbeat_monitoring_enabled
      then elim e.shared_memory [ none ↦ e | some memory ↦ check_memory now memory e ]
      else e
