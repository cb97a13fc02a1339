-- ===== src/Rt/Executive/Heartbeat.antt =====
-- src/core/rt/RTExecutive.cpp: how `checkHeartbeat` drives the state machine.
use mxrc.Common.{
  ℕ, ◌-◌, ◌^◌, ◌≤◌, ◌<◌, ◌≡◌, refl, inl, inr, Bool, true, false, some, ltb, if◌then◌else◌,
  Bool-cases, arith,
}
use mxrc.Rt.StateMachine.{
  RtState, init, ready, running, paused, safe_mode, error, shutdown, handle_event, next_state,
  transition_to,
}
use mxrc.Rt.Executive.{RtExecutive, SharedMemory, heartbeat_timeout_ns, in_state, with_world}
use mxrc.Rt.Executive.Watch.{check_memory, check_heartbeat, since, enter_safe_mode, exit_safe_mode}

-- What a check makes of the state, by whether the other process is late.
abbrev pub after_check : Bool → RtState → RtState
after_check true running = safe_mode
after_check false safe_mode = running
after_check late s = s

module _ {W : Type 0} where
  checked-late :
      (now elapsed : ℕ) (e : RtExecutive W) (s : RtState)
      → e.state_machine.current_state ≡ s
      → (if in_state running e
          then enter_safe_mode now elapsed e
          else e).state_machine.current_state
        ≡ after_check true s
  unfolding in_state enter_safe_mode exit_safe_mode handle_event next_state transition_to with_world
  checked-late now elapsed e running p = rw p refl
  checked-late now elapsed e init p = rw p refl
  checked-late now elapsed e ready p = rw p refl
  checked-late now elapsed e paused p = rw p refl
  checked-late now elapsed e safe_mode p = rw p refl
  checked-late now elapsed e error p = rw p refl
  checked-late now elapsed e shutdown p = rw p refl

  checked-on_time :
      (now : ℕ) (e : RtExecutive W) (s : RtState)
      → e.state_machine.current_state ≡ s
      → (if in_state safe_mode e then exit_safe_mode now e else e).state_machine.current_state
        ≡ after_check false s
  unfolding in_state enter_safe_mode exit_safe_mode handle_event next_state transition_to with_world
  checked-on_time now e safe_mode p = rw p refl
  checked-on_time now e running p = rw p refl
  checked-on_time now e init p = rw p refl
  checked-on_time now e ready p = rw p refl
  checked-on_time now e paused p = rw p refl
  checked-on_time now e error p = rw p refl
  checked-on_time now e shutdown p = rw p refl

  check_memory-state :
      (now : ℕ) (memory : SharedMemory) (e : RtExecutive W)
      → (check_memory now memory e).state_machine.current_state
        ≡ after_check
            (ltb heartbeat_timeout_ns (since now memory.nonrt_heartbeat_ns))
            e.state_machine.current_state
  unfolding check_memory
  check_memory-state now memory e =
      elim (Bool-cases (ltb heartbeat_timeout_ns (since now memory.nonrt_heartbeat_ns))) [
        | inl h ↦ rw h (
            checked-late now (since now memory.nonrt_heartbeat_ns) e e.state_machine.current_state
              refl)
        | inr h ↦ rw h (checked-on_time now e e.state_machine.current_state refl)
      ]

  checks_memory :
      (now : ℕ) (memory : SharedMemory) (e : RtExecutive W)
      → e.heartbeat_monitoring_enabled ≡ true
      → e.shared_memory ≡ some memory
      → check_heartbeat now e ≡ check_memory now memory e
  unfolding check_heartbeat
  checks_memory now memory e on there = simp (on, there)

  -- With monitoring on and the shared memory there, a check at a 64-bit time not before the other
  -- process's heartbeat: that process is late exactly if more than half a second has passed since. A late one
  -- moves RUNNING to SAFE_MODE, another one SAFE_MODE to RUNNING, and every other state stays. The
  -- own heartbeat is written, and the other one is left alone.
  pub check_heartbeat-state :
      (now : ℕ) (memory : SharedMemory) (e : RtExecutive W)
      → e.heartbeat_monitoring_enabled ≡ true
      → e.shared_memory ≡ some memory
      → memory.nonrt_heartbeat_ns ≤ now
      → now < 2 ^ 64
      → ((check_heartbeat now e).state_machine.current_state
          ≡ after_check
              (ltb 500000000 (now - memory.nonrt_heartbeat_ns))
              e.state_machine.current_state)
        × ((check_heartbeat now e).shared_memory ≡ some (record memory { rt_heartbeat_ns = now }))
  unfolding check_memory since heartbeat_timeout_ns
  check_heartbeat-state now memory e on there order bound =
      let elapsed : since now memory.nonrt_heartbeat_ns ≡ now - memory.nonrt_heartbeat_ns =
        omega arith in
      let same = checks_memory now memory e on there in
      let state = check_memory-state now memory e in (rw (same, state, elapsed) refl, rw same refl)

  -- With monitoring on and the shared memory there, a heartbeat that the other process writes after
  -- the clock is read, less than 2 ^ 64 - 500000000 nanoseconds ahead, takes a running executive to
  -- SAFE_MODE.
  pub check_heartbeat-ahead :
      (now : ℕ) (memory : SharedMemory) (e : RtExecutive W)
      → e.heartbeat_monitoring_enabled ≡ true
      → e.shared_memory ≡ some memory
      → e.state_machine.current_state ≡ running
      → now < memory.nonrt_heartbeat_ns
      → memory.nonrt_heartbeat_ns < 2 ^ 64
      → memory.nonrt_heartbeat_ns - now < 2 ^ 64 - 500000000
      → (check_heartbeat now e).state_machine.current_state ≡ safe_mode
  unfolding since heartbeat_timeout_ns
  check_heartbeat-ahead now memory e on there runs order bound ahead =
      let late : ltb heartbeat_timeout_ns (since now memory.nonrt_heartbeat_ns) ≡ true =
        ground arith in
      rw (checks_memory now memory e on there, check_memory-state now memory e, late, runs) refl
