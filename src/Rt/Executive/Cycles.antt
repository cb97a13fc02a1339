-- ===== src/Rt/Executive/Cycles.antt =====
-- src/core/rt/RTExecutive.cpp: the slots that the main loop comes to.
use Prim.Native.Nat.{◌∣◌}
use native.Mathlib.Nat as Nat
use mxrc.Common.{
  ℕ, zero, suc, ◌+◌, ◌*◌, ◌/◌, ◌%◌, ◌^◌, ◌≤◌, ◌<◌, ◌≡◌, refl, sym, ap, ◌∙◌, String, Bool, true,
  false, Option, none, some, List, [], ◌∷◌, ◌++◌, length, All, ◌==◌, ltb, if◌then◌else◌, Bool-cases,
  Option-cases, inl, inr, u64_inc, arith,
}
use mxrc.Rt.StateMachine.{RtStateMachine, running, safe_mode}
use mxrc.Rt.Executive.{
  Context, new_action, register_action, ActionSlot, RtExecutive, SharedMemory, items_of, is_allowed,
  execute_action, execute_actions, execute_slot, heartbeat_timeout_ns, in_state,
}
use mxrc.Rt.Executive.Loop.{
  Tick, update_context, advance, cycle, receive_beat, stop_run, start_run, run_cycles, run,
}
use mxrc.Rt.Executive.Watch.{check_memory, check_heartbeat, since, enter_safe_mode, exit_safe_mode}
use mxrc.Rt.Executive.Schedule.{register_action-slots}

taken : {A : Type 0} (b : Bool) (x y : A) → b ≡ true → (if b then x else y) ≡ x
taken b x y h = rw h refl

-- `n` more steps around a ring after one.
later : (i n ring : ℕ) → ((i + 1) % ring + n) % ring ≡ (i + suc n) % ring
later i n ring =
    Nat.mod-add-mod (i + 1) ring n
    ∙ ap (λ (j : ℕ). j % ring) (let e : i + 1 + n ≡ i + suc n = omega arith in e)

-- What a cycle leaves alone, up to its last step.
record Frame (W : Type 0) : Type 0 where
  num_slots : ℕ
  minor_cycle_ms : ℕ
  current_slot : ℕ
  cycle_count : ℕ
  is_running : Bool
  schedule : List (List (ActionSlot W))

module _ {W : Type 0} where
  abbrev frame : RtExecutive W → Frame W
  frame e = record {
    num_slots = e.num_slots;
    minor_cycle_ms = e.minor_cycle_ms;
    current_slot = e.current_slot;
    cycle_count = e.cycle_count;
    is_running = e.is_running;
    schedule = e.schedule;
  }

  frame-execute_action :
      (a : ActionSlot W) (e : RtExecutive W) → frame (execute_action a e) ≡ frame e
  unfolding execute_action
  frame-execute_action a e = elim (Bool-cases (is_allowed a e.state_machine)) [
    | inl h ↦ elim (Option-cases a.callback) [
      | inl g ↦ rw (h, g) refl
      | inr (f, g) ↦ rw (h, g) refl
    ]
    | inr h ↦ rw h refl
  ]

  frame-execute_actions :
      (l : List (ActionSlot W)) (e : RtExecutive W) → frame (execute_actions l e) ≡ frame e
  unfolding execute_actions
  frame-execute_actions [] e = refl
  frame-execute_actions (a ∷ rest) e =
      frame-execute_actions rest (execute_action a e) ∙ frame-execute_action a e

  frame-check_memory :
      (now : ℕ) (memory : SharedMemory) (e : RtExecutive W)
      → frame (check_memory now memory e) ≡ frame e
  unfolding check_memory enter_safe_mode exit_safe_mode
  frame-check_memory now memory e =
      elim (Bool-cases (ltb heartbeat_timeout_ns (since now memory.nonrt_heartbeat_ns))) [
        | inl h ↦ elim (Bool-cases (in_state running e)) [
          | inl g ↦ rw (h, g) refl
          | inr g ↦ rw (h, g) refl
        ]
        | inr h ↦ elim (Bool-cases (in_state safe_mode e)) [
          | inl g ↦ rw (h, g) refl
          | inr g ↦ rw (h, g) refl
        ]
      ]

  frame-check_heartbeat : (now : ℕ) (e : RtExecutive W) → frame (check_heartbeat now e) ≡ frame e
  unfolding check_heartbeat
  frame-check_heartbeat now e = elim (Bool-cases e.heartbeat_monitoring_enabled) [
    | inl h ↦ elim (Option-cases e.shared_memory) [
      | inl g ↦ rw (h, g) refl
      | inr (memory, g) ↦ rw (h, g) (frame-check_memory now memory e)
    ]
    | inr h ↦ rw h refl
  ]

  frame-receive_beat : (beat : Option ℕ) (e : RtExecutive W) → frame (receive_beat beat e) ≡ frame e
  unfolding receive_beat
  frame-receive_beat none e = refl
  frame-receive_beat (some ns) e = elim (Option-cases e.shared_memory) [
    | inl g ↦ rw g refl
    | inr (memory, g) ↦ rw g refl
  ]

  abbrev stepped : Frame W → Frame W
  stepped f = record f {
    current_slot = (Frame.current_slot f + 1) % Frame.num_slots f;
    cycle_count = u64_inc (Frame.cycle_count f);
  }

  frame-cycle :
      (cycle_start now : ℕ) (e : RtExecutive W)
      → frame (cycle cycle_start now e) ≡ stepped (frame e)
  unfolding cycle advance execute_slot update_context
  frame-cycle cycle_start now e =
      let checked = check_heartbeat now (update_context cycle_start e) in
      ap stepped (
        frame-execute_actions (items_of checked.current_slot checked.schedule) checked
        ∙ frame-check_heartbeat now (update_context cycle_start e))

  abbrev before : Tick → RtExecutive W → RtExecutive W
  before t e = receive_beat t.beat (if t.stops then stop_run e else e)

  frame-before : (t : Tick) (e : RtExecutive W) → t.stops ≡ false → frame (before t e) ≡ frame e
  frame-before t e h = rw h (frame-receive_beat t.beat e)

  -- The frame after so many ticks at which nobody stops the executive.
  abbrev after : ℕ → Frame W → Frame W
  after zero f = f
  after (suc n) f = after n (stepped f)

  frame-run_cycles :
      (ticks : List Tick) (cycle_start : ℕ) (e : RtExecutive W)
      → e.is_running ≡ true
      → All (λ t. t.stops ≡ false) ticks
      → frame (run_cycles ticks cycle_start e) ≡ after (length ticks) (frame e)
  unfolding run_cycles
  frame-run_cycles [] cycle_start e h hs = refl
  frame-run_cycles (t ∷ ticks) cycle_start e h hs =
      let same = frame-before t e hs.0 in
      let going : (before t e).is_running ≡ true =
        ap (λ (f : Frame W). Frame.is_running f) same ∙ h in
      let stepped_frame = frame-cycle cycle_start t.now_ns (before t e) ∙ ap stepped same in
      ap frame (
        taken (before t e).is_running
          (run_cycles ticks ((cycle_start + (before t e).minor_cycle_ms * 1000000) % 2 ^ 64)
            (cycle cycle_start t.now_ns (before t e)))
          (before t e) going)
      ∙ frame-run_cycles ticks ((cycle_start + (before t e).minor_cycle_ms * 1000000) % 2 ^ 64)
          (cycle cycle_start t.now_ns (before t e))
          (ap (λ (f : Frame W). Frame.is_running f) stepped_frame ∙ h) hs.1
      ∙ ap (after (length ticks)) stepped_frame

  after-fields :
      (n : ℕ) (f : Frame W)
      → 0 < Frame.num_slots f
      → Frame.current_slot f < Frame.num_slots f
      → Frame.cycle_count f < 2 ^ 64
      → (Frame.current_slot (after n f) ≡ (Frame.current_slot f + n) % Frame.num_slots f)
        × (Frame.cycle_count (after n f) ≡ (Frame.cycle_count f + n) % 2 ^ 64)
        × (Frame.schedule (after n f) ≡ Frame.schedule f)
        × (Frame.num_slots (after n f) ≡ Frame.num_slots f)
        × (Frame.is_running (after n f) ≡ Frame.is_running f)
  after-fields zero f h s c = (
    sym (
        ap (λ (i : ℕ). i % Frame.num_slots f) (Nat.add-zero (Frame.current_slot f))
        ∙ Nat.mod-eq_of_lt s),
    omega arith,
    refl,
    refl,
    refl,
  )
  after-fields (suc n) f h s c =
      let ih =
        after-fields n (stepped f) h (Nat.mod-lt (Frame.current_slot f + 1) h) (omega arith) in
      (
        ih.0 ∙ later (Frame.current_slot f) n (Frame.num_slots f),
        ih.1 ∙ later (Frame.cycle_count f) n (2 ^ 64),
        ih.2,
        ih.3,
        ih.4,
      )

  -- With at least one slot, and ticks at which nobody stops the executive: it still runs, the slot
  -- and the count are those of the number of cycles, and the schedule is unchanged.
  pub run-slot :
      (ticks : List Tick) (now : ℕ) (e : RtExecutive W)
      → 0 < e.num_slots
      → All (λ t. t.stops ≡ false) ticks
      → ((run ticks now e).current_slot ≡ length ticks % e.num_slots)
        × ((run ticks now e).cycle_count ≡ length ticks % 2 ^ 64)
        × ((run ticks now e).schedule ≡ e.schedule)
        × ((run ticks now e).is_running ≡ true)
  unfolding run start_run
  run-slot ticks now e h hs =
      let same = frame-run_cycles ticks now (start_run e) refl hs in
      let start_at : 0 + length ticks ≡ length ticks = omega arith in
      let fields = after-fields (length ticks) (frame (start_run e)) h h (omega arith) in
      (
        ap (λ (f : Frame W). Frame.current_slot f) same
            ∙ fields.0
            ∙ ap (λ (i : ℕ). i % e.num_slots) start_at,
        ap (λ (f : Frame W). Frame.cycle_count f) same
            ∙ fields.1
            ∙ ap (λ (i : ℕ). i % 2 ^ 64) start_at,
        ap (λ (f : Frame W). Frame.schedule f) same ∙ fields.2,
        ap (λ (f : Frame W). Frame.is_running f) same ∙ fields.4,
      )

module _ {W : Type 0} where
  -- The registration ends, for a period of at least one minor cycle that is a multiple of it and
  -- whose interval divides the number of slots, the two together at most 2^32. After any ticks at which nobody stops the executive,
  -- the next cycle's slot holds what it held before the registration, and also the action exactly
  -- where the interval divides the number of cycles so far.
  pub register_action-periodic :
      (name : String) (period : ℕ) (callback : Option (Context → W → Context × W))
      (guard : Option (RtStateMachine W → Bool)) (e : RtExecutive W) (ticks : List Tick) (now : ℕ)
      → 0 < e.minor_cycle_ms
      → 0 < period
      → period % e.minor_cycle_ms ≡ 0
      → 0 < e.num_slots
      → period / e.minor_cycle_ms ∣ e.num_slots
      → e.num_slots + period / e.minor_cycle_ms ≤ 2 ^ 32
      → length e.schedule ≡ e.num_slots
      → All (λ t. t.stops ≡ false) ticks
      → (e' : RtExecutive W) × (register_action (suc e.num_slots) name period callback guard e
          ≡ some (e', true))
        × (items_of (run ticks now e').current_slot (run ticks now e').schedule ≡ (
            if length ticks % (period / e.minor_cycle_ms) == 0
            then items_of (length ticks % e.num_slots) e.schedule
              ++ new_action name period callback guard (period / e.minor_cycle_ms) ∷ []
            else items_of (length ticks % e.num_slots) e.schedule))
  register_action-periodic name period callback guard e ticks now minor_pos period_pos divides
        slots_pos ring bound fits hs =
      let interval : ℕ = period / e.minor_cycle_ms in
      let slot : ℕ = length ticks % e.num_slots in
      let (e', same_slots, made, long, found) =
        register_action-slots name period callback guard e slot minor_pos period_pos divides bound
          fits (Nat.mod-lt (length ticks) slots_pos) in
      let there = run-slot ticks now e' (omega (arith, same_slots)) hs in
      let turn : slot % interval ≡ length ticks % interval =
        Nat.mod-mod_of_dvd interval (length ticks) ring in
      (e', made, rw (there.0, there.2, same_slots, found, turn) refl)
