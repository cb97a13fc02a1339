-- ===== src/Rt/Executive.antt =====
-- src/core/rt/RTExecutive.{h,cpp}: the cyclic executive. `W` is the state behind the callbacks and
-- the event bus. The clock is read by the caller. The performance monitor is not part of the model.
pub mod Loop
pub mod Watch
pub mod Schedule
pub mod Heartbeat
pub mod Cycles
pub mod Tests
use mxrc.Common.{
  ℕ, zero, suc, ◌+◌, ◌-◌, ◌*◌, ◌/◌, ◌%◌, ◌^◌, String, Bool, true, false, Option, none, some, List,
  [], ◌∷◌, ◌++◌, ◌&&◌, not, ◌==◌, ltb, if◌then◌else◌, u64_inc,
}
use mxrc.Rt.StateMachine as Machine
use mxrc.Rt.StateMachine.{
  RtState, RtEvent, RtStateMachine, ready, running, paused, safe_mode, start, stop, safe_mode_enter,
  safe_mode_exit, state_index, state_to_string, event_to_string, handle_event,
  set_transition_callback,
}
use mxrc.Rt.ScheduleCalculator.{calculate}

-- The shared memory's two heartbeats.
pub record SharedMemory : Type 0 where
  pub nonrt_heartbeat_ns : ℕ
  pub rt_heartbeat_ns : ℕ

-- The data store by its address.
pub record Context : Type 0 where
  pub data_store : Option ℕ
  pub current_slot : ℕ
  pub cycle_count : ℕ
  pub timestamp_ns : ℕ

pub record ActionSlot (W : Type 0) : Type 0 where
  pub name : String
  pub period_ms : ℕ
  pub callback : Option (Context → W → Context × W)
  pub guard : Option (RtStateMachine W → Bool)
  pub next_slot : ℕ

-- What is published on the event bus.
pub data Notice : Type 0 where
  state_changed : String → String → String → Notice
  safe_mode_entered : ℕ → String → Notice
  safe_mode_exited : ℕ → Notice

pub record InitHook (W : Type 0) : Type 0 where
  pub name : String
  -- `false` is an exception.
  pub hook : W → W × Bool

pub record RtExecutive (W : Type 0) : Type 0 where
  pub minor_cycle_ms : ℕ
  pub major_cycle_ms : ℕ
  pub num_slots : ℕ
  pub is_running : Bool
  pub current_slot : ℕ
  pub cycle_count : ℕ
  pub context : Context
  pub state_machine : RtStateMachine W
  pub shared_memory : Option SharedMemory
  pub heartbeat_monitoring_enabled : Bool
  pub last_heartbeat_check_ns : ℕ
  pub safe_mode_enter_time_ns : ℕ
  pub event_bus : Option (Notice → W → W)
  pub schedule : List (List (ActionSlot W))
  pub init_hooks : List (InitHook W)

unfoldable pub heartbeat_timeout_ns : ℕ
heartbeat_timeout_ns = 500000000

-- The slots of a schedule: so many empty ones, the addition of an item to one, the items of one.
unfoldable pub empty_slots : {A : Type 0} → ℕ → List (List A)
empty_slots zero = []
empty_slots (suc n) = [] ∷ empty_slots n

unfoldable pub push_at : {A : Type 0} → ℕ → A → List (List A) → List (List A)
push_at slot a [] = []
push_at zero a (items ∷ slots) = (items ++ a ∷ []) ∷ slots
push_at (suc slot) a (items ∷ slots) = items ∷ push_at slot a slots

unfoldable pub items_of : {A : Type 0} → ℕ → List (List A) → List A
items_of slot [] = []
items_of zero (items ∷ slots) = items
items_of (suc slot) (items ∷ slots) = items_of slot slots

-- The loop that adds an action to its slots, on fuel: `none` while it has not ended. The slot is a
-- 32-bit number.
unfoldable pub register_loop :
    {A : Type 0} → ℕ → ℕ → ℕ → A → ℕ → List (List A) → Option (List (List A))
register_loop zero slot interval a n slots = none
register_loop (suc rounds) slot interval a n slots =
    let rest =
      register_loop rounds ((slot + interval) % 2 ^ 32) interval a n (push_at slot a slots) in
    if ltb slot n then rest else some slots

module _ {W : Type 0} where
  -- What the executive's callback does at a change of the state machine.
  unfoldable pub publish_change : (Notice → W → W) → RtState → RtState → RtEvent → W → W
  publish_change publish from to event w =
      publish (state_changed (state_to_string from) (state_to_string to) (event_to_string event)) w

  unfoldable pub publish : Option (Notice → W → W) → Notice → W → W
  publish none notice w = w
  publish (some f) notice w = f notice w

  unfoldable pub with_bus : Option (Notice → W → W) → RtStateMachine W → RtStateMachine W
  with_bus none m = m
  with_bus (some f) m = set_transition_callback (some (publish_change f)) m

  unfoldable pub new : ℕ → ℕ → Option (Notice → W → W) → W → RtExecutive W
  new minor major bus w = record {
    minor_cycle_ms = minor;
    major_cycle_ms = major;
    num_slots = major / minor;
    is_running = false;
    current_slot = 0;
    cycle_count = 0;
    context = record { data_store = none; current_slot = 0; cycle_count = 0; timestamp_ns = 0 };
    state_machine = (handle_event start (with_bus bus (Machine.new w))).0;
    shared_memory = none;
    heartbeat_monitoring_enabled = false;
    last_heartbeat_check_ns = 0;
    safe_mode_enter_time_ns = 0;
    event_bus = bus;
    schedule = empty_slots (major / minor);
    init_hooks = [];
  }

  unfoldable pub create_from_periods : List ℕ → Option (Notice → W → W) → W → Option (RtExecutive W)
  create_from_periods periods bus w = elim (calculate periods) [
    | none ↦ none
    | some params ↦ some (new params.minor_cycle_ms params.major_cycle_ms bus w)
  ]

  unfoldable pub set_data_store : Option ℕ → RtExecutive W → RtExecutive W
  set_data_store store e = record e {
    context = record (RtExecutive.context e) { data_store = store };
  }

  unfoldable pub set_shared_memory : Option SharedMemory → ℕ → RtExecutive W → RtExecutive W
  set_shared_memory memory now e = record e {
    shared_memory = memory;
    last_heartbeat_check_ns = now;
  }

  unfoldable pub enable_heartbeat_monitoring : Bool → RtExecutive W → RtExecutive W
  enable_heartbeat_monitoring enable e = record e { heartbeat_monitoring_enabled = enable }

  abbrev pub new_action :
      String
      → ℕ
      → Option (Context → W → Context × W)
      → Option (RtStateMachine W → Bool)
      → ℕ
      → ActionSlot W
  new_action name period callback guard interval = record {
    name = name;
    period_ms = period;
    callback = callback;
    guard = guard;
    next_slot = interval;
  }

  -- `none` while the loop over the slots has not ended within the rounds.
  unfoldable pub register_action :
      ℕ
      → String
      → ℕ
      → Option (Context → W → Context × W)
      → Option (RtStateMachine W → Bool)
      → RtExecutive W
      → Option (RtExecutive W × Bool)
  register_action rounds name period callback guard e =
      if not (period % e.minor_cycle_ms == 0)
      then some (e, false)
      else elim (register_loop rounds 0 (period / e.minor_cycle_ms)
          (new_action name period callback guard (period / e.minor_cycle_ms)) e.num_slots
          e.schedule) [ none ↦ none | some slots ↦ some (record e { schedule = slots }, true) ]

  unfoldable pub is_allowed : ActionSlot W → RtStateMachine W → Bool
  is_allowed a m = elim a.guard [ none ↦ true | some guard ↦ guard m ]

  -- One action, if its guard allows it.
  unfoldable pub execute_action : ActionSlot W → RtExecutive W → RtExecutive W
  execute_action a e =
      if is_allowed a e.state_machine
      then elim a.callback [
        | none ↦ e
        | some f ↦
            let (context, w) = f e.context e.state_machine.world in
            record e { context = context; state_machine = record e.state_machine { world = w } }
      ]
      else e

  unfoldable pub execute_actions : List (ActionSlot W) → RtExecutive W → RtExecutive W
  execute_actions [] e = e
  execute_actions (a ∷ rest) e = execute_actions rest (execute_action a e)

  unfoldable pub execute_slot : ℕ → RtExecutive W → RtExecutive W
  execute_slot slot e = execute_actions (items_of slot e.schedule) e

  unfoldable pub in_state : RtState → RtExecutive W → Bool
  in_state s e = state_index e.state_machine.current_state == state_index s

  unfoldable pub with_world : W → RtStateMachine W → RtStateMachine W
  with_world w m = record m { world = w }
