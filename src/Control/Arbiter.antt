-- ===== src/Control/Arbiter.antt =====
-- src/core/control/impl/BehaviorArbiter.{h,cpp}: the arbiter that starts, preempts and stops the
-- tasks of the robot. One call is one step: the source's atomics and its mutex are not modelled.
pub mod Tick
pub mod Modes
pub mod Faults
pub mod Warnings
pub mod Preemption
pub mod Current
pub mod Cancelling
use mxrc.Common.{
  ℕ, ◌%◌, ◌^◌, String, Bool, true, false, Option, none, some, List, [], ◌∷◌, ltb, leb, str_eq,
  if◌then◌else◌, lookup, insert, erase, u64_inc, ◌<>◌,
}
use mxrc.Control.Mode
use mxrc.Control.Mode.{ControlMode, is_valid_transition}
use mxrc.Control.Priority.{Priority, rank, can_preempt}
use mxrc.Control.Request.{BehaviorRequest}
use mxrc.Control.BehaviorPriorityQueue
use mxrc.Control.BehaviorPriorityQueue.{BehaviorPriorityQueue}
use mxrc.Control.Lanes
use mxrc.Control.Objects.{Env, StoreValue, StoreType, is_finished}

pub record Statistics : Type 0 where
  pub total_requests : ℕ
  pub preemptions : ℕ
  pub mode_transitions : ℕ
  pub timeouts : ℕ

-- `world` is the state of all objects that the arbiter has pointers to.
pub record Arbiter (W : Type 0) : Type 0 where
  pub current_mode : ControlMode
  pub pending_safe_mode : Bool
  pub pending_behaviors : BehaviorPriorityQueue
  pub current_behavior : Option BehaviorRequest
  pub suspended_behaviors : List (String × BehaviorRequest)
  pub stats : Statistics
  pub paused : Bool
  pub world : W

pub data StopMethod : Type 0 where
  cancel pause : StopMethod

-- The enumerator's value.
abbrev mode_code : ControlMode → ℕ
mode_code ControlMode.boot = 0
mode_code ControlMode.init = 1
mode_code ControlMode.standby = 2
mode_code ControlMode.manual = 3
mode_code ControlMode.ready = 4
mode_code ControlMode.auto = 5
mode_code ControlMode.fault = 6
mode_code ControlMode.maint = 7
mode_code ControlMode.charging = 8

abbrev pub is_fault : ControlMode → Bool
is_fault ControlMode.fault = true
is_fault _ = false

abbrev pub is_maint : ControlMode → Bool
is_maint ControlMode.maint = true
is_maint _ = false

module _ {W : Type 0} where
  unfoldable pub new : W → Arbiter W
  new w = record {
    current_mode = ControlMode.standby;
    pending_safe_mode = false;
    pending_behaviors = Lanes.empty;
    current_behavior = none;
    suspended_behaviors = [];
    stats = record { total_requests = 0; preemptions = 0; mode_transitions = 0; timeouts = 0 };
    paused = false;
    world = w;
  }

  unfoldable pub request_behavior : BehaviorRequest → Arbiter W → Arbiter W × Bool
  request_behavior r s =
      let (q, pushed) = BehaviorPriorityQueue.push r s.pending_behaviors in
      let t = record s {
        stats = record s.stats { total_requests = u64_inc s.stats.total_requests };
      } in
      (record t { pending_behaviors = q }, pushed)

  unfoldable pub clear_pending_behaviors : Arbiter W → Arbiter W
  clear_pending_behaviors s = record s {
    pending_behaviors = BehaviorPriorityQueue.clear s.pending_behaviors;
    suspended_behaviors = [];
  }

  -- The next request, and the arbiter without it.
  unfoldable pub select_next_behavior : Arbiter W → Option BehaviorRequest × Arbiter W
  select_next_behavior s = elim (BehaviorPriorityQueue.pop s.pending_behaviors) [
    | none ↦ (none, s)
    | some (r, q) ↦ (some r, record s { pending_behaviors = q })
  ]

  unfoldable pub should_preempt : BehaviorRequest → Arbiter W → Bool
  should_preempt r s = elim s.current_behavior [
    | none ↦ false
    | some c ↦ if ltb (rank r.priority) (rank c.priority) then can_preempt r.priority else false
  ]

  -- The body is a comment in the source: no request times out.
  unfoldable pub remove_timed_out_behaviors : Arbiter W → Arbiter W
  remove_timed_out_behaviors s = s

  unfoldable pub get_pending_behavior_count : Arbiter W → ℕ
  get_pending_behavior_count s = BehaviorPriorityQueue.size s.pending_behaviors

module _ {W : Type 0} (env : Env W) where
  unfoldable pub get_current_task_id : Arbiter W → String
  get_current_task_id s = elim s.current_behavior [ none ↦ "" | some c ↦ env.task_id c.task ]

  unfoldable pub stop_current_task : StopMethod → Arbiter W → Arbiter W
  stop_current_task m s = elim s.current_behavior [
    | none ↦ s
    | some c ↦ elim m [
      | cancel ↦ record s { world = env.task_stop c.task s.world }
      | pause ↦ record s { world = env.task_pause c.task s.world }
    ]
  ]

  unfoldable pub start_task : BehaviorRequest → Arbiter W → Arbiter W
  start_task r s = record s { current_behavior = some r; world = env.task_start r.task s.world }

  -- The three writes to the data store. An exception from one skips the later ones and is caught. The
  -- count is converted to int in the source; here it is the bit pattern of that int.
  unfoldable pub record_transition : ControlMode → ControlMode → ℕ → W → W
  record_transition from to n w =
      if env.data_store
      then (let (w₁, done₁) =
            env.store_set "control/current_mode" (StoreValue.int (mode_code to))
              StoreType.robot_mode w in
          let (w₂, done₂) =
            env.store_set "control/mode_transition_history"
              (StoreValue.text (Mode.to_string from <> " -> " <> Mode.to_string to)) StoreType.event
              w₁ in
          let (w₃, done₃) =
            env.store_set "control/mode_transitions_count" (StoreValue.int (n % 2 ^ 32))
              StoreType.robot_mode w₂ in
          if done₁ then (if done₂ then w₃ else w₂) else w₁)
      else w

  unfoldable pub transition_to : ControlMode → Arbiter W → Arbiter W × Bool
  transition_to m s =
      if is_valid_transition s.current_mode m
      then (commit s.current_mode (quiesce s), true)
      else (s, false)
    where
      -- Entering FAULT stops the running task and drops what waits.
      quiesce : Arbiter W → Arbiter W
      quiesce t = if is_fault m then clear_pending_behaviors (stop_current_task cancel t) else t

      commit : ControlMode → Arbiter W → Arbiter W
      commit from t =
          let n = u64_inc t.stats.mode_transitions in
          record t {
            current_mode = m;
            stats = record t.stats { mode_transitions = n };
            world = record_transition from m n t.world;
          }
