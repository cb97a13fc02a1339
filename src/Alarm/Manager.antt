-- ===== src/Alarm/Manager.antt =====
-- src/core/alarm/impl/AlarmManager.{h,cpp}. The mutex makes each operation one step. A clock reading
-- is an argument; the data store and the event bus enter as the interface `Ports`.
pub mod Calls
pub mod Counts
pub mod Reachable
pub mod Raising
pub mod Resolving
pub mod History
use mxrc.Common.{
  ℕ, ◌+◌, ◌-◌, ◌/◌, ◌%◌, ◌^◌, String, Bool, true, false, Option, none, some, List, [], ◌∷◌, ◌++◌,
  ◌&&◌, leb, ltb, if◌then◌else◌, lookup, insert, length, tail, u64_inc, u32_inc,
}
use mxrc.Alarm.Dto.{
  AlarmSeverity, AlarmState, AlarmDto, critical, warning, info, severity_rank, is_active, new_alarm,
  set_details, acknowledge, resolve, set_recurrence_count,
}
use mxrc.Alarm.Config.{AlarmConfig, Configs, get_alarm_config, should_escalate_severity}

pub record AlarmStats : Type 0 where
  pub total_raised : ℕ
  pub active_count : ℕ
  pub resolved_count : ℕ
  pub critical_count : ℕ
  pub warning_count : ℕ
  pub info_count : ℕ

-- The three events of src/core/alarm/dto/AlarmEvents.h that the manager publishes.
pub data AlarmEvent : Type 0 where
  raised : AlarmDto → AlarmEvent
  cleared : String → String → AlarmEvent
  escalated : String → String → AlarmSeverity → AlarmSeverity → ℕ → AlarmEvent

-- What the manager was given; `W` is the state behind it. A write that answers `false` has thrown; an
-- exception of `publish` is caught, and `publish` answers with the state that it leaves.
pub record Ports (W : Type 0) : Type 0 where
  pub data_store : Bool
  pub store_alarm : AlarmDto → W → W × Bool
  pub store_count : ℕ → W → W × Bool
  pub event_bus : Bool
  pub publish : AlarmEvent → W → W

pub record AlarmManager (W : Type 0) : Type 0 where
  pub alarms : List (String × AlarmDto)
  pub last_occurrence : List (String × ℕ)
  pub recurrence_count : List (String × ℕ)
  pub alarm_history : List AlarmDto
  pub stats : AlarmStats
  pub world : W

abbrev pub max_history_size : ℕ
max_history_size = 1000

-- `--n` on a size_t.
abbrev pub u64_dec : ℕ → ℕ
u64_dec n = (n + 2 ^ 64 - 1) % 2 ^ 64

abbrev pub count_of : AlarmSeverity → AlarmStats → ℕ
count_of critical s = s.critical_count
count_of warning s = s.warning_count
count_of info s = s.info_count

unfoldable pub count_raised : AlarmSeverity → AlarmStats → AlarmStats
count_raised sev s =
    let t = record s {
      total_raised = u64_inc s.total_raised;
      active_count = u64_inc s.active_count;
    } in
    elim sev [
      | critical ↦ record t { critical_count = u64_inc t.critical_count }
      | warning ↦ record t { warning_count = u64_inc t.warning_count }
      | info ↦ record t { info_count = u64_inc t.info_count }
    ]

unfoldable pub count_resolved : AlarmSeverity → AlarmStats → AlarmStats
count_resolved sev s =
    let t = record s {
      active_count = u64_dec s.active_count;
      resolved_count = u64_inc s.resolved_count;
    } in
    elim sev [
      | critical ↦ record t { critical_count = u64_dec t.critical_count }
      | warning ↦ record t { warning_count = u64_dec t.warning_count }
      | info ↦ record t { info_count = u64_dec t.info_count }
    ]

-- The oldest entry leaves when there are too many.
unfoldable pub add_history : AlarmDto → List AlarmDto → List AlarmDto
add_history a h =
    let longer = h ++ a ∷ [] in if ltb max_history_size (length longer) then tail longer else longer

-- `recurrence_count_[code]` reads 0 where the map has no entry.
abbrev pub count_or_zero : Option ℕ → ℕ
count_or_zero none = 0
count_or_zero (some n) = n

abbrev pub window_of : Option AlarmConfig → ℕ → ℕ → ℕ
window_of none elapsed n = n
window_of (some c) elapsed n = if leb elapsed c.recurrence_window then u32_inc n else 1

-- The count for this occurrence. Elapsed nanoseconds become whole seconds; where the clock went back
-- the source's negative number of seconds is inside every window, as 0 is here.
unfoldable pub next_recurrence : String → ℕ → Configs → List (String × ℕ) → List (String × ℕ) → ℕ
next_recurrence code now configs last counts = elim (lookup code last) [
  | none ↦ 1
  | some t ↦
      window_of (get_alarm_config code configs) ((now - t) / 1000000000)
        (count_or_zero (lookup code counts))
]

module _ {W : Type 0} where
  unfoldable pub new : W → AlarmManager W
  new w = record {
    alarms = [];
    last_occurrence = [];
    recurrence_count = [];
    alarm_history = [];
    stats = record {
      total_raised = 0;
      active_count = 0;
      resolved_count = 0;
      critical_count = 0;
      warning_count = 0;
      info_count = 0;
    };
    world = w;
  }

  unfoldable pub check_recurrence : Configs → String → ℕ → AlarmManager W → ℕ × AlarmManager W
  check_recurrence configs code now m =
      let n = next_recurrence code now configs m.last_occurrence m.recurrence_count in
      (
        n,
        record m {
          recurrence_count = insert code n m.recurrence_count;
          last_occurrence = insert code now m.last_occurrence;
        },
      )

  unfoldable pub get_alarm : String → AlarmManager W → Option AlarmDto
  get_alarm id m = lookup id m.alarms

  unfoldable pub has_critical_alarm : AlarmManager W → Bool
  has_critical_alarm m = ltb 0 m.stats.critical_count

  unfoldable pub get_statistics : AlarmManager W → AlarmStats
  get_statistics m = m.stats

  -- The result does not say whether the alarm was still active.
  unfoldable pub acknowledge_alarm : String → String → ℕ → AlarmManager W → Bool × AlarmManager W
  acknowledge_alarm id by now m = elim (lookup id m.alarms) [
    | none ↦ (false, m)
    | some a ↦ (true, record m { alarms = insert id (acknowledge by now a) m.alarms })
  ]
