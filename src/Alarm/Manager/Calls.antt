-- ===== src/Alarm/Manager/Calls.antt =====
-- src/core/alarm/impl/AlarmManager.cpp: raising, resolving and resetting alarms, and the lists of
-- them. A configuration is an argument, since others may change it between calls.
use mxrc.Common.{
  ℕ, zero, suc, ◌+◌, ◌-◌, ◌%◌, ◌^◌, String, Bool, true, false, Option, none, some, List, [], ◌∷◌,
  ◌&&◌, ◌==◌, ltb, if◌then◌else◌, lookup, insert, length,
}
use mxrc.Alarm.Dto.{
  AlarmSeverity, AlarmDto, severity_rank, is_active, new_alarm, set_details, resolve,
  set_recurrence_count,
}
use mxrc.Alarm.Config.{AlarmConfig, Configs, get_alarm_config, should_escalate_severity}
use mxrc.Alarm.Manager.{
  AlarmManager, AlarmEvent, Ports, add_history, check_recurrence, count_raised, count_resolved,
}

abbrev pub with_details : Option String → AlarmDto → AlarmDto
with_details none a = a
with_details (some d) a = set_details d a

-- The alarm that `raiseAlarm` makes.
unfoldable pub made_alarm :
    String → AlarmConfig → AlarmSeverity → String → Option String → ℕ → ℕ → AlarmDto
made_alarm code c sev source details recurrence created =
    set_recurrence_count recurrence
      (with_details details (new_alarm code c.name sev source created))

abbrev count_if : Bool → ℕ → ℕ
count_if true n = n + 1
count_if false n = n

-- The alarms, each active one resolved at the time that the clock shows for it, and their number.
unfoldable pub resolve_all : (String → ℕ) → List (String × AlarmDto) → List (String × AlarmDto) × ℕ
resolve_all now [] = ([], 0)
resolve_all now ((id, a) ∷ rest) =
    let done = resolve_all now rest in
    ((id, if is_active a then resolve (now id) a else a) ∷ done.0, count_if (is_active a) done.1)

unfoldable pub actives : List (String × AlarmDto) → List AlarmDto
actives [] = []
actives ((id, a) ∷ rest) = let others = actives rest in if is_active a then a ∷ others else others

abbrev pub with_severity : AlarmSeverity → List AlarmDto → List AlarmDto
with_severity sev [] = []
with_severity sev (a ∷ rest) =
    let others = with_severity sev rest in
    if severity_rank a.severity == severity_rank sev then a ∷ others else others

-- `std::sort` leaves the order of equal keys open; here they keep their order.
abbrev insert_by : (AlarmDto → AlarmDto → Bool) → AlarmDto → List AlarmDto → List AlarmDto
insert_by before a [] = a ∷ []
insert_by before a (b ∷ rest) =
    let others = insert_by before a rest in if before b a then b ∷ others else a ∷ b ∷ rest

unfoldable pub sort_by : (AlarmDto → AlarmDto → Bool) → List AlarmDto → List AlarmDto
sort_by before [] = []
sort_by before (a ∷ rest) = insert_by before a (sort_by before rest)

abbrev pub drop : ℕ → List AlarmDto → List AlarmDto
drop zero l = l
drop (suc n) [] = []
drop (suc n) (a ∷ l) = drop n l

abbrev pub reverse_onto : List AlarmDto → List AlarmDto → List AlarmDto
reverse_onto [] l = l
reverse_onto (a ∷ rest) l = reverse_onto rest (a ∷ l)

module _ {W : Type 0} where
  unfoldable pub get_active_alarms : AlarmManager W → List AlarmDto
  get_active_alarms m =
      sort_by (λ a b. ltb (severity_rank a.severity) (severity_rank b.severity)) (actives m.alarms)

  unfoldable pub get_active_alarms_by_severity : AlarmSeverity → AlarmManager W → List AlarmDto
  get_active_alarms_by_severity sev m = with_severity sev (actives m.alarms)

  unfoldable pub get_alarm_history : ℕ → AlarmManager W → List AlarmDto
  get_alarm_history limit m =
      let h = m.alarm_history in
      sort_by (λ a b. ltb b.timestamp a.timestamp) (reverse_onto (drop (length h - limit) h) [])

  unfoldable pub reset_all_alarms : (String → ℕ) → AlarmManager W → ℕ × AlarmManager W
  reset_all_alarms now m =
      let done = resolve_all now m.alarms in
      (
        done.1,
        record m {
          alarms = done.0;
          stats = record m.stats {
            active_count = 0;
            critical_count = 0;
            warning_count = 0;
            info_count = 0;
            resolved_count = (m.stats.resolved_count + done.1) % 2 ^ 64;
          };
        },
      )

module _ {W : Type 0} (ports : Ports W) where
  -- `static_cast<int>`, with a negative number as its two's complement
  abbrev store_active : ℕ → W → W
  store_active n w = (ports.store_count (n % 2 ^ 32) w).0

  -- An exception of the first write skips the second.
  unfoldable pub store_to_data_store : AlarmDto → ℕ → W → W
  store_to_data_store a n w =
      if ports.data_store
      then (let (v, stored) = ports.store_alarm a w in if stored then store_active n v else v)
      else w

  unfoldable pub publish_event : AlarmEvent → W → W
  publish_event e w = if ports.event_bus then ports.publish e w else w

  unfoldable pub announce : AlarmDto → AlarmSeverity → ℕ → W → W
  announce a base recurrence w =
      if ltb (severity_rank base) (severity_rank a.severity) && ltb 1 recurrence
      then publish_event
          (AlarmEvent.escalated a.alarm_id a.alarm_code base a.severity a.recurrence_count) w
      else publish_event (AlarmEvent.raised a) w

  -- The new alarm in the map, the counters, the history, the data store and the event bus.
  unfoldable pub admit : AlarmDto → AlarmSeverity → ℕ → AlarmManager W → AlarmManager W
  admit a base recurrence m =
      let stats = count_raised a.severity m.stats in
      record m {
        alarms = insert a.alarm_id a m.alarms;
        stats = stats;
        alarm_history = add_history a m.alarm_history;
        world = announce a base recurrence (store_to_data_store a stats.active_count m.world);
      }

  -- The clock is read for the recurrence, and again for the alarm itself.
  unfoldable pub raise_alarm :
      Configs
      → String
      → String
      → Option String
      → ℕ
      → ℕ
      → AlarmManager W
      → Option AlarmDto × AlarmManager W
  raise_alarm configs code source details now created m = elim (get_alarm_config code configs) [
    | none ↦ (none, m)
    | some c ↦
        let (recurrence, n) = check_recurrence configs code now m in
        let sev = should_escalate_severity code recurrence configs in
        let a = made_alarm code c sev source details recurrence created in
        (some a, admit a c.severity recurrence n)
  ]

  unfoldable pub close : String → AlarmDto → AlarmManager W → AlarmManager W
  close id a m =
      let stats = count_resolved a.severity m.stats in
      let w = if ports.data_store then store_active stats.active_count m.world else m.world in
      record m {
        alarms = insert id a m.alarms;
        stats = stats;
        alarm_history = add_history a m.alarm_history;
        world = publish_event (AlarmEvent.cleared id a.alarm_code) w;
      }

  unfoldable pub resolve_alarm : String → ℕ → AlarmManager W → Bool × AlarmManager W
  resolve_alarm id now m = elim (lookup id m.alarms) [
    | none ↦ (false, m)
    | some a ↦ if is_active a then (true, close id (resolve now a) m) else (false, m)
  ]
