-- ===== src/Alarm/Dto.antt =====
-- src/core/alarm/dto/AlarmSeverity.h, dto/AlarmDto.h and impl/Alarm.{h,cpp}. Times are nanoseconds of
-- the system clock, read by the caller.
use mxrc.Common.{
  ℕ, ◌/◌, ◌<>◌, String, Bool, true, false, Option, none, some, ltb, if◌then◌else◌, str_eq, u32_inc,
  decimal,
}

pub data AlarmSeverity : Type 0 where
  critical warning info : AlarmSeverity

-- The enumerator's value: the most severe is the smallest.
abbrev pub severity_rank : AlarmSeverity → ℕ
severity_rank critical = 0
severity_rank warning = 1
severity_rank info = 2

unfoldable pub to_string : AlarmSeverity → String
to_string critical = "CRITICAL"
to_string warning = "WARNING"
to_string info = "INFO"

unfoldable pub from_string : String → AlarmSeverity
from_string s =
    if str_eq s "CRITICAL" then critical else if str_eq s "WARNING" then warning else info

unfoldable pub requires_immediate_action : AlarmSeverity → Bool
requires_immediate_action critical = true
requires_immediate_action _ = false

pub data AlarmState : Type 0 where
  active acknowledged resolved : AlarmState

pub record AlarmDto : Type 0 where
  pub alarm_id : String
  pub alarm_code : String
  pub alarm_name : String
  pub severity : AlarmSeverity
  pub state : AlarmState
  pub timestamp : ℕ
  pub details : Option String
  pub source : String
  pub recurrence_count : ℕ
  pub last_recurrence : Option ℕ
  pub acknowledged_time : Option ℕ
  pub acknowledged_by : Option String
  pub resolved_time : Option ℕ

abbrev pub is_active_state : AlarmState → Bool
is_active_state active = true
is_active_state _ = false

abbrev pub is_resolved_state : AlarmState → Bool
is_resolved_state resolved = true
is_resolved_state _ = false

unfoldable pub is_active : AlarmDto → Bool
is_active a = is_active_state a.state

unfoldable pub is_resolved : AlarmDto → Bool
is_resolved a = is_resolved_state a.state

-- The identifier is the code and the time in milliseconds.
unfoldable pub new_alarm : String → String → AlarmSeverity → String → ℕ → AlarmDto
new_alarm code name sev src now = record {
  alarm_id = code <> "_" <> decimal (now / 1000000);
  alarm_code = code;
  alarm_name = name;
  severity = sev;
  state = active;
  timestamp = now;
  details = none;
  source = src;
  recurrence_count = 0;
  last_recurrence = none;
  acknowledged_time = none;
  acknowledged_by = none;
  resolved_time = none;
}

unfoldable pub set_details : String → AlarmDto → AlarmDto
set_details d a = record a { details = some d }

unfoldable pub acknowledge : String → ℕ → AlarmDto → AlarmDto
acknowledge by now a =
    if is_active_state a.state
    then record a { state = acknowledged; acknowledged_time = some now; acknowledged_by = some by }
    else a

unfoldable pub resolve : ℕ → AlarmDto → AlarmDto
resolve now a =
    if is_resolved_state a.state then a else record a { state = resolved; resolved_time = some now }

unfoldable pub record_recurrence : ℕ → AlarmDto → AlarmDto
record_recurrence now a = record a {
  recurrence_count = u32_inc a.recurrence_count;
  last_recurrence = some now;
}

unfoldable pub set_recurrence_count : ℕ → AlarmDto → AlarmDto
set_recurrence_count n a = record a { recurrence_count = n }

-- `new_severity > severity` compares the enumerators' values.
unfoldable pub escalate_severity : AlarmSeverity → AlarmDto → AlarmDto
escalate_severity sev a =
    if ltb (severity_rank a.severity) (severity_rank sev) then record a { severity = sev } else a
