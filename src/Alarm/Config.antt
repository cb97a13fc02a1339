-- ===== src/Alarm/Config.antt =====
-- src/core/alarm/interfaces/IAlarmConfiguration.h and impl/AlarmConfiguration.{h,cpp}, but for the
-- reading of the YAML file: the configurations enter by `add_config`.
use Prim.Native.Char.{Char, code}
use mxrc.Common.{
  ℕ, String, Bool, true, false, Option, none, some, List, [], ◌∷◌, ◌&&◌, ◌||◌, not, map, leb,
  str_eq, if◌then◌else◌, lookup, insert, is_empty, ◌==◌,
}
use mxrc.Alarm.Dto.{AlarmSeverity, critical, warning, info}

-- `recurrence_window` is in seconds; the YAML reader could make it negative, which is not modelled.
pub record AlarmConfig : Type 0 where
  pub code : String
  pub name : String
  pub severity : AlarmSeverity
  pub description : String
  pub recommended_action : Option String
  pub recurrence_window : ℕ
  pub recurrence_threshold : ℕ
  pub auto_reset : Bool

abbrev pub Configs : Type 0
Configs = List (String × AlarmConfig)

unfoldable pub parse_severity : String → AlarmSeverity
parse_severity s =
    if str_eq s "CRITICAL" then critical else if str_eq s "WARNING" then warning else info

unfoldable pub add_config : AlarmConfig → Configs → Configs
add_config c configs = insert c.code c configs

unfoldable pub get_alarm_config : String → Configs → Option AlarmConfig
get_alarm_config code configs = lookup code configs

unfoldable pub get_all_configs : Configs → List AlarmConfig
get_all_configs configs = map (λ e. e.1) configs

unfoldable pub has_alarm_config : String → Configs → Bool
has_alarm_config code configs = elim (lookup code configs) [ some c ↦ true | none ↦ false ]

abbrev pub escalated : AlarmSeverity → AlarmSeverity
escalated info = warning
escalated warning = critical
escalated critical = critical

unfoldable pub should_escalate_severity : String → ℕ → Configs → AlarmSeverity
should_escalate_severity code n configs = elim (get_alarm_config code configs) [
  | none ↦ info
  | some c ↦ if leb c.recurrence_threshold n then escalated c.severity else c.severity
]

abbrev is_digit : Char → Bool
is_digit c = leb b'0' (code c) && leb (code c) b'9'

-- One letter of E, W and I, and three digits. A character outside ASCII is no digit and no such
-- letter, so counting characters here and bytes in the source gives one answer.
unfoldable pub is_valid_code : String → Bool
is_valid_code (String.◌∷◌ a (String.◌∷◌ b (String.◌∷◌ c (String.◌∷◌ d String.[])))) =
    (code a == b'E' || code a == b'W' || code a == b'I') && is_digit b && is_digit c && is_digit d
is_valid_code _ = false

validate_all : Configs → Bool
unfolding is_valid_code
validate_all [] = true
validate_all ((code, c) ∷ rest) = is_valid_code code && not (str_eq c.name "") && validate_all rest

unfoldable pub validate : Configs → Bool
unfolding validate_all
validate configs = if is_empty configs then false else validate_all configs
