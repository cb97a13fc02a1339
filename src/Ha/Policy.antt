-- ===== src/Ha/Policy.antt =====
-- src/core/ha/HAStateMachine.h (the enumerations) and src/core/ha/RecoveryPolicy.{h,cpp}. What
-- yaml-cpp reads from the file is the argument of `load_from_file`.
use mxrc.Common.{
  ℕ, String, Bool, true, false, Option, none, some, List, [], ◌∷◌, ◌&&◌, ◌==◌, str_eq,
  if◌then◌else◌,
}

pub data HaState : Type 0 where
  normal degraded safe_mode recovery_in_progress manual_intervention shutdown : HaState

pub data FailureType : Type 0 where
  rt_process_crash deadline_miss_consecutive ethercat_comm_failure sensor_failure : FailureType
  motor_overcurrent datastore_corruption memory_exhaustion unknown : FailureType

pub data RecoveryAction : Type 0 where
  restart_rt_process enter_safe_mode notify_and_wait shutdown_system : RecoveryAction
  reload_configuration nothing : RecoveryAction

-- The source's three overloads of `toString`.
unfoldable pub state_to_string : HaState → String
state_to_string normal = "NORMAL"
state_to_string degraded = "DEGRADED"
state_to_string safe_mode = "SAFE_MODE"
state_to_string recovery_in_progress = "RECOVERY_IN_PROGRESS"
state_to_string manual_intervention = "MANUAL_INTERVENTION"
state_to_string shutdown = "SHUTDOWN"

unfoldable pub failure_to_string : FailureType → String
failure_to_string rt_process_crash = "RT_PROCESS_CRASH"
failure_to_string deadline_miss_consecutive = "DEADLINE_MISS_CONSECUTIVE"
failure_to_string ethercat_comm_failure = "ETHERCAT_COMM_FAILURE"
failure_to_string sensor_failure = "SENSOR_FAILURE"
failure_to_string motor_overcurrent = "MOTOR_OVERCURRENT"
failure_to_string datastore_corruption = "DATASTORE_CORRUPTION"
failure_to_string memory_exhaustion = "MEMORY_EXHAUSTION"
failure_to_string unknown = "UNKNOWN"

unfoldable pub action_to_string : RecoveryAction → String
action_to_string restart_rt_process = "RESTART_RT_PROCESS"
action_to_string enter_safe_mode = "ENTER_SAFE_MODE"
action_to_string notify_and_wait = "NOTIFY_AND_WAIT"
action_to_string shutdown_system = "SHUTDOWN_SYSTEM"
action_to_string reload_configuration = "RELOAD_CONFIGURATION"
action_to_string nothing = "NONE"

unfoldable pub parse_failure_type : String → FailureType
parse_failure_type s =
    if str_eq s "RT_PROCESS_CRASH"
    then rt_process_crash
    else if str_eq s "DEADLINE_MISS_CONSECUTIVE"
    then deadline_miss_consecutive
    else if str_eq s "ETHERCAT_COMM_FAILURE"
    then ethercat_comm_failure
    else if str_eq s "SENSOR_FAILURE"
    then sensor_failure
    else if str_eq s "MOTOR_OVERCURRENT"
    then motor_overcurrent
    else if str_eq s "DATASTORE_CORRUPTION"
    then datastore_corruption
    else if str_eq s "MEMORY_EXHAUSTION"
    then memory_exhaustion
    else unknown

unfoldable pub parse_recovery_action : String → RecoveryAction
parse_recovery_action s =
    if str_eq s "RESTART_RT_PROCESS"
    then restart_rt_process
    else if str_eq s "ENTER_SAFE_MODE"
    then enter_safe_mode
    else if str_eq s "NOTIFY_AND_WAIT"
    then notify_and_wait
    else if str_eq s "SHUTDOWN_SYSTEM"
    then shutdown_system
    else if str_eq s "RELOAD_CONFIGURATION"
    then reload_configuration
    else if str_eq s "NONE"
    then nothing
    else notify_and_wait

-- The enumerator's value, by which the map orders its keys.
abbrev failure_index : FailureType → ℕ
failure_index rt_process_crash = 0
failure_index deadline_miss_consecutive = 1
failure_index ethercat_comm_failure = 2
failure_index sensor_failure = 3
failure_index motor_overcurrent = 4
failure_index datastore_corruption = 5
failure_index memory_exhaustion = 6
failure_index unknown = 7

abbrev pub same_failure : FailureType → FailureType → Bool
same_failure f g = failure_index f == failure_index g

-- `std::map<FailureType, RecoveryAction>`, as a function.
abbrev pub Policies : Type 0
Policies = FailureType → Option RecoveryAction

unfoldable pub set_policy : FailureType → RecoveryAction → Policies → Policies
set_policy f a p = λ g. if same_failure f g then some a else p g

pub record RecoveryPolicy : Type 0 where
  pub policies : Policies
  pub max_recovery_attempts : ℕ

unfoldable pub new_policy : RecoveryPolicy
new_policy = record { policies = λ f. none; max_recovery_attempts = 3 }

unfoldable pub get_default_policies : Policies
get_default_policies rt_process_crash = some restart_rt_process
get_default_policies deadline_miss_consecutive = some enter_safe_mode
get_default_policies ethercat_comm_failure = some enter_safe_mode
get_default_policies sensor_failure = some notify_and_wait
get_default_policies motor_overcurrent = some enter_safe_mode
get_default_policies datastore_corruption = some notify_and_wait
get_default_policies memory_exhaustion = some shutdown_system
get_default_policies unknown = some notify_and_wait

abbrev pub is_some : Option RecoveryAction → Bool
is_some none = false
is_some (some a) = true

unfoldable pub is_complete : Policies → Bool
is_complete p =
    is_some (p rt_process_crash)
    && is_some (p deadline_miss_consecutive)
    && is_some (p ethercat_comm_failure)
    && is_some (p sensor_failure)
    && is_some (p motor_overcurrent)
    && is_some (p datastore_corruption)
    && is_some (p memory_exhaustion)
    && is_some (p unknown)

-- What yaml-cpp has read: each section if it is there, and `none` within for what `as` throws at.
pub record Document : Type 0 where
  pub attempts : Option (Option ℕ)
  pub entries : Option (List (Option (String × String)))

-- The entries in their order, up to one that throws.
unfoldable pub load_entries : List (Option (String × String)) → Policies → Policies × Bool
load_entries [] p = (p, true)
load_entries (none ∷ rest) p = (p, false)
load_entries (some (failure, action) ∷ rest) p =
    load_entries rest (set_policy (parse_failure_type failure) (parse_recovery_action action) p)

abbrev load_policies :
    Option (List (Option (String × String))) → RecoveryPolicy → RecoveryPolicy × Bool
load_policies none r = (r, true)
load_policies (some entries) r =
    let (p, whole) = load_entries entries r.policies in (record r { policies = p }, whole)

-- `none` is a file that cannot be read or parsed. An exception leaves what was loaded before it.
unfoldable pub load_from_file : Option Document → RecoveryPolicy → RecoveryPolicy × Bool
load_from_file none r = (r, false)
load_from_file (some d) r = elim d.attempts [
  | none ↦ load_policies d.entries r
  | some none ↦ (r, false)
  | some (some n) ↦ load_policies d.entries (record r { max_recovery_attempts = n })
]
