-- ===== src/Sequence/Definition.antt =====
-- src/core/sequence/dto, and SequenceResult of interfaces/ISequenceEngine.h. A text that the code
-- walks, a condition, is its list of bytes. Times are milliseconds.
use mxrc.Common.{
  ℕ, String, Bool, Option, none, some, List, [], ◌∷◌, ◌++◌, ◌||◌, ◌==◌, insert, str_eq,
  if◌then◌else◌,
}

pub data SequenceStatus : Type 0 where
  pending running completed failed cancelled paused timed_out : SequenceStatus

-- The enumerator's value.
abbrev pub status_index : SequenceStatus → ℕ
status_index pending = 0
status_index running = 1
status_index completed = 2
status_index failed = 3
status_index cancelled = 4
status_index paused = 5
status_index timed_out = 6

abbrev pub is_status : SequenceStatus → SequenceStatus → Bool
is_status a b = status_index a == status_index b

unfoldable pub sequence_status_to_string : SequenceStatus → String
sequence_status_to_string pending = "PENDING"
sequence_status_to_string running = "RUNNING"
sequence_status_to_string completed = "COMPLETED"
sequence_status_to_string failed = "FAILED"
sequence_status_to_string cancelled = "CANCELLED"
sequence_status_to_string paused = "PAUSED"
sequence_status_to_string timed_out = "TIMEOUT"

-- The multiplier is a floating-point number of type `M`.
pub record RetryPolicy (M : Type 0) : Type 0 where
  pub max_retries : ℕ
  pub retry_delay : ℕ
  pub exponential_backoff : Bool
  pub backoff_multiplier : M

pub record ConditionalBranch : Type 0 where
  pub condition : List ℕ
  pub true_actions : List String
  pub false_actions : List String

pub record ActionStep : Type 0 where
  pub action_id : String
  pub action_type : String
  pub parameters : List (String × String)
  pub timeout : ℕ

pub record SequenceDefinition (M : Type 0) : Type 0 where
  pub id : String
  pub name : String
  pub description : String
  pub steps : List ActionStep
  pub timeout : ℕ
  pub conditional_branches : List (String × ConditionalBranch)
  pub retry_policy : Option (RetryPolicy M)

-- The progress is a fraction.
pub record SequenceResult : Type 0 where
  pub sequence_id : String
  pub status : SequenceStatus
  pub progress : ℕ × ℕ
  pub error_message : String
  pub completed_steps : ℕ
  pub total_steps : ℕ
  pub execution_time : ℕ

unfoldable pub is_successful : SequenceResult → Bool
is_successful r = is_status r.status completed

unfoldable pub is_failed : SequenceResult → Bool
is_failed r =
    is_status r.status failed || (is_status r.status cancelled || is_status r.status timed_out)

-- The builders.
unfoldable pub add_true_action : String → ConditionalBranch → ConditionalBranch
add_true_action id b = record b { true_actions = b.true_actions ++ id ∷ [] }

unfoldable pub add_false_action : String → ConditionalBranch → ConditionalBranch
add_false_action id b = record b { false_actions = b.false_actions ++ id ∷ [] }

unfoldable pub set_condition : List ℕ → ConditionalBranch → ConditionalBranch
set_condition condition b = record b { condition = condition }

unfoldable pub new_step : String → String → ActionStep
new_step id type = record { action_id = id; action_type = type; parameters = []; timeout = 0 }

unfoldable pub add_parameter : String → String → ActionStep → ActionStep
add_parameter key value step = record step { parameters = insert key value step.parameters }

unfoldable pub set_step_timeout : ℕ → ActionStep → ActionStep
set_step_timeout ms step = record step { timeout = ms }

module _ {M : Type 0} where
  unfoldable pub new_definition : String → String → SequenceDefinition M
  new_definition id name = record {
    id = id;
    name = if str_eq name "" then id else name;
    description = "";
    steps = [];
    timeout = 0;
    conditional_branches = [];
    retry_policy = none;
  }

  unfoldable pub add_step : ActionStep → SequenceDefinition M → SequenceDefinition M
  add_step step d = record d { steps = d.steps ++ step ∷ [] }

  unfoldable pub set_timeout : ℕ → SequenceDefinition M → SequenceDefinition M
  set_timeout ms d = record d { timeout = ms }

  unfoldable pub set_description : String → SequenceDefinition M → SequenceDefinition M
  set_description text d = record d { description = text }

  unfoldable pub add_conditional_branch :
      String → ConditionalBranch → SequenceDefinition M → SequenceDefinition M
  add_conditional_branch id branch d = record d {
    conditional_branches = insert id branch d.conditional_branches;
  }

  unfoldable pub set_retry_policy : RetryPolicy M → SequenceDefinition M → SequenceDefinition M
  set_retry_policy policy d = record d { retry_policy = some policy }
