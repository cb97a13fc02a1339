-- ===== src/Action/Result.antt =====
-- src/core/action/dto: ActionStatus.h and ExecutionResult.h. The result's value of any type, its
-- execution time and its retry count, which nothing of the model reads, are left out.
use mxrc.Common.{ℕ, String, Bool, ◌||◌, ◌==◌, ◌≡◌, ◌⊎◌, inl, inr, refl}

pub data ActionStatus : Type 0 where
  pending running completed failed cancelled timed_out : ActionStatus

-- The enumerator's value.
abbrev pub status_index : ActionStatus → ℕ
status_index pending = 0
status_index running = 1
status_index completed = 2
status_index failed = 3
status_index cancelled = 4
status_index timed_out = 5

unfoldable pub action_status_to_string : ActionStatus → String
action_status_to_string pending = "PENDING"
action_status_to_string running = "RUNNING"
action_status_to_string completed = "COMPLETED"
action_status_to_string failed = "FAILED"
action_status_to_string cancelled = "CANCELLED"
action_status_to_string timed_out = "TIMEOUT"

-- The progress is a percentage.
pub record ExecutionResult : Type 0 where
  pub action_id : String
  pub status : ActionStatus
  pub progress : ℕ
  pub error_message : String

unfoldable pub new : String → ActionStatus → ExecutionResult
new id status = record { action_id = id; status = status; progress = 0; error_message = "" }

abbrev pub is_status : ActionStatus → ActionStatus → Bool
is_status a b = status_index a == status_index b

unfoldable pub is_successful : ExecutionResult → Bool
is_successful r = is_status r.status completed

unfoldable pub is_failed : ExecutionResult → Bool
is_failed r = is_status r.status failed || is_status r.status timed_out

unfoldable pub is_cancelled : ExecutionResult → Bool
is_cancelled r = is_status r.status cancelled

-- What a call comes to that may throw.
pub data Outcome {ℓ} (A : Type ℓ) : Type ℓ where
  threw : String → Outcome A
  returned : A → Outcome A

pub Outcome-cases {ℓ} :
    {A : Type ℓ} (o : Outcome A)
    → ((message : String) × (o ≡ threw message)) ⊎ ((a : A) × (o ≡ returned a))
Outcome-cases (threw message) = inl (message, refl)
Outcome-cases (returned a) = inr (a, refl)
