-- ===== src/Sequence/Retries.antt =====
-- src/core/sequence/core/SequenceEngine.cpp: the retry loop ends.
use mxrc.Common.{
  ℕ, zero, suc, ◌+◌, ◌≤◌, ◌<◌, ◌≡◌, ◌⊎◌, refl, sym, ◌∙◌, true, false, Option, none, some,
  Bool-cases, inl, inr, ltb, length, arith,
}
use mxrc.Action.Result as Action
use mxrc.Action.Result.{ExecutionResult, Outcome, threw, returned, Outcome-cases}
use mxrc.Sequence.Definition.{SequenceDefinition, ActionStep, RetryPolicy}
use mxrc.Sequence.Retry.{can_retry}
use mxrc.Sequence.Engine.{Collaborators, SequenceEngine, step_completed}
use mxrc.Sequence.Execution.{attempt, run_action, may_retry, wait_to_retry, publish}

-- How many retries a policy allows.
abbrev pub limit : {M : Type 0} → Option (RetryPolicy M) → ℕ
limit none = 0
limit (some p) = p.max_retries

pub may_retry-limit :
    {M : Type 0} (policy : Option (RetryPolicy M)) (n : ℕ)
    → may_retry policy n ≡ ltb n (limit policy)
unfolding can_retry
may_retry-limit none n = ground arith
may_retry-limit (some p) n = refl

-- A result comes with a success, or after all the retries.
abbrev pub IsFinal : ℕ → Outcome (ExecutionResult × ℕ) → Type 0
IsFinal most (threw message) = Unit
IsFinal most (returned (r, n)) = (n ≤ most) × ((Action.is_successful r ≡ true) ⊎ (n ≡ most))

module _ {M A W : Type 0} (c : Collaborators M A W) (d : SequenceDefinition M) (step : ActionStep)
    (index : ℕ) where
  -- The retry loop ends within a round for each retry that the policy still allows, and one: by an
  -- exception, by a success after no more retries than allowed, or after exactly those.
  pub attempt-IsFinal :
      (rounds retry_count : ℕ) (e : SequenceEngine W)
      → retry_count ≤ limit d.retry_policy
      → limit d.retry_policy < retry_count + rounds
      → (over : SequenceEngine W) × (outcome : Outcome (ExecutionResult × ℕ)) × (attempt c rounds d
            step index retry_count e
          ≡ some (over, outcome))
        × IsFinal (limit d.retry_policy) outcome
  unfolding attempt
  attempt-IsFinal zero n e h enough = absurd (omega arith)
  attempt-IsFinal (suc rounds) n e h enough =
      let over : SequenceEngine W = (run_action c d.id step e).0 in
      elim (Outcome-cases (run_action c d.id step e).1) [
        | inl (message, o) ↦ (over, threw message, rw (attempt, o) refl, tt)
        | inr (r, o) ↦ elim (Bool-cases (Action.is_successful r)) [
          | inl good ↦ (
            publish c (step_completed d.id step.action_id step.action_type index (length d.steps))
                over,
            returned (r, n),
            rw (attempt, o, good) refl,
            (h, inl good),
          )
          | inr bad ↦ elim (Bool-cases (may_retry d.retry_policy n)) [
            | inl may ↦
                let below : ltb n (limit d.retry_policy) ≡ true =
                  sym (may_retry-limit d.retry_policy n) ∙ may in
                let (later, outcome, ends, final) =
                  attempt-IsFinal rounds (suc n) (wait_to_retry c d.retry_policy n over)
                    (ground (arith, below)) (omega arith) in
                (later, outcome, rw (attempt, o, bad, may) ends, final)
            | inr final ↦
                let above : ltb n (limit d.retry_policy) ≡ false =
                  sym (may_retry-limit d.retry_policy n) ∙ final in
                (
                  over,
                  returned (r, n),
                  rw (attempt, o, bad, final) refl,
                  (h, inr (ground (arith, above))),
                )
          ]
        ]
      ]
