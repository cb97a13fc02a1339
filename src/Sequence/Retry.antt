-- ===== src/Sequence/Retry.antt =====
-- src/core/sequence: RetryPolicy::calculateDelay of dto/RetryPolicy.h, and core/RetryHandler.cpp.
-- `power` is the delay in milliseconds times a power of the multiplier, cut to a whole number.
use mxrc.Common.{ℕ, Bool, not, ltb, if◌then◌else◌}
use mxrc.Sequence.Definition.{RetryPolicy}

module _ {M : Type 0} where
  unfoldable pub calculate_delay : (ℕ → M → ℕ → ℕ) → RetryPolicy M → ℕ → ℕ
  calculate_delay power p retry_count =
      if not p.exponential_backoff
      then p.retry_delay
      else power p.retry_delay p.backoff_multiplier retry_count

  unfoldable pub can_retry : RetryPolicy M → ℕ → Bool
  can_retry p current_retry = ltb current_retry p.max_retries
