-- ===== src/Event/PrioritizedEvent.antt =====
-- src/core/event/core/PrioritizedEvent.h. The payload, a variant, is a parameter. Times are
-- nanoseconds since the epoch, in 64 bits.
use mxrc.Common.{
  ℕ, ◌+◌, ◌-◌, ◌/◌, ◌%◌, ◌^◌, String, Bool, false, Option, none, some, ◌==◌, ltb, if◌then◌else◌,
}

pub data EventPriority : Type 0 where
  critical high normal low : EventPriority

-- The enumerator's value.
abbrev pub rank : EventPriority → ℕ
rank critical = 0
rank high = 1
rank normal = 2
rank low = 3

unfoldable pub priority_to_string : EventPriority → String
priority_to_string critical = "CRITICAL"
priority_to_string high = "HIGH"
priority_to_string normal = "NORMAL"
priority_to_string low = "LOW"

pub record PrioritizedEvent (P : Type 0) : Type 0 where
  pub type : String
  pub priority : EventPriority
  pub payload : P
  pub timestamp_ns : ℕ
  pub sequence_num : ℕ
  pub ttl : Option ℕ
  pub coalescing_key : Option String

module _ {P : Type 0} where
  -- The unsigned difference wraps around for an event from the future.
  unfoldable pub is_expired : ℕ → PrioritizedEvent P → Bool
  is_expired now e = elim e.ttl [
    | none ↦ false
    | some ms ↦ ltb ms ((now + 2 ^ 64 - e.timestamp_ns) % 2 ^ 64 / 1000000)
  ]

  -- `a < b`: in the max-heap, `b` is popped before `a`.
  unfoldable pub is_less : PrioritizedEvent P → PrioritizedEvent P → Bool
  is_less a b =
      if rank a.priority == rank b.priority
      then (if a.timestamp_ns == b.timestamp_ns
          then ltb b.sequence_num a.sequence_num
          else ltb b.timestamp_ns a.timestamp_ns)
      else ltb (rank b.priority) (rank a.priority)

  unfoldable pub make_prioritized_event : String → EventPriority → P → ℕ → ℕ → PrioritizedEvent P
  make_prioritized_event type p payload sequence now = record {
    type = type;
    priority = p;
    payload = payload;
    timestamp_ns = now;
    sequence_num = sequence;
    ttl = none;
    coalescing_key = none;
  }
