-- ===== src/Event/ThrottlingPolicy.antt =====
-- src/core/event/adapters/ThrottlingPolicy.{h,cpp}. The clock, in milliseconds, is read by the caller.
pub mod Spacing
pub mod Tests
use mxrc.Common.{
  ℕ, ◌+◌, ◌-◌, ◌%◌, ◌^◌, String, Bool, true, false, Option, none, some, List, [], leb,
  if◌then◌else◌, lookup, insert, erase,
}

pub record ThrottlingPolicy : Type 0 where
  pub throttle_interval_ms : ℕ
  pub last_sent_time : List (String × ℕ)

unfoldable pub new : ℕ → ThrottlingPolicy
new interval = record { throttle_interval_ms = interval; last_sent_time = [] }

-- The unsigned difference of two 64-bit times.
unfoldable pub since : ℕ → ℕ → ℕ
since now last = (now + 2 ^ 64 - last) % 2 ^ 64

unfoldable pub note_sent : String → ℕ → ThrottlingPolicy → ThrottlingPolicy
note_sent event_type now p = record p { last_sent_time = insert event_type now p.last_sent_time }

unfoldable pub should_send : String → ℕ → ThrottlingPolicy → ThrottlingPolicy × Bool
should_send event_type now p = elim (lookup event_type p.last_sent_time) [
  | none ↦ (note_sent event_type now p, true)
  | some last ↦
      if leb p.throttle_interval_ms (since now last)
      then (note_sent event_type now p, true)
      else (p, false)
]

unfoldable pub reset : ThrottlingPolicy → ThrottlingPolicy
reset p = record p { last_sent_time = [] }

unfoldable pub reset_event_type : String → ThrottlingPolicy → ThrottlingPolicy
reset_event_type event_type p = record p { last_sent_time = erase event_type p.last_sent_time }
