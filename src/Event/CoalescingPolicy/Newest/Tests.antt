-- ===== src/Event/CoalescingPolicy/Newest/Tests.antt =====
-- A coalescing policy on a short sequence of events.
use mxrc.Common.{ℕ, String, ◌≡◌, List, [], ◌∷◌, none}
use mxrc.Event.PrioritizedEvent.{PrioritizedEvent, normal}
use mxrc.Event.CoalescingPolicy.{new, flush_event_type}
use mxrc.Event.CoalescingPolicy.Newest.{run, newest, flush_event_type-newest}

abbrev event : String → ℕ → PrioritizedEvent ℕ
event type n = record {
  type = type;
  priority = normal;
  payload = n;
  timestamp_ns = 0;
  sequence_num = n;
  ttl = none;
  coalescing_key = none;
}

abbrev events : List (PrioritizedEvent ℕ × ℕ)
events = (event "task" 1, 10) ∷ (event "alarm" 2, 20) ∷ (event "task" 3, 30) ∷ []

flush_event_type-newest_example :
    (flush_event_type "task" (run events (new 100))).1 ≡ newest "task" events none
flush_event_type-newest_example = flush_event_type-newest 100 "task" events
