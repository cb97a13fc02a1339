-- ===== src/Event.antt =====
-- src/core/event: the event bus's priority queue, with its drop policy, expiry and coalescing.
pub mod CoalescingPolicy
pub mod ThrottlingPolicy
pub mod PrioritizedEvent
pub mod PriorityQueue
pub mod LockFreeQueue
pub mod Tests
