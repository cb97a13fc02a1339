-- ===== src/Control.antt =====
-- src/core/control: the control mode, the priorities, the queues and the behaviour arbiter.
pub mod Lanes
pub mod Mode
pub mod Priority
pub mod Request
pub mod BehaviorPriorityQueue
pub mod TaskQueue
pub mod Objects
pub mod Arbiter
mod Tests
