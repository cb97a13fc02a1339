-- ===== src/Ha.antt =====
-- src/core/ha: the high-availability state machine with its recovery policy, and the restarting of
-- failed processes.
pub mod Policy
pub mod StateMachine
pub mod Failover
pub mod Tests
