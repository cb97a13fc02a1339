-- ===== src/Rt.antt =====
-- src/core/rt: the state machine, the schedule and the cyclic executive of the RT process.
pub mod StateMachine
pub mod ScheduleCalculator
pub mod Executive
pub mod DataStore
pub mod Tests
