-- ===== src/Sequence.antt =====
-- src/core/sequence: sequences of actions, their conditions and retries, and the engine.
pub mod Definition
pub mod Registry
pub mod Condition
pub mod Retry
pub mod Engine
pub mod Execution
pub mod Steps
pub mod Turns
pub mod Counts
pub mod Bounds
pub mod Completion
pub mod Retries
pub mod Unpaused
pub mod Total
pub mod Status
pub mod Tests
