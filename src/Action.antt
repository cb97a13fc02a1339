-- ===== src/Action.antt =====
-- src/core/action: actions, their results and context, the executor that runs them.
pub mod Result
pub mod Context
pub mod Executor
pub mod Factory
pub mod Tests
