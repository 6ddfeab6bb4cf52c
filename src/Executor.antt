-- ===== src/Executor.antt =====
-- The module executor of the runner: the steps of a plan, one after the other.
pub mod Params
pub mod Steps
pub mod Locators
pub mod Execute
pub mod Trace
pub mod Plans
pub mod Tests
