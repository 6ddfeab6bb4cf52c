-- ===== src/Scheduling/Runtime.antt =====
-- SchedulerRuntime of runtime/scheduler_runtime.py.
pub mod Trigger
pub mod Callbacks
pub mod Lifecycle
pub mod Minutes
pub mod AuthOnce
pub mod CrawlOnce
pub mod Target
pub mod Tests
