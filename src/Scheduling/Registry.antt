-- ===== src/Scheduling/Registry.antt =====
-- SchedulerRegistry of control_plane/scheduler_registry.py.
pub mod Scheduler
pub mod Upsert
pub mod Keys
pub mod Overlay
pub mod Planned
pub mod Refines
pub mod InMemory
pub mod Tests
