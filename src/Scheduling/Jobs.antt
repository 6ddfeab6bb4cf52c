-- ===== src/Scheduling/Jobs.antt =====
-- The tables of jobs and the service for published jobs.
pub mod Rows
pub mod Trigger
pub mod Service
pub mod Publish
pub mod Created
pub mod Rendered
pub mod PublishTests
pub mod Once
pub mod Pausing
pub mod Tests
