-- ===== src/Scheduling.antt =====
-- Published jobs and their schedules (backend/src/app/domains/runner_service/scheduler.py and
-- backend/src/app/jobs/published_job_trigger.py).
pub mod Clock
pub mod Cron
pub mod Jobs
pub mod Uuids
pub mod Policies
pub mod Registry
pub mod Runtime
