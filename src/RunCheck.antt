-- ===== src/RunCheck.antt =====
-- The handler of "run_check" jobs (backend/src/app/jobs/run_check_job.py and run_check_retry.py).
pub mod Retry
pub mod Rows
pub mod Attempts
pub mod Admission
pub mod Marks
pub mod Handler
pub mod Trace
pub mod Settled
pub mod Linked
pub mod Total
pub mod Calls
pub mod Live
pub mod Tests
