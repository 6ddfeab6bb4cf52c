-- ===== src/PolicyJobs.antt =====
-- The handlers of the jobs that policies queue: crawls and refreshes of a login.
pub mod Rows
pub mod Marks
pub mod AuthRefresh
pub mod Crawl
pub mod Settled
pub mod Refresh
pub mod Drafts
pub mod Sweep
pub mod Tests
