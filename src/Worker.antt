-- ===== src/Worker.antt =====
-- backend/src/app/workers/runner.py: how a worker takes queued jobs, one at a time.
pub mod Runner
pub mod Oldest
pub mod Drain
pub mod Tests
