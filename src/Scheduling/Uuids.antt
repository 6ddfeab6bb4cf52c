-- ===== src/Scheduling/Uuids.antt =====
-- UUIDs as numbers below 2^128, with Python's str(UUID) (in Jobs.Publish) and UUID(text).
pub mod Parse
pub mod Digits
pub mod RoundTrip
pub mod Tests
