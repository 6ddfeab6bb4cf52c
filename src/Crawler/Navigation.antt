-- ===== src/Crawler/Navigation.antt =====
-- navigation_targets.py: the targets that a crawl finds and the registry that admits them.
pub mod Targets
pub mod Merge
pub mod Sources
pub mod Registry
pub mod Budgets
pub mod Room
pub mod Admission
pub mod Extend
pub mod Tests
