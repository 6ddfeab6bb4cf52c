-- ===== src/Assets/Reconcile.antt =====
-- asset_compiler/reconciliation.py: which page assets and page checks retire after a full crawl.
pub mod Rows
pub mod Gate
pub mod Truth
pub mod Dependencies
pub mod Decisions
pub mod Chain
pub mod Retired
pub mod Blame
pub mod Clean
pub mod Stored
pub mod Safety
pub mod Tests
