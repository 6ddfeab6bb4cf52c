-- ===== src/Assets/Semantic.antt =====
-- asset_compiler/current_state_diff.py: the semantic state of a crawl and what changed in it.
pub mod Fingerprints
pub mod Diff
pub mod Changes
pub mod Tests
