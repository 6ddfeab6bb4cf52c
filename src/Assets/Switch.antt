-- ===== src/Assets/Switch.antt =====
-- asset_compiler/current_state_switch.py: which crawl of a system is the current one.
pub mod Rows
pub mod Load
pub mod Apply
pub mod OneActive
pub mod Promoted
pub mod Tests
