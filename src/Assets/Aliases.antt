-- ===== src/Assets/Aliases.antt =====
-- The aliases of a page in the menus (asset_compiler/navigation_aliases.py).
pub mod Chains
pub mod Drafts
pub mod Walks
pub mod Tests
