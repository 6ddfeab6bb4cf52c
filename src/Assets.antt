-- ===== src/Assets.antt =====
-- The asset compiler (backend/src/app/domains/asset_compiler).
pub mod Reconcile
pub mod Semantic
pub mod Switch
pub mod Fingerprints
pub mod Aliases
pub mod Plans
