-- ===== src/Assets/Fingerprints.antt =====
-- asset_compiler/fingerprints.py: the fingerprint of a page, and how far two of them differ. The weights
-- and thresholds of the comparison are counted in hundredths: 20, 45, 15 and 20 against 20 and 60.
pub mod Compare
pub mod Drift
pub mod Build
pub mod Hashes
pub mod Menus
pub mod Tests
