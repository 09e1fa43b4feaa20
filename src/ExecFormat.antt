-- ===== src/ExecFormat.antt =====
-- The crate archangel-exec-format: signed bundles.
pub mod Manifest
pub mod Args
pub mod Hex
pub mod Verify
mod Tests
