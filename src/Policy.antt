-- ===== src/Policy.antt =====
-- The crate archangel-policy: path normalisation, the denylist, the allowlist and the engine.
pub mod Pathnorm
pub mod Denylist
pub mod Allowlist
pub mod Engine
pub mod Tests
