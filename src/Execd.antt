-- ===== src/Execd.antt =====
-- The crate archangel-execd, the executor: blast-rate limits, replay protection and the pipeline.
pub mod RateLimit
pub mod Replay
pub mod Handler
mod Tests
