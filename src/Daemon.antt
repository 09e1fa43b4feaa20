-- ===== src/Daemon.antt =====
-- The crate archangeld: sessions, prompts, the model's responses and the orchestrator.
pub mod Session
pub mod Prompt
pub mod Response
pub mod Orchestrator
pub mod Monitor
mod Tests
