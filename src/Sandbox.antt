-- ===== src/Sandbox.antt =====
-- The crate archangel-sandbox, file plan.rs: what a sandbox is asked to be.
pub mod Limits
pub mod Plan
pub mod Cgroup
pub mod Names
pub mod Sound
mod Tests
use archangel.Common.{Option, List}
use archangel.Common.Text.{Str}

pub data NetworkMode : Type 0 where
  none loopback egress : NetworkMode

pub record SandboxPolicy : Type 0 where
  pub syscall_profile : Str
  pub capabilities : List Str
  pub allowed_paths_ro : List Str
  pub allowed_paths_rw : List Str
  pub network : NetworkMode
  pub cpu_max : Option Str
  pub memory_max : Option Str
