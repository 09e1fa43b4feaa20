-- ===== src/ExecFormat/Manifest.antt =====
-- crates/archangel-exec-format/src/manifest.rs: the typed manifest of a bundle. A `BTreeMap` is the
-- list of its entries in the order of their keys.
use archangel.Common.{ℕ, ℤ, Bool, Option, List}
use archangel.Common.Text.{Str}
use archangel.Common.Map.{HashMap}
use archangel.Core.{RiskLevel}

pub record Meta : Type 0 where
  pub name : Str
  pub version : Str
  pub risk : RiskLevel
  pub read_only : Bool
  pub mutates_persistent_state : Bool
  pub requires_network : Bool

pub data ArgType : Type 0 where
  string : ArgType

pub record ArgSpec : Type 0 where
  pub ty : ArgType
  pub regex : Option Str
  pub required : Bool

pub data NetworkPolicy : Type 0 where
  none loopback egress : NetworkPolicy

pub record SandboxSpec : Type 0 where
  pub capabilities : List Str
  pub allowed_paths_ro : List Str
  pub allowed_paths_rw : List Str
  pub syscall_profile : Str
  pub network : NetworkPolicy
  pub cpu_max : Option Str
  pub memory_max : Option Str
  pub timeout_seconds : ℕ

pub data PayloadType : Type 0 where
  bash : PayloadType

pub record Payload : Type 0 where
  pub ty : PayloadType
  pub sha256 : Str
  pub inline : Str

pub record HealthCheck : Type 0 where
  pub command : Str
  pub expect_exit : ℤ
  pub timeout_seconds : ℕ

pub record ExecManifest : Type 0 where
  pub meta : Meta
  pub args : HashMap ArgSpec
  pub sandbox : SandboxSpec
  pub payload : Payload
  pub health_check : Option HealthCheck
