-- ===== src/Ipc.antt =====
-- The crate archangel-ipc, file message.rs: what the daemon asks of the executor, and the answer.
-- The text of a reason is kept as what it is formatted from, a type that the executor fills.
pub mod Envelope
mod Tests
use archangel.Common.{ℕ, ℤ, Bool, Option}
use archangel.Common.Text.{Str}
use archangel.Common.Map.{Key, HashMap}
use archangel.Core.{OperationMode, RiskLevel}

pub record ExecRequest : Type 0 where
  pub session_id : Key
  pub action_id : Key
  pub seq : ℕ
  pub nonce : Key
  pub issued_ms : ℕ
  pub profile : Str
  pub mode : OperationMode
  pub exec_name : Str
  pub args : HashMap Str
  pub declared_risk : RiskLevel
  pub declared_read_only : Bool

pub data RejectStage : Type 0 where
  peer_unauthorized signature_invalid replay bundle_unverified denylist_hit not_allowlisted
        arg_rejected not_read_only snapshot_unavailable sandbox_rejected rate_limited exec_failure :
      RejectStage

pub record Completion : Type 0 where
  pub exit_code : ℤ
  pub duration_ms : ℕ
  pub stdout : Str
  pub stderr : Str
  pub output_truncated : Bool
  pub snapshot_id : Option Str

pub data ExecOutcome (Reason : Type 0) : Type 0 where
  completed : Completion → ExecOutcome Reason
  rejected : RejectStage → Reason → ExecOutcome Reason

pub record ExecResponse (Reason : Type 0) : Type 0 where
  pub action_id : Key
  pub outcome : ExecOutcome Reason
