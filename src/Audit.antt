-- ===== src/Audit.antt =====
-- The crate archangel-audit: the events, the records and the entries of the signed, hash-chained log
-- (entry.rs), and the errors of its writer and its verifier (error.rs). The text of a reason is kept
-- as what it is formatted from.
pub mod Entry
pub mod Log
pub mod Verify
pub mod Tests
use archangel.Common.{ℕ, ℤ, Bool}
use archangel.Common.Text.{Str}
use archangel.Common.Map.{Key}
use archangel.Core.{OperationMode}
use archangel.ExecFormat.Hex.{HexError}

pub data Decision : Type 0 where
  allow deny require_approval : Decision

pub data AuditEvent : Type 0 where
  genesis : (audit_public_key : Str) → AuditEvent
  session_started : (session_id : Key) (mode : OperationMode) (profile : Str) → AuditEvent
  session_ended : (session_id : Key) (reason : Str) → AuditEvent
  llm_request : (session_id : Key) (backend model prompt_sha256 : Str) → AuditEvent
  llm_response : (session_id : Key) (response_sha256 : Str) (canary_triggered : Bool) → AuditEvent
  policy_decision :
      (session_id action_id : Key) (exec : Str) (decision : Decision) (reason : Str) → AuditEvent
  approval_granted : (session_id action_id : Key) (approver : Str) → AuditEvent
  exec_requested : (session_id action_id : Key) (exec args_sha256 : Str) → AuditEvent
  exec_completed :
      (session_id action_id : Key) (exit_code : ℤ) (duration_ms : ℕ)
      (stdout_sha256 stderr_sha256 : Str)
      → AuditEvent
  snapshot_taken : (session_id action_id : Key) (snapshot_id : Str) → AuditEvent
  rollback_performed : (session_id action_id : Key) (snapshot_id : Str) → AuditEvent
  note : (message : Str) → AuditEvent

pub record AuditRecord : Type 0 where
  pub seq : ℕ
  pub timestamp_ms : ℕ
  pub prev_hash : Str
  pub event : AuditEvent

pub record AuditEntry : Type 0 where
  pub record_ : AuditRecord
  pub signature : Str
  pub entry_hash : Str

pub data BreakReason : Type 0 where
  does_not_parse : Str → BreakReason
  seq_mismatch : (found : ℕ) → BreakReason
  prev_hash_mismatch key_mismatch not_genesis not_64_bytes hash_mismatch : BreakReason
  bad_signature : Str → BreakReason

pub data CryptoReason : Type 0 where
  seed_length key_length : CryptoReason
  invalid_key : Str → CryptoReason

pub data AuditError : Type 0 where
  io serde : Str → AuditError
  bad_hex : HexError → AuditError
  crypto : CryptoReason → AuditError
  chain_broken : (seq : ℕ) (reason : BreakReason) → AuditError
  empty : AuditError
