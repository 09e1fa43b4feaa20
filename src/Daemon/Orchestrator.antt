-- ===== src/Daemon/Orchestrator.antt =====
-- crates/archangeld/src/orchestrator.rs: the state of the orchestrator, and the steps that a task and
-- an approval share. A step is a function from the orchestrator to the orchestrator and its answer.
pub mod Approve
pub mod Invoke
pub mod Run
pub mod Effects
pub mod Approvals
pub mod Proposals
pub mod Answers
pub mod Tasks
pub mod Reachable
use archangel.Common.{
  ℕ, ℤ, ◌-◌, ◌*◌, Bool, true, false, Option, none, some, List, [], ◌∷◌, ◌++◌, leb, Result, ok, err,
  map_err,
}
use archangel.Common.Text.{Str, str}
use archangel.Common.Map.{Key, HashMap, retain}
use archangel.Core.{OperationMode, RiskLevel}
use archangel.Policy.Denylist.{Matchers}
use archangel.Policy.Engine.{PolicyDecision, PolicyEngine}
use archangel.ExecFormat.Manifest.{ExecManifest}
use archangel.ExecFormat.Args.{Regexes, ArgError}
use archangel.ExecFormat.Hex.{as_bytes}
use archangel.Ipc.{RejectStage, Completion, ExecOutcome, completed, rejected, ExecResponse}
use archangel.Ipc.Envelope.{Wire, IpcError}
use archangel.Audit.{AuditEvent, AuditError, Decision}
use archangel.Audit.Entry.{Externals, sha256_hex}
use archangel.Audit.Log.{DurableSink, AuditLog, append}
use archangel.Daemon.Session.{Session}
use archangel.Daemon.Prompt.{SessionSecrets, ToolSpec, CompletionRequest}
use archangel.Daemon.Response.{RawAction, ResponseError}

-- What the orchestrator calls. The world holds the clock, the random numbers, the files and the
-- model; `debug_` and `display_` give the derived text of a value.
pub record Setting : Type 1 where
  pub externals : Externals
  pub Sink : Type 0
  pub durable : DurableSink Sink
  pub wire : Wire
  pub matchers : Matchers
  pub regexes : Regexes
  pub OperatorTrust : Type 0
  pub World : Type 0
  pub Transport : Type 0
  pub backend_name : Str
  pub now_ms : World → World × ℕ
  pub random_id : World → World × Key
  pub action_id : World → World × Key
  pub nonce : World → World × Key
  pub load : World → Str → Str → OperatorTrust → Result ExecManifest Str
  pub complete : World → CompletionRequest → World × Result Str Str
  pub send : Transport → List ℕ → Transport × Result (ExecResponse Str) Str
  pub raw_action : Str → Result RawAction Str
  pub args_to_vec : HashMap Str → List ℕ
  pub debug_decision : PolicyDecision → Str
  pub debug_stage : RejectStage → Str
  pub debug_risk : RiskLevel → Str
  pub debug_args : HashMap Str → Str
  pub display_reason : PolicyDecision → Str
  pub display_arg_error : ArgError → Str
  pub display_response_error : ResponseError → Str

pub data OrchestratorError : Type 0 where
  llm transport_failed : Str → OrchestratorError
  audit_failed : AuditError → OrchestratorError
  ipc : IpcError → OrchestratorError

pub data TaskOutcome : Type 0 where
  asked : (question : Str) → TaskOutcome
  refused : (reason : Str) → TaskOutcome
  denied : (stage reason : Str) → TaskOutcome
  approval_required :
      (approval_id : Key) (action_digest exec reason preview : Str) (two_person : Bool)
      → TaskOutcome
  compromised : TaskOutcome
  executed : (exec : Str) (exit_code : ℤ) (stdout stderr : Str) → TaskOutcome

-- An action that waits for its approval, with the frame that was signed for it.
pub record Pending : Type 0 where
  pub frame : List ℕ
  pub action_id : Key
  pub exec : Str
  pub digest : Str
  pub args_sha256 : Str
  pub two_person : Bool
  pub created_ms : ℕ

abbrev pub approval_ttl_ms : ℕ
approval_ttl_ms = 5 * 60 * 1000

abbrev pub max_pending : ℕ
max_pending = 64

module _ (t : Setting) where
  pub record Orchestrator : Type 0 where
    pub transport : t.Transport
    pub world : t.World
    pub policy : PolicyEngine
    pub trust : t.OperatorTrust
    pub bundle_dir : Str
    pub audit : AuditLog t.externals t.durable
    pub session : Session t.wire
    pub secrets : SessionSecrets
    pub model : Str
    pub max_tokens : ℕ
    pub tools : List ToolSpec
    pub pending : HashMap Pending

  abbrev pub Step : Type 0 → Type 0
  Step A = Orchestrator → Orchestrator × Result A OrchestratorError

module _ {t : Setting} where
  abbrev pub pure : {A : Type 0} → A → Step t A
  pure a o = (o, ok a)

  abbrev pub next :
      {A B : Type 0}
      → Orchestrator t × Result A OrchestratorError
      → (A → Step t B)
      → Orchestrator t × Result B OrchestratorError
  next (o, err why) f = (o, err why)
  next (o, ok a) f = f a o

  infixl 5 ◌>>=◌ ◌>>◌
  abbrev pub ◌>>=◌ : {A B : Type 0} → Step t A → (A → Step t B) → Step t B
  ◌>>=◌ m f o = next (m o) f

  abbrev pub ◌>>◌ : {B : Type 0} → Step t (Unit {0}) → Step t B → Step t B
  m >> k = m >>= λ _. k

module _ (t : Setting) where
  -- `self.audit.append(event)?`, at the time that the log reads.
  unfoldable pub record_event : AuditEvent → Step t (Unit {0})
  unfolding append
  record_event event o =
      let (w, now) = t.now_ms o.world in
      let (log, done) = append t.externals t.durable o.audit now event in
      (record o { world = w; audit = log }, map_err audit_failed done)

  unfoldable pub note : Str → Step t (Unit {0})
  unfolding record_event
  note message = record_event (AuditEvent.note message)

  unfoldable pub deny : Key → Str → Str → Str → Step t TaskOutcome
  unfolding record_event
  deny action_id exec stage reason o =
      (do
        record_event (
            AuditEvent.policy_decision o.session.id action_id exec Decision.deny
              (stage ++ (str ": " ++ reason)))
        pure (denied stage reason))
        o

  abbrev pub hash_text : Str → Str
  hash_text s = sha256_hex t.externals (as_bytes s)

  abbrev pub record_snapshot : Key → Option Str → Step t (Unit {0})
  record_snapshot action_id none o = (o, ok tt)
  record_snapshot action_id (some snapshot_id) o =
      record_event (AuditEvent.snapshot_taken o.session.id action_id snapshot_id) o

  unfoldable pub record_outcome : Key → Str → ExecOutcome Str → Step t TaskOutcome
  unfolding record_event note as_bytes sha256_hex
  record_outcome action_id exec (completed c) o =
      (do
        record_snapshot action_id c.snapshot_id
        record_event (
            AuditEvent.exec_completed o.session.id action_id c.exit_code c.duration_ms
              (hash_text c.stdout) (hash_text c.stderr))
        pure (executed exec c.exit_code c.stdout c.stderr))
        o
  record_outcome action_id exec (rejected stage reason) o =
      (do
        note (str "executor rejected (" ++ (t.debug_stage stage ++ (str "): " ++ reason)))
        pure (denied (str "executor:" ++ t.debug_stage stage) reason))
        o

  unfoldable pub send_frame : List ℕ → Step t (ExecResponse Str)
  send_frame frame o =
      let (transport, answer) = t.send o.transport frame in
      (record o { transport = transport }, map_err transport_failed answer)

  unfoldable pub dispatch : Key → Str → Str → List ℕ → Step t TaskOutcome
  unfolding record_event send_frame record_outcome
  dispatch action_id exec args_sha256 frame o =
      (do
        record_event (AuditEvent.exec_requested o.session.id action_id exec args_sha256)
        answer ← send_frame frame
        record_outcome action_id exec answer.outcome)
        o

  -- `now_ms().saturating_sub(APPROVAL_TTL_MS)` is subtraction that stops at 0.
  abbrev pub prune_at : t.World × ℕ → Orchestrator t → Orchestrator t
  prune_at (w, now) o = record o {
    world = w;
    pending = retain (λ p. leb (now - approval_ttl_ms) p.created_ms) o.pending;
  }

  unfoldable pub prune_pending : Step t (Unit {0})
  prune_pending o = (prune_at (t.now_ms o.world) o, ok tt)
