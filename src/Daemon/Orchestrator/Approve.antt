-- ===== src/Daemon/Orchestrator/Approve.antt =====
-- crates/archangeld/src/orchestrator.rs: the operator's approval or rejection of a pending action.
use archangel.Common.{Bool, true, false, not, Option, none, some, ◌++◌, if◌then◌else◌, ok}
use archangel.Common.Text.{Str, str, str_eq}
use archangel.Common.Map.{Key, get, remove}
use archangel.Audit.{AuditEvent}
use archangel.Daemon.Orchestrator.{
  Setting, TaskOutcome, denied, Pending, Orchestrator, Step, pure, ◌>>=◌, ◌>>◌, record_event,
  dispatch, prune_pending,
}

abbrev pub unknown_approval : TaskOutcome
unknown_approval = denied (str "approval") (str "unknown or expired approval id")

abbrev pub digest_mismatch : TaskOutcome
digest_mismatch =
    denied (str "approval")
      (str "digest mismatch: approval does not bind the action that was presented")

abbrev pub blocked : TaskOutcome
blocked = denied (str "two-person") (
    str
      "critical action needs two independent operator approvals; multi-operator ctl trust is a later milestone, so it stays blocked (fail-closed)")

module _ (t : Setting) where
  -- `self.pending.remove(approval_id)`
  unfoldable pub take_pending : Key → Step t (Option Pending)
  take_pending approval_id o =
      (record o { pending = remove approval_id o.pending }, ok (get approval_id o.pending))

  unfoldable pub refuse_two_person : Pending → Step t TaskOutcome
  unfolding record_event
  refuse_two_person p = do
    record_event t (
        AuditEvent.note (
          str "two-person rule unsatisfied for "
          ++ (p.exec ++ str " (single operator key); refused")))
    pure blocked

  unfoldable pub grant : Pending → Step t TaskOutcome
  unfolding record_event dispatch
  grant p o =
      (do
        record_event t (AuditEvent.approval_granted o.session.id p.action_id (str "operator"))
        dispatch t p.action_id p.exec p.args_sha256 p.frame)
        o

  -- The two-person rule cannot be met with a single operator key.
  abbrev pub by_persons : Bool → Pending → Step t TaskOutcome
  by_persons true p = refuse_two_person p
  by_persons false p = grant p

  abbrev pub settle : Str → Option Pending → Step t TaskOutcome
  settle action_digest none = pure unknown_approval
  settle action_digest (some p) =
      if not (str_eq p.digest action_digest)
      then pure digest_mismatch
      else by_persons p.two_person p

  unfoldable pub approve : Key → Str → Step t TaskOutcome
  unfolding prune_pending take_pending refuse_two_person grant
  approve approval_id action_digest = do
    prune_pending t
    p ← take_pending approval_id
    settle action_digest p

  abbrev pub rejection : Option Pending → TaskOutcome
  rejection none = unknown_approval
  rejection (some p) = denied (str "rejected") (str "operator rejected " ++ p.exec)

  unfoldable pub reject : Key → Orchestrator t → Orchestrator t × TaskOutcome
  reject approval_id o =
      (record o { pending = remove approval_id o.pending }, rejection (get approval_id o.pending))
