-- ===== src/Daemon/Orchestrator/Reachable.antt =====
-- crates/archangeld/src/orchestrator.rs: the states that the operations lead to.
use archangel.Common.{◌≤◌, ◌≡◌, List, [], length, arith}
use archangel.Common.Text.{Str}
use archangel.Common.Map.{Key, length-remove}
use archangel.Daemon.Orchestrator.{Setting, Orchestrator, prune_pending}
use archangel.Daemon.Orchestrator.Approve.{take_pending, approve, reject}
use archangel.Daemon.Orchestrator.Run.{run_task, start}
use archangel.Daemon.Orchestrator.Effects.{record_event-Keeps}
use archangel.Daemon.Orchestrator.Approvals.{taken, settle-sends}
use archangel.Daemon.Orchestrator.Proposals.{IsBounded, Keeps-IsBounded, prune_at-IsBounded}
use archangel.Daemon.Orchestrator.Tasks.{run_task-effects}

module _ (t : Setting) where
  -- One operation on an orchestrator, whether it answers or fails.
  pub data Operates : Orchestrator t → Orchestrator t → Type 0 where
    starts : (o : Orchestrator t) → Operates o (start t o).0
    runs :
        (task : Str) (untrusted : List (Str × Str)) (o : Orchestrator t)
        → Operates o (run_task t task untrusted o).0
    approves :
        (id : Key) (action_digest : Str) (o : Orchestrator t)
        → Operates o (approve t id action_digest o).0
    rejects : (id : Key) (o : Orchestrator t) → Operates o (reject t id o).0

  -- Any number of operations.
  pub data Reaches (o : Orchestrator t) : Orchestrator t → Type 0 where
    here : Reaches o o
    further : {o' o'' : Orchestrator t} → Reaches o o' → Operates o' o'' → Reaches o o''

  taken-IsBounded : (id : Key) (o : Orchestrator t) → IsBounded t o → IsBounded t (taken t id o)
  unfolding IsBounded
  taken-IsBounded id o h = omega (arith, length-remove id _, prune_at-IsBounded t o h)

  approve-IsBounded :
      (id : Key) (action_digest : Str) (o : Orchestrator t)
      → IsBounded t o
      → IsBounded t (approve t id action_digest o).0
  unfolding approve prune_pending take_pending IsBounded
  approve-IsBounded id action_digest o h =
      rw (settle-sends t action_digest _ (taken t id o)).1 (taken-IsBounded id o h)

  reject-IsBounded : (id : Key) (o : Orchestrator t) → IsBounded t o → IsBounded t (reject t id o).0
  unfolding reject IsBounded
  reject-IsBounded id o h = omega (arith, h, length-remove id o.pending)

  operates-IsBounded : {o o' : Orchestrator t} → Operates o o' → IsBounded t o → IsBounded t o'
  unfolding start
  operates-IsBounded (starts o) h = Keeps-IsBounded t o _ (record_event-Keeps t _ o) h
  operates-IsBounded (runs task untrusted o) h = (run_task-effects t task untrusted o).1 h
  operates-IsBounded (approves id action_digest o) h = approve-IsBounded id action_digest o h
  operates-IsBounded (rejects id o) h = reject-IsBounded id o h

  -- However the operator and the model drive an orchestrator that starts with nothing pending, never
  -- more than 64 actions wait for an approval.
  pub Reaches-bounded :
      (o o' : Orchestrator t) → o.pending ≡ [] → Reaches o o' → length o'.pending ≤ 64
  unfolding IsBounded
  Reaches-bounded o o' empty here = rw empty (omega arith)
  Reaches-bounded o o' empty (further r s) = operates-IsBounded s (Reaches-bounded o _ empty r)
