-- ===== src/Daemon/Orchestrator/Effects.antt =====
-- crates/archangeld/src/orchestrator.rs: what the shared steps do to the transport and to the pending
-- actions.
use archangel.Common.{
  ℕ, ◌≡◌, refl, ap, ◌∙◌, ◌⊎◌, inl, inr, Option, none, some, List, Result, ok, err,
}
use archangel.Common.Text.{Str}
use archangel.Common.Map.{Key}
use archangel.Ipc.{ExecOutcome, completed, rejected}
use archangel.Audit.{AuditEvent}
use archangel.Daemon.Orchestrator.{
  Setting, OrchestratorError, Orchestrator, Step, next, pure, ◌>>=◌, ◌>>◌, record_event, note,
  record_snapshot, record_outcome, send_frame, dispatch,
}
use archangel.Daemon.Orchestrator

module _ (t : Setting) where
  -- What holds of where the first step stops, and of where the second leads, holds of both.
  pub next-cases :
      {A B : Type 0} (P : Orchestrator t → Type 0) (p : Orchestrator t × Result A OrchestratorError)
      (f : A → Step t B)
      → ((why : OrchestratorError) → p.1 ≡ err why → P p.0)
      → ((a : A) → p.1 ≡ ok a → P (f a p.0).0)
      → P (next p f).0
  next-cases P (o, err why) f stops goes_on = stops why refl
  next-cases P (o, ok a) f stops goes_on = goes_on a refl

  -- Nothing is sent, and nothing becomes pending or ceases to be.
  pub record Keeps (o o' : Orchestrator t) : Type 0 where
    pub transport_lem : o'.transport ≡ o.transport
    pub pending_lem : o'.pending ≡ o.pending

  pub Keeps-trans : (o o' o'' : Orchestrator t) → Keeps o o' → Keeps o' o'' → Keeps o o''
  Keeps-trans o o' o'' h k = record {
    transport_lem = k.transport_lem ∙ h.transport_lem;
    pending_lem = k.pending_lem ∙ h.pending_lem;
  }

  pub record_event-Keeps :
      (event : AuditEvent) (o : Orchestrator t) → Keeps o (record_event t event o).0
  unfolding record_event
  record_event-Keeps event o = record { transport_lem = refl; pending_lem = refl }

  pub note-Keeps : (message : Str) (o : Orchestrator t) → Keeps o (note t message o).0
  unfolding note
  note-Keeps message o = record_event-Keeps (AuditEvent.note message) o

  -- A step that keeps both, before an answer that is pure.
  pub next-pure-Keeps :
      {A B : Type 0} (o : Orchestrator t) (p : Orchestrator t × Result A OrchestratorError) (b : B)
      → Keeps o p.0
      → Keeps o (next p (λ _. pure b)).0
  next-pure-Keeps o p b h = next-cases (Keeps o) p (λ _. pure b) (λ why e. h) (λ a e. h)

  pub deny-Keeps :
      (action_id : Key) (exec stage reason : Str) (o : Orchestrator t)
      → Keeps o (Orchestrator.deny t action_id exec stage reason o).0
  unfolding Orchestrator.deny
  deny-Keeps action_id exec stage reason o =
      next-pure-Keeps o (record_event t _ o) _ (record_event-Keeps _ o)

  record_snapshot-Keeps :
      (action_id : Key) (snapshot_id : Option Str) (o : Orchestrator t)
      → Keeps o (record_snapshot t action_id snapshot_id o).0
  record_snapshot-Keeps action_id none o = record { transport_lem = refl; pending_lem = refl }
  record_snapshot-Keeps action_id (some snapshot_id) o = record_event-Keeps _ o

  pub record_outcome-Keeps :
      (action_id : Key) (exec : Str) (outcome : ExecOutcome Str) (o : Orchestrator t)
      → Keeps o (record_outcome t action_id exec outcome o).0
  unfolding record_outcome
  record_outcome-Keeps action_id exec (completed c) o =
      let first = record_snapshot-Keeps action_id c.snapshot_id o in
      next-cases (Keeps o) (record_snapshot t action_id c.snapshot_id o) _ (λ why e. first)
        (λ a e.
          let o' = (record_snapshot t action_id c.snapshot_id o).0 in
          Keeps-trans o o' _ first
            (next-pure-Keeps o' (record_event t _ o') _ (record_event-Keeps _ o')))
  record_outcome-Keeps action_id exec (rejected stage reason) o =
      next-pure-Keeps o (note t _ o) _ (note-Keeps _ o)

  -- The frame was sent, once, after the log took the event that announces it.
  pub record IsDispatched (action_id : Key) (exec args_sha256 : Str) (frame : List ℕ)
      (o o' : Orchestrator t) : Type 0 where
    pub announced :
        (record_event t (AuditEvent.exec_requested o.session.id action_id exec args_sha256) o).1
        ≡ ok tt
    pub sent : o'.transport ≡ (t.send o.transport frame).0

  send_frame-sends :
      (action_id : Key) (exec : Str) (frame : List ℕ) (o : Orchestrator t)
      → let o' =
          (next
            (send_frame t frame o)
            (λ answer. record_outcome t action_id exec answer.outcome)).0 in
        (o'.transport ≡ (t.send o.transport frame).0) × (o'.pending ≡ o.pending)
  unfolding send_frame
  send_frame-sends action_id exec frame o =
      next-cases (λ o'. (o'.transport ≡ (t.send o.transport frame).0) × (o'.pending ≡ o.pending))
        (send_frame t frame o) _ (λ why e. (refl, refl))
        (λ answer e.
          let k = record_outcome-Keeps action_id exec answer.outcome (send_frame t frame o).0 in
          (k.transport_lem, k.pending_lem))

  -- Dispatching sends the frame or nothing, and leaves the pending actions alone.
  pub dispatch-sends :
      (action_id : Key) (exec args_sha256 : Str) (frame : List ℕ) (o : Orchestrator t)
      → let o' = (dispatch t action_id exec args_sha256 frame o).0 in
        ((o'.transport ≡ o.transport) ⊎ IsDispatched action_id exec args_sha256 frame o o')
        × (o'.pending ≡ o.pending)
  unfolding dispatch
  dispatch-sends action_id exec args_sha256 frame o =
      let event = AuditEvent.exec_requested o.session.id action_id exec args_sha256 in
      let k = record_event-Keeps event o in
      next-cases
        (λ o'.
          ((o'.transport ≡ o.transport) ⊎ IsDispatched action_id exec args_sha256 frame o o')
          × (o'.pending ≡ o.pending))
        (record_event t event o) _ (λ why e. (inl k.transport_lem, k.pending_lem))
        (λ done e.
          let (sent, kept) = send_frame-sends action_id exec frame (record_event t event o).0 in
          (
            inr (record {
              announced = e;
              sent = sent ∙ ap (λ tr. (t.send tr frame).0) k.transport_lem;
            }),
            kept ∙ k.pending_lem,
          ))
