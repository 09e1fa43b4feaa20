-- ===== src/Daemon/Orchestrator/Approvals.antt =====
-- crates/archangeld/src/orchestrator.rs: what an approval sends.
use archangel.Common.{
  ◌-◌, ◌≤◌, ◌≡◌, refl, ap, subst, ◌∙◌, ◌⊎◌, inl, inr, Bool, true, false, Bool-cases, Option, none,
  some, Any, leb→le, Result, ok,
}
use archangel.Common.Text.{Str, str, str_eq, str_eq→eq, str_eq_refl}
use archangel.Common.Map.{Key, get, remove, get-retain, get-remove}
use archangel.Audit.{AuditEvent}
use archangel.Daemon.Orchestrator.{
  Setting, OrchestratorError, Pending, approval_ttl_ms, Orchestrator, record_event, prune_at,
  prune_pending,
}
use archangel.Daemon.Orchestrator.Approve.{
  take_pending, refuse_two_person, grant, by_persons, settle, approve,
}
use archangel.Daemon.Orchestrator.Effects.{
  next-cases, Keeps, record_event-Keeps, next-pure-Keeps, IsDispatched, dispatch-sends,
}

module _ (t : Setting) where
  -- The orchestrator once the expired actions and the one with the id are gone.
  abbrev pub taken : Key → Orchestrator t → Orchestrator t
  taken id o =
      let o' = prune_at t (t.now_ms o.world) o in record o' { pending = remove id o'.pending }

  abbrev pub granted :
      Pending → Orchestrator t → Orchestrator t × Result (Unit {0}) OrchestratorError
  granted p o =
      record_event t (AuditEvent.approval_granted o.session.id p.action_id (str "operator")) o

  -- The frame of a pending action was sent: the action is stored under the id, it has not expired,
  -- the operator echoed its digest, it needs one person only, and the log took the approval and then
  -- the request before the frame went out.
  pub record IsApproved (id : Key) (action_digest : Str) (o o' : Orchestrator t) : Type 0 where
    pub action : Pending
    pub stored : Any (λ (e : Key × Pending). (e.0 ≡ id) × (e.1 ≡ action)) o.pending
    pub unexpired : (t.now_ms o.world).1 - approval_ttl_ms ≤ action.created_ms
    pub digest_lem : action.digest ≡ action_digest
    pub one_person : action.two_person ≡ false
    pub granted_lem : (granted action (taken id o)).1 ≡ ok tt
    pub dispatched :
        IsDispatched t action.action_id action.exec action.args_sha256 action.frame
          (granted action (taken id o)).0
          o'

  grant-sends :
      (p : Pending) (o : Orchestrator t)
      → let o' = (grant t p o).0 in
        ((o'.transport ≡ o.transport)
          ⊎ (((granted p o).1 ≡ ok tt)
              × IsDispatched t p.action_id p.exec p.args_sha256 p.frame (granted p o).0 o'))
        × (o'.pending ≡ o.pending)
  unfolding grant
  grant-sends p o =
      let k =
        record_event-Keeps t (AuditEvent.approval_granted o.session.id p.action_id (str "operator"))
          o in
      next-cases t
        (λ o'.
          ((o'.transport ≡ o.transport)
            ⊎ (((granted p o).1 ≡ ok tt)
                × IsDispatched t p.action_id p.exec p.args_sha256 p.frame (granted p o).0 o'))
          × (o'.pending ≡ o.pending))
        (granted p o) _ (λ why e. (inl k.transport_lem, k.pending_lem))
        (λ done e.
          let (sent, kept) =
            dispatch-sends t p.action_id p.exec p.args_sha256 p.frame (granted p o).0 in
          (
            elim sent [ inl quiet ↦ inl (quiet ∙ k.transport_lem) | inr d ↦ inr (e, d) ],
            kept ∙ k.pending_lem,
          ))

  refuse_two_person-Keeps :
      (p : Pending) (o : Orchestrator t) → Keeps t o (refuse_two_person t p o).0
  unfolding refuse_two_person
  refuse_two_person-Keeps p o =
      next-pure-Keeps t o (record_event t _ o) _ (record_event-Keeps t _ o)

  -- The action that was found has the digest and needs one person, and was granted and sent.
  pub record IsGranted (action_digest : Str) (found : Option Pending) (o o' : Orchestrator t)
      : Type 0 where
    p : Pending
    found_lem : found ≡ some p
    digest_lem : p.digest ≡ action_digest
    one_person : p.two_person ≡ false
    granted_lem : (granted p o).1 ≡ ok tt
    dispatched : IsDispatched t p.action_id p.exec p.args_sha256 p.frame (granted p o).0 o'

  by_persons-sends :
      (persons : Bool) (p : Pending) (o : Orchestrator t)
      → p.two_person ≡ persons
      → let o' = (by_persons t persons p o).0 in
        ((o'.transport ≡ o.transport) ⊎ IsGranted p.digest (some p) o o') × (o'.pending ≡ o.pending)
  by_persons-sends true p o f =
      let k = refuse_two_person-Keeps p o in (inl k.transport_lem, k.pending_lem)
  by_persons-sends false p o f =
      let (sent, kept) = grant-sends p o in
      (
        elim sent [
          | inl quiet ↦ inl quiet
          | inr (g, d) ↦ inr (record {
            p = p;
            found_lem = refl;
            digest_lem = refl;
            one_person = f;
            granted_lem = g;
            dispatched = d;
          })
        ],
        kept,
      )

  -- What is made of the action that was taken.
  pub settle-sends :
      (action_digest : Str) (found : Option Pending) (o : Orchestrator t)
      → let o' = (settle t action_digest found o).0 in
        ((o'.transport ≡ o.transport) ⊎ IsGranted action_digest found o o')
        × (o'.pending ≡ o.pending)
  settle-sends action_digest none o = (inl refl, refl)
  settle-sends action_digest (some p) o = elim (Bool-cases (str_eq p.digest action_digest)) [
    | inr e ↦ rw e (inl refl, refl)
    | inl e ↦ rw e (
        subst
          (λ d.
            let o' = (by_persons t p.two_person p o).0 in
            ((o'.transport ≡ o.transport) ⊎ IsGranted d (some p) o o') × (o'.pending ≡ o.pending))
          (str_eq→eq p.digest action_digest e) (by_persons-sends p.two_person p o refl))
  ]

  -- An approval sends nothing, or the frame of an action that was stored under the id, has not
  -- expired, has the digest that the operator echoed, and needs one person only, once, after the log
  -- took the approval and the request. Whatever it does, nothing is pending under the id any more.
  pub approve-sends :
      (id : Key) (action_digest : Str) (o : Orchestrator t)
      → (get id (approve t id action_digest o).0.pending ≡ none)
        × (((approve t id action_digest o).0.transport ≡ o.transport)
            ⊎ IsApproved id action_digest o (approve t id action_digest o).0)
  unfolding approve prune_pending take_pending
  approve-sends id action_digest o =
      let pruned = prune_at t (t.now_ms o.world) o in
      let (sent, kept) = settle-sends action_digest (get id pruned.pending) (taken id o) in
      (
        ap (get id) kept ∙ (rw (get-remove id id pruned.pending, str_eq_refl id) refl),
        elim sent [
          | inl quiet ↦ inl quiet
          | inr g ↦
              let (kept', stored) = get-retain id _ o.pending g.found_lem in
              inr (record {
                action = g.p;
                stored = stored;
                unexpired = leb→le _ _ kept';
                digest_lem = g.digest_lem;
                one_person = g.one_person;
                granted_lem = g.granted_lem;
                dispatched = g.dispatched;
              })
        ],
      )
