-- ===== src/Daemon/Orchestrator/Proposals.antt =====
-- crates/archangeld/src/orchestrator.rs: what `invoke` sends, and how many actions wait behind it.
use archangel.Common.{
  ℕ, ◌+◌, ◌≤◌, ◌≡◌, refl, ◌∙◌, ◌⊎◌, inl, inr, Bool, true, false, List, ◌++◌, leb, length, Result,
  ok, arith,
}
use archangel.Common.Text.{Str, str}
use archangel.Common.Map.{Key, HashMap, length-retain, length-insert}
use archangel.Policy.Engine.{PolicyDecision, allow, require_approval, deny, not_allowed}
use archangel.ExecFormat.Manifest.{ExecManifest}
use archangel.Audit.{AuditEvent}
use archangel.Audit.Entry.{sha256_hex}
use archangel.Daemon.Orchestrator.{
  Setting, OrchestratorError, max_pending, Orchestrator, record_event, prune_at, prune_pending,
}
use archangel.Daemon.Orchestrator.Invoke.{
  audit_decision, sign_frame, stash, stash_unless, await_approval, decide, policy_decision_of,
  propose,
}
use archangel.Daemon.Orchestrator.Effects.{
  next-cases, Keeps, record_event-Keeps, IsDispatched, dispatch-sends,
}

module _ (t : Setting) where
  -- At most `max_pending` actions wait.
  unfoldable pub IsBounded : Orchestrator t → Type 0
  IsBounded o = length o.pending ≤ max_pending

  abbrev pub recorded :
      Key
      → Str
      → Str
      → ExecManifest
      → Orchestrator t
      → Orchestrator t × Result (Unit {0}) OrchestratorError
  recorded action_id exec reason m o =
      record_event t
        (AuditEvent.policy_decision o.session.id action_id exec
          (audit_decision (policy_decision_of t o exec m))
          (reason ++ (str " :: " ++ t.debug_decision (policy_decision_of t o exec m))))
        o

  -- The policy allows the action outright, the log took the decision, and the frame that the session
  -- signed for this very action was sent.
  pub record IsProposed (action_id : Key) (exec : Str) (args : HashMap Str) (reason : Str)
      (m : ExecManifest) (o o' : Orchestrator t) : Type 0 where
    pub allowed : policy_decision_of t o exec m ≡ allow
    pub recorded_lem : (recorded action_id exec reason m o).1 ≡ ok tt
    pub frame : List ℕ
    pub signed :
        (sign_frame t action_id exec args m (recorded action_id exec reason m o).0).1 ≡ ok frame
    pub dispatched :
        IsDispatched t action_id exec
          (sha256_hex t.externals (t.args_to_vec args))
          frame
          (sign_frame t action_id exec args m (recorded action_id exec reason m o).0).0
          o'

  pub Keeps-IsBounded : (o o' : Orchestrator t) → Keeps t o o' → IsBounded o → IsBounded o'
  unfolding IsBounded
  Keeps-IsBounded o o' k h = rw k.pending_lem h

  pub prune_at-IsBounded :
      (o : Orchestrator t) → IsBounded o → IsBounded (prune_at t (t.now_ms o.world) o)
  unfolding IsBounded
  prune_at-IsBounded o h = omega (arith, h, length-retain _ o.pending)

  stash_unless-effects :
      (full : Bool) (action_id : Key) (exec : Str) (args : HashMap Str) (m : ExecManifest)
      (frame : List ℕ) (why : Str) (two_person : Bool) (o : Orchestrator t)
      → leb max_pending (length o.pending) ≡ full
      → let o' = (stash_unless t full action_id exec args m frame why two_person o).0 in
        (o'.transport ≡ o.transport) × (IsBounded o → IsBounded o')
  unfolding stash IsBounded
  stash_unless-effects true action_id exec args m frame why two_person o e = (refl, λ h. h)
  stash_unless-effects false action_id exec args m frame why two_person o e = (
    refl,
    λ h. omega (
      arith,
      length-insert _ _ o.pending,
      (let few : length o.pending + 1 ≤ max_pending = ground (arith, e) in few),
    ),
  )

  await_approval-effects :
      (action_id : Key) (exec : Str) (args : HashMap Str) (m : ExecManifest) (frame : List ℕ)
      (why : Str) (two_person : Bool) (o : Orchestrator t)
      → let o' = (await_approval t action_id exec args m frame why two_person o).0 in
        (o'.transport ≡ o.transport) × (IsBounded o → IsBounded o')
  unfolding await_approval prune_pending
  await_approval-effects action_id exec args m frame why two_person o =
      let pruned = prune_at t (t.now_ms o.world) o in
      let (quiet, bounded) =
        stash_unless-effects (leb max_pending (length pruned.pending)) action_id exec args m frame
          why two_person pruned refl in
      (quiet, λ h. bounded (prune_at-IsBounded o h))

  -- The frame goes out at once if the decision is to allow, and otherwise not.
  decide-effects :
      (action_id : Key) (exec : Str) (args : HashMap Str) (m : ExecManifest) (frame : List ℕ)
      (d : PolicyDecision) (o : Orchestrator t)
      → let o' = (decide t action_id exec args m frame d o).0 in
        ((o'.transport ≡ o.transport)
          ⊎ ((d ≡ allow)
              × IsDispatched t action_id exec
                  (sha256_hex t.externals (t.args_to_vec args))
                  frame
                  o
                  o'))
        × (IsBounded o → IsBounded o')
  unfolding IsBounded
  decide-effects action_id exec args m frame allow o =
      let (sent, kept) =
        dispatch-sends t action_id exec (sha256_hex t.externals (t.args_to_vec args)) frame o in
      (elim sent [ inl quiet ↦ inl quiet | inr d ↦ inr (refl, d) ], λ h. rw kept h)
  decide-effects action_id exec args m frame (require_approval why two_person) o =
      let (quiet, bounded) =
        await_approval-effects action_id exec args m frame
          (t.display_reason (require_approval why two_person)) two_person o in
      (inl quiet, bounded)
  decide-effects action_id exec args m frame (deny category rule why) o = (inl refl, λ h. h)
  decide-effects action_id exec args m frame (not_allowed why) o = (inl refl, λ h. h)

  sign_frame-Keeps :
      (action_id : Key) (exec : Str) (args : HashMap Str) (m : ExecManifest) (o : Orchestrator t)
      → Keeps t o (sign_frame t action_id exec args m o).0
  unfolding sign_frame
  sign_frame-Keeps action_id exec args m o = record { transport_lem = refl; pending_lem = refl }

  pub propose-effects :
      (action_id : Key) (exec : Str) (args : HashMap Str) (reason : Str) (m : ExecManifest)
      (o : Orchestrator t)
      → let o' = (propose t action_id exec args reason m o).0 in
        ((o'.transport ≡ o.transport) ⊎ IsProposed action_id exec args reason m o o')
        × (IsBounded o → IsBounded o')
  unfolding propose
  propose-effects action_id exec args reason m o =
      let o₁ = (recorded action_id exec reason m o).0 in
      let o₂ = (sign_frame t action_id exec args m o₁).0 in
      let k₁ : Keeps t o o₁ = record_event-Keeps t _ o in
      let k₂ : Keeps t o₁ o₂ = sign_frame-Keeps action_id exec args m o₁ in
      let P : Orchestrator t → Type 0 = λ o'.
        ((o'.transport ≡ o.transport) ⊎ IsProposed action_id exec args reason m o o')
        × (IsBounded o → IsBounded o') in
      next-cases t P (recorded action_id exec reason m o) _
        (λ why e. (inl k₁.transport_lem, Keeps-IsBounded o o₁ k₁))
        (λ done e.
          next-cases t P (sign_frame t action_id exec args m o₁) _
            (λ why f. (
              inl (k₂.transport_lem ∙ k₁.transport_lem),
              λ h. Keeps-IsBounded o₁ o₂ k₂ (Keeps-IsBounded o o₁ k₁ h),
            ))
            (λ frame f.
              let (sent, bounded) =
                decide-effects action_id exec args m frame (policy_decision_of t o exec m) o₂ in
              (
                elim sent [
                  | inl quiet ↦ inl (quiet ∙ (k₂.transport_lem ∙ k₁.transport_lem))
                  | inr (allowed, d) ↦ inr (record {
                    allowed = allowed;
                    recorded_lem = e;
                    frame = frame;
                    signed = f;
                    dispatched = d;
                  })
                ],
                λ h. bounded (Keeps-IsBounded o₁ o₂ k₂ (Keeps-IsBounded o o₁ k₁ h)),
              )))
