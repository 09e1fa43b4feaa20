-- ===== src/Execd/Handler/Execution.antt =====
-- crates/archangel-execd/src/handler.rs: the recovery point, the sandbox, the cgroup and the run.
use archangel.Common.{
  ◌≡◌, refl, sym, ap, ◌∙◌, inl, inr, Bool, true, false, not, Option, none, some, List, [], ◌∷◌,
  arith, Result, ok, err, map_err-ok, Result-cases, if◌then◌else◌, head?, ok_injective,
  err_injective, subst,
}
use archangel.Common.Text.{Str}
use archangel.Common.Map.{Key}
use archangel.Policy.Denylist.{Matchers}
use archangel.ExecFormat.Manifest.{ExecManifest}
use archangel.Ipc.{ExecRequest}
use archangel.Execd.Handler.{
  Collaborators, Executor, Response, RunResult, sandbox_policy, snapshot_gate, take_snapshot,
  snapshotted, sandbox_gate, cgroup_gate, execute, carry_out, completion,
}
use archangel.Execd.Handler.Refusals.{
  IsRefusal, Refuses, Refuses-snapshot_gate, Refuses-sandbox_gate, Refuses-cgroup_gate,
}

module _ (m : Matchers) (c : Collaborators) (x : Executor m c) (w : c.World) (request : ExecRequest)
    (bundle : ExecManifest) where
  -- The recovery point `id`, taken of the bundle's first writable path, is in the world `w'`.
  pub record IsRecoverable (id : Str) (w' : c.World) : Type 0 where
    pub backend : c.Snapshotter
    pub target : Str
    pub backend_lem : x.snapshotter ≡ some backend
    pub target_lem : head? bundle.sandbox.allowed_paths_rw ≡ some target
    pub taken : c.snapshot backend w target ≡ (w', ok id)

  -- A bundle that mutates persistent state has its recovery point, and another touched nothing.
  abbrev pub HasRecovery : Option Str → c.World → Type 0
  HasRecovery none w' = (bundle.meta.mutates_persistent_state ≡ false) × (w' ≡ w)
  HasRecovery (some id) w' = (bundle.meta.mutates_persistent_state ≡ true) × IsRecoverable id w'

  snapshotted-ok :
      (id : Key) (taken : Result Str Str) (recovery : Option Str)
      → snapshotted m c id taken ≡ ok recovery
      → (s : Str) × (taken ≡ ok s) × (recovery ≡ some s)
  snapshotted-ok id (ok s) recovery h = (s, refl, ground arith)
  snapshotted-ok id (err e) recovery h = cc

  take_snapshot-ok :
      (paths : List Str) (backend : Option c.Snapshotter) (recovery : Option Str)
      → (take_snapshot m c w request.action_id paths backend).1 ≡ ok recovery
      → (id : Str) × (b : c.Snapshotter) × (target : Str) × (recovery ≡ some id)
        × (backend ≡ some b)
        × (head? paths ≡ some target)
        × (c.snapshot b w target ≡ ((take_snapshot m c w request.action_id paths backend).0, ok id))
  take_snapshot-ok [] backend recovery h = cc
  take_snapshot-ok (target ∷ _) none recovery h = cc
  take_snapshot-ok (target ∷ _) (some b) recovery h =
      let (id, taken, same) =
        snapshotted-ok request.action_id (c.snapshot b w target).1 recovery h in
      (id, b, target, same, refl, refl, ap (λ t. ((c.snapshot b w target).0, t)) taken)

  recovery_of :
      (recovery : Option Str) (w' : c.World)
      → bundle.meta.mutates_persistent_state ≡ true
      → ((id : Str) × (b : c.Snapshotter) × (target : Str) × (recovery ≡ some id)
          × (x.snapshotter ≡ some b)
          × (head? bundle.sandbox.allowed_paths_rw ≡ some target)
          × (c.snapshot b w target ≡ (w', ok id)))
      → HasRecovery recovery w'
  recovery_of none w' e (id, b, target, same, _, _, _) = absurd (cc (same))
  recovery_of (some id') w' e (id, b, target, same, have, first, taken) = (
    e,
    record {
      backend = b;
      target = target;
      backend_lem = have;
      target_lem = first;
      taken = taken ∙ ap (λ i. (w', ok i)) (let back : id ≡ id' = ground arith in back);
    },
  )

  at_snapshot :
      (b : Bool) (recovery : Option Str)
      → bundle.meta.mutates_persistent_state ≡ b
      → (if not b
          then (w, ok none)
          else take_snapshot m c w request.action_id bundle.sandbox.allowed_paths_rw
              x.snapshotter).1
        ≡ ok recovery
      → HasRecovery recovery
          (if not b
            then (w, ok none)
            else take_snapshot m c w request.action_id bundle.sandbox.allowed_paths_rw
                x.snapshotter).0
  at_snapshot false none e h = (e, refl)
  at_snapshot false (some id) e h = cc
  at_snapshot true recovery e h =
      recovery_of recovery
        (take_snapshot m c w request.action_id bundle.sandbox.allowed_paths_rw x.snapshotter).0 e
        (take_snapshot-ok bundle.sandbox.allowed_paths_rw x.snapshotter recovery h)

  pub snapshot_gate-ok :
      (recovery : Option Str)
      → (snapshot_gate m c x w request bundle).1 ≡ ok recovery
      → HasRecovery recovery (snapshot_gate m c x w request bundle).0
  unfolding snapshot_gate
  snapshot_gate-ok recovery h = at_snapshot bundle.meta.mutates_persistent_state recovery refl h

  -- The bundle was run, in the sandbox that its manifest asks for and with the limits of the
  -- executor, behind its recovery point, and the response tells what the run gave.
  pub record IsExecuted (w' : c.World) (r : Response) : Type 0 where
    pub recovery : Option Str
    pub secured : c.World
    pub plan : c.SandboxPlan
    pub confined : c.World
    pub cgroup : Option c.Cgroup
    pub recovery_lem : HasRecovery recovery secured
    pub plan_lem : c.plan (sandbox_policy bundle.sandbox) ≡ ok plan
    pub cgroup_lem : c.create_for_self secured request.action_id plan ≡ (confined, ok cgroup)
    pub response_lem :
        r
        ≡ completion m c request.action_id recovery
            (c.run confined bundle.payload.inline request.args x.limits plan cgroup).1
    pub world_lem :
        w'
        ≡ c.drop_cgroup
            (c.run confined bundle.payload.inline request.args x.limits plan cgroup).0
            cgroup

  abbrev secured_world : c.World
  secured_world = (snapshot_gate m c x w request bundle).0

  module _ (recovery : Option Str) (plan : c.SandboxPlan) (cgroup : Option c.Cgroup)
      (e : (snapshot_gate m c x w request bundle).1 ≡ ok recovery)
      (f : sandbox_gate m c request bundle ≡ ok plan)
      (g : (cgroup_gate m c secured_world request plan).1 ≡ ok cgroup) where
    abbrev result : c.World × RunResult
    result =
        c.run (cgroup_gate m c secured_world request plan).0 bundle.payload.inline request.args
          x.limits plan cgroup

    carry_out-eq :
        carry_out m c x w request bundle
        ≡ (c.drop_cgroup result.0 cgroup, ok (completion m c request.action_id recovery result.1))
    unfolding carry_out execute
    carry_out-eq = rw (e, carry_out) (rw (f, carry_out) (rw (g, carry_out) refl))

    IsExecuted-result :
        IsExecuted
          (c.drop_cgroup result.0 cgroup)
          (completion m c request.action_id recovery result.1)
    unfolding sandbox_gate cgroup_gate
    IsExecuted-result = record {
      recovery = recovery;
      secured = secured_world;
      plan = plan;
      confined = (c.create_for_self secured_world request.action_id plan).0;
      cgroup = cgroup;
      recovery_lem = snapshot_gate-ok recovery e;
      plan_lem = map_err-ok _ _ f;
      cgroup_lem =
          ap (λ t. ((c.create_for_self secured_world request.action_id plan).0, t))
            (map_err-ok _ _ g);
      response_lem = refl;
      world_lem = refl;
    }

    pub executed :
        IsExecuted
          (carry_out m c x w request bundle).0
          (completion m c request.action_id recovery result.1)
        × ((carry_out m c x w request bundle).1
            ≡ ok (completion m c request.action_id recovery result.1))
    executed = rw carry_out-eq (IsExecuted-result, refl)

  -- What a run answers is the response of an executed bundle.
  pub carry_out-ok :
      (r : Response)
      → (carry_out m c x w request bundle).1 ≡ ok r
      → IsExecuted (carry_out m c x w request bundle).0 r
  unfolding carry_out
  carry_out-ok r h = elim (Result-cases (snapshot_gate m c x w request bundle).1) [
    | inr (why, e) ↦ absurd (cc (rw (e, carry_out) at h))
    | inl (recovery, e) ↦ elim (Result-cases (sandbox_gate m c request bundle)) [
      | inr (why, f) ↦ absurd (cc (rw (f, carry_out) at (rw (e, carry_out) at h)))
      | inl (plan, f) ↦ elim (Result-cases (cgroup_gate m c secured_world request plan).1) [
        | inr (why, g) ↦
            absurd (cc (rw (g, carry_out) at (rw (f, carry_out) at (rw (e, carry_out) at h))))
        | inl (cgroup, g) ↦
            let (x', y) = executed recovery plan cgroup e f g in
            let same : completion m c request.action_id recovery
                  (result recovery plan cgroup e f g).1
                ≡ r =
              ok_injective (sym y ∙ h) in
            subst (λ s. IsExecuted (carry_out m c x w request bundle).0 s) same x'
      ]
    ]
  ]

  pub Refuses-carry_out : Refuses (carry_out m c x w request bundle).1
  unfolding carry_out
  Refuses-carry_out r h = elim (Result-cases (snapshot_gate m c x w request bundle).1) [
    | inr (why, e) ↦
        let same : why ≡ r = err_injective (rw (e, carry_out) at h) in
        subst IsRefusal same (Refuses-snapshot_gate m c x request w bundle why e)
    | inl (recovery, e) ↦ elim (Result-cases (sandbox_gate m c request bundle)) [
      | inr (why, f) ↦
          let same : why ≡ r = err_injective (rw (f, carry_out) at (rw (e, carry_out) at h)) in
          subst IsRefusal same (Refuses-sandbox_gate m c x request bundle why f)
      | inl (plan, f) ↦ elim (Result-cases (cgroup_gate m c secured_world request plan).1) [
        | inr (why, g) ↦
            let same : why ≡ r =
              err_injective
                (rw (g, carry_out) at (rw (f, carry_out) at (rw (e, carry_out) at h))) in
            subst IsRefusal same (Refuses-cgroup_gate m c x request secured_world plan why g)
        | inl (cgroup, g) ↦ absurd (cc ((executed recovery plan cgroup e f g).1, h))
      ]
    ]
  ]
