-- ===== src/Execd/Handler/Refusals.antt =====
-- crates/archangel-execd/src/handler.rs: an early return of the pipeline carries a rejection.
use archangel.Common.{
  ℕ, ◌≡◌, refl, Bool, true, false, not, ◌||◌, ◌++◌, Option, none, some, List, [], ◌∷◌, arith,
  Result, ok, err, map_err, ◌>>=◌, if◌then◌else◌,
}
use archangel.Common.Text.{Str, str}
use archangel.Common.Map.{Key}
use archangel.Policy.Denylist.{Matchers}
use archangel.Policy.Engine.{PolicyDecision, allow, require_approval, deny, not_allowed, evaluate}
use archangel.ExecFormat.Manifest.{ExecManifest}
use archangel.Ipc.{
  ExecRequest, RejectStage, rejected, signature_invalid, replay, bundle_unverified, denylist_hit,
  not_allowlisted, arg_rejected, not_read_only, rate_limited, snapshot_unavailable,
  sandbox_rejected,
}
use archangel.Core.{allows_mutation}
use archangel.Execd.RateLimit.{try_admit}
use archangel.Execd.Replay.{admit}
use archangel.Execd.Handler.{
  Reason, Collaborators, Executor, Gate, Response, authenticate, anti_replay, rate_gate, admissible,
  resolve_bundle, check_args_and_mutation, policy_gate, decided, snapshot_gate, take_snapshot,
  snapshotted, sandbox_gate, cgroup_gate, reject, unknown_action, malformed_envelope,
  envelope_rejected, replayed, denied, unlisted, unsafe_name, bundle_refused, argument_rejected,
  read_only_mode, rate_ceiling, sandbox_policy, plan_refused, cgroup_unenforceable, snapshot_failed,
  no_rw_path, no_backend, safe_exec_name, path_join, policy_request, action_class,
}

abbrev pub IsRefusal : Response → Type 0
IsRefusal r = (stage : RejectStage) × (why : Reason) × (r.outcome ≡ rejected stage why)

abbrev pub Refuses : {A : Type 0} → Gate A → Type 0
Refuses g = (r : Response) → g ≡ err r → IsRefusal r

module _ {A : Type 0} where
  Refuses-map_err :
      {E : Type 0} (id : Key) (stage : RejectStage) (f : E → Reason) (g : Result A E)
      → Refuses (map_err (λ e. reject id stage (f e)) g)
  Refuses-map_err id stage f (ok a) r h = cc
  Refuses-map_err id stage f (err e) r h =
      let same : reject id stage (f e) ≡ r = ground arith in rw (← same) (stage, f e, refl)

  Refuses-ok : (a : A) → Refuses {A = A} (ok a)
  Refuses-ok a r h = cc

  Refuses-reject :
      (id : Key) (stage : RejectStage) (why : Reason) → Refuses {A = A} (err (reject id stage why))
  Refuses-reject id stage why r h =
      let same : reject id stage why ≡ r = ground arith in rw (← same) (stage, why, refl)

  Refuses-if : (b : Bool) {g h : Gate A} → Refuses g → Refuses h → Refuses (if b then g else h)
  Refuses-if true p q = p
  Refuses-if false p q = q

  Refuses->>= :
      {B : Type 0} (g : Gate B) (k : B → Gate A)
      → Refuses g
      → ((b : B) → Refuses (k b))
      → Refuses (g >>= k)
  Refuses->>= (ok b) k p q r' h = q b r' h
  Refuses->>= (err r) k p q r' h = p r' (let same : r ≡ r' = ground arith in rw same refl)

module _ (m : Matchers) (c : Collaborators) (x : Executor m c) where
  pub Refuses-authenticate : (body : List ℕ) → Refuses (authenticate m c x body)
  unfolding authenticate
  Refuses-authenticate body =
      Refuses->>=
        (map_err (λ e. reject unknown_action signature_invalid (malformed_envelope e))
          (c.from_frame_body body))
        _
        (Refuses-map_err unknown_action signature_invalid malformed_envelope
          (c.from_frame_body body))
        (λ envelope.
          Refuses-map_err unknown_action signature_invalid envelope_rejected
            (c.open_envelope envelope x.session_key))

  module _ (request : ExecRequest) where
    pub Refuses-anti_replay : Refuses (anti_replay m c x request).1
    unfolding anti_replay
    Refuses-anti_replay =
        Refuses-map_err request.action_id replay replayed
          (admit x.replay request.session_id request.seq request.nonce).1

    Refuses-decided : (id : Key) (d : PolicyDecision) → Refuses (decided id d)
    Refuses-decided id allow = Refuses-ok tt
    Refuses-decided id (require_approval why two) = Refuses-ok tt
    Refuses-decided id (deny category rule why) =
        Refuses-reject id denylist_hit (denied category why)
    Refuses-decided id (not_allowed why) = Refuses-reject id not_allowlisted (unlisted why)

    Refuses-resolve_bundle : (w : c.World) → Refuses (resolve_bundle m c x w request)
    unfolding resolve_bundle
    Refuses-resolve_bundle w =
        Refuses-if (not (safe_exec_name request.exec_name))
          (Refuses-reject request.action_id bundle_unverified (unsafe_name request.exec_name))
          (Refuses-map_err request.action_id bundle_unverified bundle_refused (
            c.load w (path_join x.bundle_dir (request.exec_name ++ str ".exec"))
              (path_join x.bundle_dir (request.exec_name ++ str ".exec.sig")) x.trust))

    Refuses-check_args_and_mutation :
        (bundle : ExecManifest) → Refuses (check_args_and_mutation m c x request bundle)
    unfolding check_args_and_mutation
    Refuses-check_args_and_mutation bundle =
        Refuses->>=
          (map_err (λ e. reject request.action_id arg_rejected (argument_rejected e))
            (c.validate_args bundle request.args))
          _
          (Refuses-map_err request.action_id arg_rejected argument_rejected
            (c.validate_args bundle request.args))
          (λ u.
            Refuses-if (bundle.meta.read_only || allows_mutation x.mode_ceiling) (Refuses-ok tt)
              (Refuses-reject request.action_id not_read_only read_only_mode))

    pub Refuses-admissible : (w : c.World) → Refuses (admissible m c x w request)
    unfolding admissible policy_gate
    Refuses-admissible w =
        Refuses->>= (resolve_bundle m c x w request) _ (Refuses-resolve_bundle w) (λ bundle.
          Refuses->>= (check_args_and_mutation m c x request bundle) _
            (Refuses-check_args_and_mutation bundle)
            (λ u.
              Refuses->>=
                (decided request.action_id (evaluate m x.policy (policy_request request bundle))) _
                (Refuses-decided request.action_id
                  (evaluate m x.policy (policy_request request bundle)))
                (λ v. Refuses-ok bundle)))

    module _ (bundle : ExecManifest) where
      pub Refuses-rate_gate : (now : ℕ) → Refuses (rate_gate m c x now request bundle).1
      unfolding rate_gate
      Refuses-rate_gate now =
          Refuses-map_err request.action_id rate_limited rate_ceiling
            (try_admit x.rate now (action_class bundle)).1

    pub Refuses-snapshot_gate :
        (w : c.World) (bundle : ExecManifest) → Refuses (snapshot_gate m c x w request bundle).1
    unfolding snapshot_gate
    Refuses-snapshot_gate w bundle =
        verdict bundle.meta.mutates_persistent_state bundle.sandbox.allowed_paths_rw x.snapshotter
      where
        taken : (t : Result Str Str) → Refuses (snapshotted m c request.action_id t)
        taken (ok id) = Refuses-ok (some id)
        taken (err e) = Refuses-reject request.action_id snapshot_unavailable (snapshot_failed e)

        verdict :
            (b : Bool) (paths : List Str) (backend : Option c.Snapshotter)
            → Refuses
                (if not b
                  then (w, ok none)
                  else take_snapshot m c w request.action_id paths backend).1
        verdict false paths backend = Refuses-ok none
        verdict true [] backend = Refuses-reject request.action_id snapshot_unavailable no_rw_path
        verdict true (target ∷ _) none =
            Refuses-reject request.action_id snapshot_unavailable no_backend
        verdict true (target ∷ _) (some b) = taken (c.snapshot b w target).1

    pub Refuses-sandbox_gate : (bundle : ExecManifest) → Refuses (sandbox_gate m c request bundle)
    unfolding sandbox_gate
    Refuses-sandbox_gate bundle =
        Refuses-map_err request.action_id sandbox_rejected plan_refused
          (c.plan (sandbox_policy bundle.sandbox))

    pub Refuses-cgroup_gate :
        (w : c.World) (plan : c.SandboxPlan) → Refuses (cgroup_gate m c w request plan).1
    unfolding cgroup_gate
    Refuses-cgroup_gate w plan =
        Refuses-map_err request.action_id sandbox_rejected cgroup_unenforceable
          (c.create_for_self w request.action_id plan).1
