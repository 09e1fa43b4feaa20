-- ===== src/Execd/Handler/Gates.antt =====
-- crates/archangel-execd/src/handler.rs: what holds of a request behind the gates.
use archangel.Common.{
  ℕ, ◌≡◌, refl, ◌⊎◌, inl, inr, true, ◌++◌, arith, ok, Bool-cases, >>=-ok_inv, map_err-ok,
}
use archangel.Common.Text.{str}
use archangel.Core.{allows_mutation}
use archangel.Policy.Denylist.{Matchers}
use archangel.Policy.Engine.{
  PolicyDecision, allow, require_approval, deny, not_allowed, evaluate, needs_approval,
}
use archangel.ExecFormat.Manifest.{ExecManifest}
use archangel.Ipc.{ExecRequest}
use archangel.Execd.Handler.{
  Collaborators, Executor, safe_exec_name, path_join, policy_request, decided, resolve_bundle,
  check_args_and_mutation, policy_gate, admissible,
}

module _ (m : Matchers) (c : Collaborators) (x : Executor m c) (w : c.World) (now : ℕ)
    (request : ExecRequest) where
  -- The request and the bundle pass the gates behind the replay guard.
  pub record IsAdmissible (bundle : ExecManifest) : Type 0 where
    pub safe_name : safe_exec_name request.exec_name ≡ true
    pub loaded :
        c.load w
          (path_join x.bundle_dir (request.exec_name ++ str ".exec"))
          (path_join x.bundle_dir (request.exec_name ++ str ".exec.sig"))
          x.trust
        ≡ ok bundle
    pub args_valid : c.validate_args bundle request.args ≡ ok tt
    pub may_mutate : (bundle.meta.read_only ≡ true) ⊎ (allows_mutation x.mode_ceiling ≡ true)
    pub permitted :
        (evaluate m x.policy (policy_request request bundle) ≡ allow)
        ⊎ (needs_approval (evaluate m x.policy (policy_request request bundle)) ≡ true)

  decided-ok :
      (d : PolicyDecision)
      → decided request.action_id d ≡ ok tt
      → (d ≡ allow) ⊎ (needs_approval d ≡ true)
  unfolding needs_approval
  decided-ok allow h = inl refl
  decided-ok (require_approval why two) h = inr refl
  decided-ok (deny category rule why) h = cc
  decided-ok (not_allowed why) h = cc

  resolve_bundle-ok :
      (bundle : ExecManifest)
      → resolve_bundle m c x w request ≡ ok bundle
      → (safe_exec_name request.exec_name ≡ true)
        × (c.load w
              (path_join x.bundle_dir (request.exec_name ++ str ".exec"))
              (path_join x.bundle_dir (request.exec_name ++ str ".exec.sig"))
              x.trust
            ≡ ok bundle)
  unfolding resolve_bundle
  resolve_bundle-ok bundle h = elim (Bool-cases (safe_exec_name request.exec_name)) [
    | inl e ↦ (e, map_err-ok _ _ (rw e at h))
    | inr e ↦ absurd (cc (rw e at h))
  ]

  check_args_and_mutation-ok :
      (bundle : ExecManifest) (u : Unit {0})
      → check_args_and_mutation m c x request bundle ≡ ok u
      → (c.validate_args bundle request.args ≡ ok tt)
        × ((bundle.meta.read_only ≡ true) ⊎ (allows_mutation x.mode_ceiling ≡ true))
  unfolding check_args_and_mutation
  check_args_and_mutation-ok bundle u h =
      let (v, valid, k) = >>=-ok_inv _ _ h in (map_err-ok _ _ valid, ground arith)

  pub admissible-ok :
      (bundle : ExecManifest) → admissible m c x w request ≡ ok bundle → IsAdmissible bundle
  unfolding admissible policy_gate
  admissible-ok bundle h =
      let (b, found, h1) = >>=-ok_inv _ _ h in
      let (u, checked, h2) = >>=-ok_inv _ _ h1 in
      let (v, policy, h3) = >>=-ok_inv _ _ h2 in
      let same : b ≡ bundle = ground arith in
      rw (← same) (
        let (safe, loaded) = resolve_bundle-ok b found in
        let (valid, may) = check_args_and_mutation-ok b u checked in
        record {
          safe_name = safe;
          loaded = loaded;
          args_valid = valid;
          may_mutate = may;
          permitted = decided-ok _ policy;
        })
