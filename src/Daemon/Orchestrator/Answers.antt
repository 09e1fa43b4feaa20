-- ===== src/Daemon/Orchestrator/Answers.antt =====
-- crates/archangeld/src/orchestrator.rs: what an invocation sends, and what is made of an answer of the model.
use archangel.Common.{◌≡◌, refl, ◌⊎◌, inl, inr, Result, ok, err}
use archangel.Common.Text.{Str, str}
use archangel.Common.Map.{Key, HashMap}
use archangel.ExecFormat.Manifest.{ExecManifest}
use archangel.ExecFormat.Args.{validate, ArgError}
use archangel.Daemon.Response.{ModelAction, ResponseError, canary_leaked}
use archangel.Daemon.Orchestrator.{
  Setting, OrchestratorError, Orchestrator, Step, next, pure, ◌>>=◌, ◌>>◌, record_event, note,
  hash_text,
}
use archangel.Daemon.Orchestrator
use archangel.Daemon.Orchestrator.Invoke.{with_arguments, with_bundle, loaded, invoke}
use archangel.Daemon.Orchestrator.Run.{respond}
use archangel.Daemon.Orchestrator.Effects.{Keeps, note-Keeps, deny-Keeps, next-pure-Keeps}
use archangel.Daemon.Orchestrator.Proposals.{
  IsBounded, Keeps-IsBounded, IsProposed, propose-effects,
}

module _ (t : Setting) where
  -- The bundle of the name verified, the arguments fit it, and the action was proposed and sent.
  pub record IsInvoked (exec : Str) (args : HashMap Str) (reason : Str) (o o' : Orchestrator t)
      : Type 0 where
    pub manifest : ExecManifest
    pub verified : loaded t o (t.action_id o.world).0 exec ≡ ok manifest
    pub valid : validate t.regexes manifest args ≡ ok tt
    pub proposed :
        IsProposed t
          (t.action_id o.world).1
          exec
          args
          reason
          manifest
          (record o { world = (t.action_id o.world).0 })
          o'

  -- What a step did: nothing was sent unless the condition holds, and a bound on what waits stays.
  abbrev pub Effect : Type 0 → Orchestrator t → Orchestrator t → Type 0
  Effect C o o' = ((o'.transport ≡ o.transport) ⊎ C) × (IsBounded t o → IsBounded t o')

  pub quiet-Effect : (C : Type 0) (o o' : Orchestrator t) → Keeps t o o' → Effect C o o'
  quiet-Effect C o o' k = (inl k.transport_lem, Keeps-IsBounded t o o' k)

  with_arguments-effects :
      (action_id : Key) (exec : Str) (args : HashMap Str) (reason : Str) (m : ExecManifest)
      (r : Result (Unit {0}) ArgError) (o : Orchestrator t)
      → let o' = (with_arguments t action_id exec args reason m r o).0 in
        Effect ((r ≡ ok tt) × IsProposed t action_id exec args reason m o o') o o'
  with_arguments-effects action_id exec args reason m (err e) o =
      quiet-Effect _ o _ (deny-Keeps t action_id exec (str "args") (t.display_arg_error e) o)
  with_arguments-effects action_id exec args reason m (ok u) o =
      let (sent, bounded) = propose-effects t action_id exec args reason m o in
      (elim sent [ inl quiet ↦ inl quiet | inr p ↦ inr (refl, p) ], bounded)

  with_bundle-effects :
      (action_id : Key) (exec : Str) (args : HashMap Str) (reason : Str)
      (r : Result ExecManifest Str) (o : Orchestrator t)
      → let o' = (with_bundle t action_id exec args reason r o).0 in
        Effect
          ((m : ExecManifest) × (r ≡ ok m)
            × (validate t.regexes m args ≡ ok tt)
            × IsProposed t action_id exec args reason m o o')
          o
          o'
  with_bundle-effects action_id exec args reason (err e) o =
      quiet-Effect _ o _ (deny-Keeps t action_id exec (str "bundle") e o)
  with_bundle-effects action_id exec args reason (ok m) o =
      let (sent, bounded) =
        with_arguments-effects action_id exec args reason m (validate t.regexes m args) o in
      (elim sent [ inl quiet ↦ inl quiet | inr (v, p) ↦ inr (m, refl, v, p) ], bounded)

  invoke-effects :
      (exec : Str) (args : HashMap Str) (reason : Str) (o : Orchestrator t)
      → let o' = (invoke t exec args reason o).0 in Effect (IsInvoked exec args reason o o') o o'
  unfolding invoke
  invoke-effects exec args reason o =
      let w = (t.action_id o.world).0 in
      let (sent, bounded) =
        with_bundle-effects (t.action_id o.world).1 exec args reason (loaded t o w exec)
          (record o { world = w }) in
      (
        elim sent [
          | inl quiet ↦ inl quiet
          | inr (m, l, v, p) ↦ inr (record { manifest = m; verified = l; valid = v; proposed = p })
        ],
        λ h. bounded (
            Keeps-IsBounded t o (record o { world = w })
              (record { transport_lem = refl; pending_lem = refl }) h),
      )

  -- The model's answer is the invocation of an action, which was invoked.
  pub record IsAnswered (answer : Result ModelAction ResponseError) (o o' : Orchestrator t)
      : Type 0 where
    pub exec : Str
    pub args : HashMap Str
    pub reason : Str
    pub answer_lem : answer ≡ ok (ModelAction.invoke exec args reason)
    pub invoked : IsInvoked exec args reason o o'

  respond_violation :
      (message : Str) (answer : Result ModelAction ResponseError) (o : Orchestrator t)
      → let o' =
          (next
            (note t message o)
            (λ _. pure (Orchestrator.denied (str "model-contract") message))).0 in
        Effect (IsAnswered answer o o') o o'
  respond_violation message answer o =
      quiet-Effect _ o _ (next-pure-Keeps t o (note t message o) _ (note-Keeps t message o))

  pub respond-effects :
      (answer : Result ModelAction ResponseError) (o : Orchestrator t)
      → let o' = (respond t answer o).0 in Effect (IsAnswered answer o o') o o'
  respond-effects (ok (ModelAction.ask question)) o = (inl refl, λ h. h)
  respond-effects (ok (ModelAction.refuse reason)) o = (inl refl, λ h. h)
  respond-effects (ok (ModelAction.invoke exec args reason)) o =
      let (sent, bounded) = invoke-effects exec args reason o in
      (
        elim sent [
          | inl quiet ↦ inl quiet
          | inr i ↦
              inr (record {
                exec = exec;
                args = args;
                reason = reason;
                answer_lem = refl;
                invoked = i;
              })
        ],
        bounded,
      )
  respond-effects (err canary_leaked) o = (inl refl, λ h. h)
  respond-effects (err _) o = respond_violation _ _ o
