-- ===== src/Daemon/Orchestrator/Invoke.antt =====
-- crates/archangeld/src/orchestrator.rs: `invoke`, from the action that the model chose to its dispatch, its approval or its refusal.
use archangel.Common.{
  ℕ, Bool, true, false, List, [], ◌∷◌, ◌++◌, length, leb, Result, ok, err, map_err,
}
use archangel.Common.Text.{Str, str}
use archangel.Common.Map.{Key, HashMap, insert}
use archangel.Core.{OperationMode}
use archangel.Policy.Engine.{
  PolicyDecision, allow, require_approval, deny, not_allowed, PolicyRequest, evaluate,
}
use archangel.ExecFormat.Manifest.{ExecManifest}
use archangel.ExecFormat.Args.{validate, ArgError}
use archangel.ExecFormat.Hex.{as_bytes}
use archangel.Ipc.Envelope.{SignedEnvelope, IpcError, to_frame}
use archangel.Audit.{AuditEvent, Decision}
use archangel.Audit.Entry.{sha256_hex}
use archangel.Execd.Handler.{path_join, path_intents}
use archangel.Daemon.Session.{Order, sign_exec_request}
use archangel.Daemon.Orchestrator.{
  Setting, OrchestratorError, llm, ipc, TaskOutcome, asked, refused, denied, approval_required,
  compromised, Pending, max_pending, Orchestrator, Step, pure, ◌>>=◌, ◌>>◌, record_event, note,
  dispatch, prune_pending, hash_text,
}
use archangel.Daemon.Orchestrator

-- `evaluate_policy`: what the policy is asked about a bundle.
abbrev pub bundle_request : Str → OperationMode → Str → ExecManifest → PolicyRequest
bundle_request profile mode exec m = record {
  profile = profile;
  mode = mode;
  exec = exec;
  risk = m.meta.risk;
  commands = m.payload.inline ∷ [];
  paths = path_intents m.sandbox;
}

abbrev pub audit_decision : PolicyDecision → Decision
audit_decision allow = Decision.allow
audit_decision (require_approval why two_person) = Decision.require_approval
audit_decision (deny category rule why) = Decision.deny
audit_decision (not_allowed why) = Decision.deny

abbrev pub show_bool : Bool → Str
show_bool true = str "true"
show_bool false = str "false"

module _ (t : Setting) where
  unfoldable pub action_digest : Str → HashMap Str → Str → Str
  unfolding sha256_hex as_bytes
  action_digest exec args payload_sha256 =
      sha256_hex t.externals
        (as_bytes exec ++ 0 ∷ t.args_to_vec args ++ 0 ∷ as_bytes payload_sha256)

  abbrev pub preview : Str → ExecManifest → HashMap Str → Str
  preview exec m args =
      str "exec="
      ++ (exec
          ++ (str " risk="
              ++ (t.debug_risk m.meta.risk
                  ++ (str " read_only="
                      ++ (show_bool m.meta.read_only
                          ++ (str " args="
                              ++ (t.debug_args args
                                  ++ (str "\npayload: " ++ m.payload.inline))))))))

  -- The request that is signed for an action, and its frame.
  abbrev pub order : Key → Str → HashMap Str → ExecManifest → Key → ℕ → Order
  order action_id exec args m nonce now = record {
    action_id = action_id;
    exec_name = exec;
    args = args;
    declared_risk = m.meta.risk;
    declared_read_only = m.meta.read_only;
    nonce = nonce;
    issued_ms = now;
  }

  abbrev pub framed : Result SignedEnvelope IpcError → Result (List ℕ) IpcError
  framed (err why) = err why
  framed (ok envelope) = to_frame t.wire envelope

  unfoldable pub sign_frame : Key → Str → HashMap Str → ExecManifest → Step t (List ℕ)
  unfolding sign_exec_request to_frame
  sign_frame action_id exec args m o =
      let (w, nonce) = t.nonce o.world in
      let (w', now) = t.now_ms w in
      let (session, sealed) =
        sign_exec_request t.wire o.session (order action_id exec args m nonce now) in
      (record o { world = w'; session = session }, map_err ipc (framed sealed))

  abbrev pub too_many : TaskOutcome
  too_many = denied (str "approval") (str "too many pending approvals")

  -- The insertion of a pending action, under an id and at a time.
  abbrev pub stash_at :
      t.World × Key
      → (t.World → t.World × ℕ)
      → (ℕ → Pending)
      → Orchestrator t
      → Orchestrator t × Key
  stash_at (w, id) clock p o =
      let (w', now) = clock w in
      (record o { world = w'; pending = insert id (p now) o.pending }, id)

  unfoldable pub stash : (ℕ → Pending) → Step t Key
  stash p o = let (o', id) = stash_at (t.random_id o.world) t.now_ms p o in (o', ok id)

  abbrev pub request_approval :
      Key → Str → HashMap Str → ExecManifest → List ℕ → Str → Bool → Step t TaskOutcome
  request_approval action_id exec args m frame why two_person = do
    let digest = action_digest exec args m.payload.sha256
    id ← stash (λ now. record {
      frame = frame;
      action_id = action_id;
      exec = exec;
      digest = digest;
      args_sha256 = sha256_hex t.externals (t.args_to_vec args);
      two_person = two_person;
      created_ms = now;
    })
    pure (approval_required id digest exec why (preview exec m args) two_person)

  abbrev pub stash_unless :
      Bool → Key → Str → HashMap Str → ExecManifest → List ℕ → Str → Bool → Step t TaskOutcome
  stash_unless true action_id exec args m frame why two_person = pure too_many
  stash_unless false action_id exec args m frame why two_person =
      request_approval action_id exec args m frame why two_person

  unfoldable pub await_approval :
      Key → Str → HashMap Str → ExecManifest → List ℕ → Str → Bool → Step t TaskOutcome
  unfolding prune_pending stash
  await_approval action_id exec args m frame why two_person = prune_pending t >> λ o.
      stash_unless (leb max_pending (length o.pending)) action_id exec args m frame why two_person o

  -- The match on the decision.
  abbrev pub decide :
      Key → Str → HashMap Str → ExecManifest → List ℕ → PolicyDecision → Step t TaskOutcome
  decide action_id exec args m frame allow =
      dispatch t action_id exec (sha256_hex t.externals (t.args_to_vec args)) frame
  decide action_id exec args m frame (require_approval why two_person) =
      await_approval action_id exec args m frame
        (t.display_reason (require_approval why two_person)) two_person
  decide action_id exec args m frame (deny category rule why) =
      pure (denied (str "policy") (t.debug_decision (deny category rule why)))
  decide action_id exec args m frame (not_allowed why) =
      pure (denied (str "policy") (t.debug_decision (not_allowed why)))

  abbrev pub policy_decision_of : Orchestrator t → Str → ExecManifest → PolicyDecision
  policy_decision_of o exec m =
      evaluate t.matchers o.policy (bundle_request o.session.profile o.session.mode exec m)

  -- `invoke` with a bundle that verified and arguments that fit it.
  unfoldable pub propose : Key → Str → HashMap Str → Str → ExecManifest → Step t TaskOutcome
  unfolding record_event sign_frame dispatch await_approval
  propose action_id exec args reason m o =
      (do
        record_event t (
            AuditEvent.policy_decision o.session.id action_id exec
              (audit_decision (policy_decision_of o exec m))
              (reason ++ (str " :: " ++ t.debug_decision (policy_decision_of o exec m))))
        frame ← sign_frame action_id exec args m
        decide action_id exec args m frame (policy_decision_of o exec m))
        o

  abbrev pub with_arguments :
      Key → Str → HashMap Str → Str → ExecManifest → Result (Unit {0}) ArgError → Step t TaskOutcome
  with_arguments action_id exec args reason m (err e) =
      Orchestrator.deny t action_id exec (str "args") (t.display_arg_error e)
  with_arguments action_id exec args reason m (ok _) = propose action_id exec args reason m

  abbrev pub with_bundle :
      Key → Str → HashMap Str → Str → Result ExecManifest Str → Step t TaskOutcome
  with_bundle action_id exec args reason (err e) =
      Orchestrator.deny t action_id exec (str "bundle") e
  with_bundle action_id exec args reason (ok m) =
      with_arguments action_id exec args reason m (validate t.regexes m args)

  abbrev pub loaded : Orchestrator t → t.World → Str → Result ExecManifest Str
  loaded o w exec =
      t.load w (path_join o.bundle_dir (exec ++ str ".exec"))
        (path_join o.bundle_dir (exec ++ str ".exec.sig")) o.trust

  unfoldable pub invoke : Str → HashMap Str → Str → Step t TaskOutcome
  unfolding validate propose Orchestrator.deny
  invoke exec args reason o =
      let (w, action_id) = t.action_id o.world in
      with_bundle action_id exec args reason (loaded o w exec) (record o { world = w })
