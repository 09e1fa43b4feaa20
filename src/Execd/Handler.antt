-- ===== src/Execd/Handler.antt =====
-- crates/archangel-execd/src/handler.rs: the pipeline from a request to its execution. What the
-- pipeline calls of other crates and of the operating system is the parameter `Collaborators`; the
-- time of a request is an argument of `handle`.
mod Interface
pub mod Refusals
pub mod Gates
pub mod Names
pub mod Execution
pub mod Runs
pub mod Replays
pub use Interface.{
  Reason, malformed_envelope, envelope_rejected, bundle_refused, argument_rejected, snapshot_failed,
  plan_refused, cgroup_unenforceable, unsafe_name, replayed, read_only_mode, no_rw_path, no_backend,
  denied, unlisted, rate_ceiling, Response, Gate, reject, unknown_action, ExecLimits,
  default_exec_limits, RunResult, Collaborators, network_mode, sandbox_policy, action_class,
  path_intents, policy_request, decided, path_join, is_name_char,
}
unfoldable pub use Interface.{safe_exec_name}
use mathlib.Core.List.{replicate}
use archangel.Common.{
  ℕ, ℤ, ◌*◌, ◌==◌, Bool, true, false, not, ◌&&◌, ◌||◌, Option, none, some, List, [], ◌∷◌, ◌++◌, map,
  all, leb, if◌then◌else◌, Result, ok, err, ◌>>=◌, map_err,
}
use archangel.Common.Text.{
  Str, str, str_eq, str_len, strip_prefix, strip_suffix, is_ascii_alphanumeric,
}
use archangel.Common.Map.{Key, HashMap}
use archangel.Core.{OperationMode, read_only, allows_mutation, is_critical}
use archangel.Policy.Denylist.{Matchers, DenyCategory, PathAccess}
use archangel.Policy.Engine.{
  PolicyDecision, allow, require_approval, deny, not_allowed, PathIntent, PolicyEngine, evaluate,
}
use archangel.Policy.Engine
use archangel.ExecFormat.Manifest.{NetworkPolicy, SandboxSpec, ExecManifest}
use archangel.Ipc.{
  ExecRequest, RejectStage, Completion, completed, rejected, ExecResponse, signature_invalid,
  replay, bundle_unverified, denylist_hit, not_allowlisted, arg_rejected, not_read_only,
  snapshot_unavailable, sandbox_rejected, rate_limited,
}
use archangel.Execd.RateLimit.{
  RateLimiter, RateLimits, RateRejection, ActionClass, default_limits, try_admit, second,
}
use archangel.Execd.RateLimit
use archangel.Execd.Replay.{ReplayGuard, ReplayRejection, admit}
use archangel.Execd.Replay

module _ (m : Matchers) (c : Collaborators) where
  pub record Executor : Type 0 where
    pub session_key : c.VerifyingKey
    pub trust : c.OperatorTrust
    pub policy : PolicyEngine
    pub bundle_dir : Str
    pub limits : ExecLimits
    pub replay : ReplayGuard
    pub snapshotter : Option c.Snapshotter
    pub mode_ceiling : OperationMode
    pub rate : RateLimiter

  abbrev pub new :
      c.VerifyingKey
      → c.OperatorTrust
      → PolicyEngine
      → Str
      → ExecLimits
      → Option c.Snapshotter
      → Executor
  new session_key trust policy bundle_dir limits snapshotter = record {
    session_key = session_key;
    trust = trust;
    policy = policy;
    bundle_dir = bundle_dir;
    limits = limits;
    replay = Replay.new;
    snapshotter = snapshotter;
    mode_ceiling = read_only;
    rate = RateLimit.new default_limits;
  }

  abbrev pub set_rate_limits : Executor → RateLimits → Executor
  set_rate_limits x limits = record x { rate = RateLimit.new limits }

  abbrev pub set_mode_ceiling : Executor → OperationMode → Executor
  set_mode_ceiling x mode = record x { mode_ceiling = mode }

  abbrev pub set_session_key : Executor → c.VerifyingKey → Executor
  set_session_key x key = record x { session_key = key }

  unfoldable pub authenticate : Executor → List ℕ → Gate ExecRequest
  authenticate x frame_body =
      map_err (λ e. reject unknown_action signature_invalid (malformed_envelope e))
        (c.from_frame_body frame_body)
      >>= λ envelope.
          map_err (λ e. reject unknown_action signature_invalid (envelope_rejected e))
            (c.open_envelope envelope x.session_key)

  unfoldable pub anti_replay : Executor → ExecRequest → Executor × Gate (Unit {0})
  anti_replay x request =
      let (guard, fresh) = admit x.replay request.session_id request.seq request.nonce in
      (
        record x { replay = guard },
        map_err (λ why. reject request.action_id replay (replayed why)) fresh,
      )

  unfoldable pub resolve_bundle : Executor → c.World → ExecRequest → Gate ExecManifest
  resolve_bundle x w request =
      if not (safe_exec_name request.exec_name)
      then err (reject request.action_id bundle_unverified (unsafe_name request.exec_name))
      else map_err (λ e. reject request.action_id bundle_unverified (bundle_refused e))
          (c.load w (path_join x.bundle_dir (request.exec_name ++ str ".exec"))
            (path_join x.bundle_dir (request.exec_name ++ str ".exec.sig")) x.trust)

  unfoldable pub check_args_and_mutation : Executor → ExecRequest → ExecManifest → Gate (Unit {0})
  check_args_and_mutation x request bundle =
      map_err (λ e. reject request.action_id arg_rejected (argument_rejected e))
        (c.validate_args bundle request.args)
      >>= λ _.
          if bundle.meta.read_only || allows_mutation x.mode_ceiling
          then ok tt
          else err (reject request.action_id not_read_only read_only_mode)

  unfoldable pub policy_gate : Executor → ExecRequest → ExecManifest → Gate (Unit {0})
  policy_gate x request bundle =
      decided request.action_id (evaluate m x.policy (policy_request request bundle))

  unfoldable pub rate_gate : Executor → ℕ → ExecRequest → ExecManifest → Executor × Gate (Unit {0})
  rate_gate x now request bundle =
      let (rate, room) = try_admit x.rate now (action_class bundle) in
      (
        record x { rate = rate },
        map_err (λ why. reject request.action_id rate_limited (rate_ceiling why)) room,
      )

  abbrev pub snapshotted : Key → Result Str Str → Gate (Option Str)
  snapshotted id (ok snapshot_id) = ok (some snapshot_id)
  snapshotted id (err e) = err (reject id snapshot_unavailable (snapshot_failed e))

  abbrev pub take_snapshot :
      c.World → Key → List Str → Option c.Snapshotter → c.World × Gate (Option Str)
  take_snapshot w id [] backend = (w, err (reject id snapshot_unavailable no_rw_path))
  take_snapshot w id (target ∷ _) none = (w, err (reject id snapshot_unavailable no_backend))
  take_snapshot w id (target ∷ _) (some backend) =
      let (w', taken) = c.snapshot backend w target in (w', snapshotted id taken)

  unfoldable pub snapshot_gate :
      Executor → c.World → ExecRequest → ExecManifest → c.World × Gate (Option Str)
  snapshot_gate x w request bundle =
      if not bundle.meta.mutates_persistent_state
      then (w, ok none)
      else take_snapshot w request.action_id bundle.sandbox.allowed_paths_rw x.snapshotter

  unfoldable pub sandbox_gate : ExecRequest → ExecManifest → Gate c.SandboxPlan
  sandbox_gate request bundle =
      map_err (λ e. reject request.action_id sandbox_rejected (plan_refused e))
        (c.plan (sandbox_policy bundle.sandbox))

  unfoldable pub cgroup_gate :
      c.World → ExecRequest → c.SandboxPlan → c.World × Gate (Option c.Cgroup)
  cgroup_gate w request plan =
      let (w', made) = c.create_for_self w request.action_id plan in
      (w', map_err (λ e. reject request.action_id sandbox_rejected (cgroup_unenforceable e)) made)

  abbrev pub completion : Key → Option Str → RunResult → Response
  completion id snapshot_id r = record {
    action_id = id;
    outcome = completed (record {
      exit_code = r.exit_code;
      duration_ms = r.duration_ms;
      stdout = r.stdout;
      stderr = r.stderr;
      output_truncated = r.truncated;
      snapshot_id = snapshot_id;
    });
  }

  -- The run, and the end of the cgroup's guard behind it.
  unfoldable pub execute :
      Executor
      → c.World
      → ExecRequest
      → ExecManifest
      → Option Str
      → c.SandboxPlan
      → Option c.Cgroup
      → c.World × Response
  execute x w request bundle snapshot_id plan cgroup =
      let (w', r) = c.run w bundle.payload.inline request.args x.limits plan cgroup in
      (c.drop_cgroup w' cgroup, completion request.action_id snapshot_id r)

  -- The gates that read the world and the executor and change neither.
  unfoldable pub admissible : Executor → c.World → ExecRequest → Gate ExecManifest
  admissible x w request = resolve_bundle x w request >>= λ bundle.
      check_args_and_mutation x request bundle >>= λ _.
      policy_gate x request bundle >>= λ _. ok bundle

  -- The part of the pipeline that acts on the world.
  unfoldable pub carry_out :
      Executor → c.World → ExecRequest → ExecManifest → c.World × Gate Response
  carry_out x w request bundle =
      let (w', recovery) = snapshot_gate x w request bundle in
      elim recovery [
        | err r ↦ (w', err r)
        | ok snapshot_id ↦ elim (sandbox_gate request bundle) [
          | err r ↦ (w', err r)
          | ok plan ↦
              let (w'', made) = cgroup_gate w' request plan in
              elim made [
                | err r ↦ (w'', err r)
                | ok cgroup ↦
                    let (w3, r) = execute x w'' request bundle snapshot_id plan cgroup in (w3, ok r)
              ]
        ]
      ]

  unfoldable pub dispatch : Executor → c.World → ℕ → List ℕ → (Executor × c.World) × Gate Response
  dispatch x w now frame_body = elim (authenticate x frame_body) [
    | err r ↦ ((x, w), err r)
    | ok request ↦
        let (x', fresh) = anti_replay x request in
        elim fresh [
          | err r ↦ ((x', w), err r)
          | ok _ ↦ elim (admissible x' w request) [
            | err r ↦ ((x', w), err r)
            | ok bundle ↦
                let (x'', room) = rate_gate x' now request bundle in
                elim room [
                  | err r ↦ ((x'', w), err r)
                  | ok _ ↦ let (w', r) = carry_out x'' w request bundle in ((x'', w'), r)
                ]
          ]
        ]
  ]

  abbrev pub either : Gate Response → Response
  either (ok r) = r
  either (err r) = r

  unfoldable pub handle : Executor → c.World → ℕ → List ℕ → (Executor × c.World) × Response
  handle x w now frame_body = let (after, r) = dispatch x w now frame_body in (after, either r)
