-- ===== src/Execd/Tests/Pipeline.antt =====
-- Witnesses on the pipeline: the world is a list of what was done to it, the latest first.
use archangel.Common.{
  ℕ, ℤ, pos, ◌≡◌, ◌≢◌, refl, true, false, Option, none, some, List, [], ◌∷◌, ◌++◌, Result, ok, err,
  if◌then◌else◌,
}
use archangel.Common.Text.{Str, str, str_eq}
use archangel.Core.{OperationMode, autonomous, low, mode_eq}
use archangel.Policy.Tests.{literal}
use archangel.Policy.Tests.Denylist.{free_path, free_command}
use archangel.Policy.Engine.Decisions.{evaluate-allow_iff}
use archangel.Policy.Allowlist.{is_allowed}
use archangel.Execd.RateLimit.{try_admit}
use archangel.Policy.Engine.{PolicyEngine, allow, evaluate}
use archangel.ExecFormat.Manifest.{ExecManifest, NetworkPolicy, bash}
use archangel.Ipc.{ExecRequest, Completion, completed, replay}
use archangel.Execd.Replay.{non_monotonic_seq, admit}
use archangel.Execd.Handler.{
  Collaborators, Executor, RunResult, default_exec_limits, reject, replayed, new, set_mode_ceiling,
  authenticate, handle, policy_request, admissible, resolve_bundle, check_args_and_mutation,
  policy_gate, anti_replay, dispatch, rate_gate, carry_out, safe_exec_name,
}
use archangel.Execd.Handler.Refusals.{IsRefusal}
use archangel.Execd.Handler.Runs.{IsCleared, behind_gates, handle-completed, handle-uncleared}
use archangel.Execd.Handler.Execution.{IsExecuted}
use archangel.Execd.Handler.Replays.{handle-again}

abbrev request : ExecRequest
request = record {
  session_id = str "s";
  action_id = str "a";
  seq = 1;
  nonce = str "n";
  issued_ms = 0;
  profile = str "web";
  mode = autonomous;
  exec_name = str "deploy";
  args = [];
  declared_risk = low;
  declared_read_only = false;
}

abbrev bundle : ExecManifest
bundle = record {
  meta = record {
    name = str "deploy";
    version = str "1";
    risk = low;
    read_only = false;
    mutates_persistent_state = true;
    requires_network = false;
  };
  args = [];
  sandbox = record {
    capabilities = [];
    allowed_paths_ro = [];
    allowed_paths_rw = str "/srv" ∷ [];
    syscall_profile = str "base";
    network = NetworkPolicy.none;
    cpu_max = none;
    memory_max = none;
    timeout_seconds = 10;
  };
  payload = record { ty = bash; sha256 = str ""; inline = str "deploy" };
  health_check = none;
}

abbrev host : Collaborators
host = record {
  World = List Str;
  VerifyingKey = Str;
  OperatorTrust = List Str;
  SignedEnvelope = List ℕ;
  SandboxPlan = Str;
  Cgroup = Str;
  Snapshotter = Str;
  from_frame_body = λ body. ok body;
  open_envelope = λ envelope key. if str_eq envelope key then ok request else err (str "signature");
  load = λ w exec sig trust.
      if str_eq exec (str "/b/deploy.exec") then ok bundle else err (str "unreadable");
  validate_args = λ manifest args. ok tt;
  plan = λ policy. ok policy.syscall_profile;
  snapshot = λ backend w target. (target ∷ w, ok (str "snap"));
  create_for_self = λ w name plan. (w, ok none);
  run = λ w script args limits plan cgroup. (
    script ∷ w,
    record {
      exit_code = pos 0;
      duration_ms = 5;
      stdout = str "ok";
      stderr = [];
      truncated = false;
    },
  );
  drop_cgroup = λ w cgroup. w;
}

abbrev policy : PolicyEngine
policy = record {
  allowlist = record {
    profiles =
        record { name = str "web"; mode = autonomous; allowed_exec = str "deploy" ∷ [] } ∷ [];
  };
}

abbrev executor : Executor literal host
executor =
    set_mode_ceiling literal host
      (new literal host (str "k") [] policy (str "/b") default_exec_limits (some (str "zfs")))
      autonomous

abbrev done : Completion
done = record {
  exit_code = pos 0;
  duration_ms = 5;
  stdout = str "ok";
  stderr = [];
  output_truncated = false;
  snapshot_id = some (str "snap");
}

permitted : evaluate literal policy (policy_request request bundle) ≡ allow
unfolding is_allowed str_eq mode_eq
permitted =
    (evaluate-allow_iff literal policy (policy_request request bundle)).1
      (record { commands = (free_command, tt); paths = (free_path, tt) }, refl, λ e. cc, λ e. cc)

cleared_bundle :
    admissible literal host (anti_replay literal host executor request).0 [] request ≡ ok bundle
unfolding admissible resolve_bundle check_args_and_mutation policy_gate anti_replay
    archangel.Execd.Handler.safe_exec_name str_eq archangel.Common.Text.str_len
    archangel.Common.Text.contains_str archangel.Common.Text.strip_prefix
    archangel.Common.Text.is_ascii_alphanumeric archangel.Common.Text.strip_suffix
    archangel.Core.allows_mutation
cleared_bundle = rw permitted refl

authentic : authenticate literal host executor (str "k") ≡ ok request
unfolding authenticate str_eq
authentic = refl

dispatched_done :
    (dispatch literal host executor [] 7 (str "k")).1
    ≡ ok (record { action_id = str "a"; outcome = completed done })
unfolding anti_replay admit rate_gate try_admit carry_out archangel.Common.Map.get
    archangel.Common.Map.member archangel.Core.is_critical archangel.Execd.Handler.snapshot_gate
    archangel.Execd.Handler.sandbox_gate archangel.Execd.Handler.cgroup_gate
    archangel.Execd.Handler.execute
dispatched_done =
    rw
      (behind_gates literal host executor [] 7 (str "k") request authentic tt refl bundle
        cleared_bundle tt refl)
      refl

deployed : (handle literal host executor [] 7 (str "k")).1.outcome ≡ completed done
unfolding handle
deployed = rw dispatched_done refl

handle-completed_example :
    (k : IsCleared literal host executor [] 7 (str "k")) × IsExecuted literal host executor []
      k.request k.bundle
      (handle literal host executor [] 7 (str "k")).0.1
      (handle literal host executor [] 7 (str "k")).1
handle-completed_example = handle-completed literal host executor [] 7 (str "k") done deployed

handle-again_example :
    ((handle literal host (handle literal host executor [] 7 (str "k")).0.0 [] 9 (str "k")).1
      ≡ reject (str "a") replay (replayed non_monotonic_seq))
    × ((handle literal host (handle literal host executor [] 7 (str "k")).0.0 [] 9 (str "k")).0.1
        ≡ [])
unfolding admit archangel.Common.Map.get archangel.Common.Map.member
handle-again_example = handle-again literal host (str "k") request executor [] [] 7 9 authentic refl

forged : (r : ExecRequest) → authenticate literal host executor (str "x") ≢ ok r
unfolding authenticate str_eq
forged r h = cc

handle-uncleared_example :
    ((handle literal host executor [] 7 (str "x")).0.1 ≡ [])
    × IsRefusal (handle literal host executor [] 7 (str "x")).1
handle-uncleared_example =
    handle-uncleared literal host executor [] 7 (str "x") (λ k. forged k.request k.authentic)
