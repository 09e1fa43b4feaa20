-- ===== src/Execd/Handler/Interface.antt =====
-- crates/archangel-execd/src/handler.rs: the responses of the pipeline, its collaborators, and the
-- parts of its gates that need none of them.
use mathlib.Core.List.{replicate}
use archangel.Common.{
  ℕ, ℤ, ◌*◌, ◌==◌, Bool, not, ◌&&◌, ◌||◌, Option, none, some, List, [], ◌∷◌, ◌++◌, map, all, leb,
  Result, ok, err,
}
use archangel.Common.Text.{
  contains_str, Str, str, str_eq, str_len, strip_suffix, is_ascii_alphanumeric,
}
use archangel.Common.Map.{Key, HashMap}
use archangel.Core.{is_critical}
use archangel.Policy.Denylist.{DenyCategory, PathAccess}
use archangel.Policy.Engine.{
  PolicyDecision, allow, require_approval, deny, not_allowed, PathIntent, PolicyEngine, evaluate,
}
use archangel.Policy.Engine
use archangel.ExecFormat.Manifest.{NetworkPolicy, SandboxSpec, ExecManifest}
use archangel.Ipc.{ExecRequest, RejectStage, rejected, ExecResponse, denylist_hit, not_allowlisted}
use archangel.Execd.RateLimit.{RateRejection, ActionClass, second}
use archangel.Execd.Replay.{ReplayRejection}
use archangel.Sandbox.{NetworkMode, SandboxPolicy}

pub data Reason : Type 0 where
  malformed_envelope envelope_rejected bundle_refused argument_rejected snapshot_failed plan_refused
        cgroup_unenforceable unsafe_name :
      Str → Reason
  replayed : ReplayRejection → Reason
  read_only_mode no_rw_path no_backend : Reason
  denied : DenyCategory → Engine.Reason → Reason
  unlisted : Engine.Reason → Reason
  rate_ceiling : RateRejection → Reason

abbrev pub Response : Type 0
Response = ExecResponse Reason

abbrev pub Gate : Type 0 → Type 0
Gate A = Result A Response

abbrev pub reject : Key → RejectStage → Reason → Response
reject id stage why = record { action_id = id; outcome = rejected stage why }

abbrev pub unknown_action : Key
unknown_action = replicate 16 0

-- The timeout in nanoseconds.
pub record ExecLimits : Type 0 where
  pub timeout : ℕ
  pub max_output : ℕ

abbrev pub default_exec_limits : ExecLimits
default_exec_limits = record { timeout = 30 * second; max_output = 1024 * 1024 }

pub record RunResult : Type 0 where
  pub exit_code : ℤ
  pub duration_ms : ℕ
  pub stdout : Str
  pub stderr : Str
  pub truncated : Bool

-- `world` is what the calls act on: the file system, its snapshots, the cgroups, the processes.
pub record Collaborators : Type 1 where
  pub World : Type 0
  pub VerifyingKey : Type 0
  pub OperatorTrust : Type 0
  pub SignedEnvelope : Type 0
  pub SandboxPlan : Type 0
  pub Cgroup : Type 0
  pub Snapshotter : Type 0
  pub from_frame_body : List ℕ → Result SignedEnvelope Str
  pub open_envelope : SignedEnvelope → VerifyingKey → Result ExecRequest Str
  pub load : World → Str → Str → OperatorTrust → Result ExecManifest Str
  pub validate_args : ExecManifest → HashMap Str → Result (Unit {0}) Str
  pub plan : SandboxPolicy → Result SandboxPlan Str
  pub snapshot : Snapshotter → World → Str → World × Result Str Str
  pub create_for_self : World → Key → SandboxPlan → World × Result (Option Cgroup) Str
  pub run : World → Str → HashMap Str → ExecLimits → SandboxPlan → Option Cgroup → World × RunResult
  pub drop_cgroup : World → Option Cgroup → World

abbrev pub is_name_char : ℕ → Bool
is_name_char b = is_ascii_alphanumeric b || b == b'.' || b == b'_' || b == b'-'

unfoldable pub safe_exec_name : Str → Bool
safe_exec_name name =
    not (str_eq name [])
    && leb (str_len name) 128
    && not (str_eq name (str "."))
    && not (str_eq name (str ".."))
    && not (contains_str (str "..") name)
    && all is_name_char name

abbrev pub no_slash_end : Str → Option Str → Str
no_slash_end dir none = dir ++ str "/"
no_slash_end dir (some stem) = dir

-- `Path::join` of a relative name.
abbrev pub path_join : Str → Str → Str
path_join [] name = name
path_join (c ∷ dir) name = no_slash_end (c ∷ dir) (strip_suffix (str "/") (c ∷ dir)) ++ name

abbrev pub network_mode : NetworkPolicy → NetworkMode
network_mode NetworkPolicy.none = NetworkMode.none
network_mode NetworkPolicy.loopback = NetworkMode.loopback
network_mode NetworkPolicy.egress = NetworkMode.egress

abbrev pub sandbox_policy : SandboxSpec → SandboxPolicy
sandbox_policy s = record {
  syscall_profile = s.syscall_profile;
  capabilities = s.capabilities;
  allowed_paths_ro = s.allowed_paths_ro;
  allowed_paths_rw = s.allowed_paths_rw;
  network = network_mode s.network;
  cpu_max = s.cpu_max;
  memory_max = s.memory_max;
}

abbrev pub action_class : ExecManifest → ActionClass
action_class bundle = record {
  mutating = not bundle.meta.read_only;
  critical = is_critical bundle.meta.risk;
}

abbrev pub path_intents : SandboxSpec → List PathIntent
path_intents s =
    map (λ p. record { path = p; access = PathAccess.read }) s.allowed_paths_ro
    ++ map (λ p. record { path = p; access = PathAccess.write }) s.allowed_paths_rw

-- What the policy is asked: the executor's view of the bundle, under the request's profile, mode
-- and name.
abbrev pub policy_request : ExecRequest → ExecManifest → Engine.PolicyRequest
policy_request request bundle = record {
  profile = request.profile;
  mode = request.mode;
  exec = request.exec_name;
  risk = bundle.meta.risk;
  commands = bundle.payload.inline ∷ [];
  paths = path_intents bundle.sandbox;
}

abbrev pub decided : Key → PolicyDecision → Gate (Unit {0})
decided id allow = ok tt
decided id (require_approval why two_person) = ok tt
decided id (deny category rule why) = err (reject id denylist_hit (denied category why))
decided id (not_allowed why) = err (reject id not_allowlisted (unlisted why))
