-- ===== src/Sandbox/Plan.antt =====
-- crates/archangel-sandbox/src/plan.rs and capability.rs: the plan of a sandbox. The seccomp compiler
-- and the names of capabilities (the crate caps) are the parameter `Kernel`.
use archangel.Common.{
  ℕ, Bool, true, false, not, Option, none, some, List, [], ◌∷◌, ◌++◌, any, ◌==◌, ltb, if◌then◌else◌,
  Result, ok, err, ◌>>=◌,
}
use archangel.Common.Text.{Str, str, str_eq, str_lt, str_len, contains, split}
use archangel.Common.Text.Lines.{is_empty}
use archangel.Sandbox.{NetworkMode, SandboxPolicy}
use archangel.Sandbox.Limits.{
  SandboxError, unknown_capability, invalid_profile, empty_path, not_absolute, too_long, has_nul,
  has_parent, parse_cpu_max, parse_memory_max,
}

pub record Kernel : Type 1 where
  pub SeccompProfile : Type 0
  pub compile : Str → Result SeccompProfile SandboxError
  pub to_canonical : Str → Str
  pub is_capability : Str → Bool

pub record Namespaces : Type 0 where
  pub mount : Bool
  pub pid : Bool
  pub ipc : Bool
  pub uts : Bool
  pub cgroup : Bool
  pub user : Bool
  pub net : Bool

abbrev pub opens_with_slash : Str → Bool
opens_with_slash [] = false
opens_with_slash (c ∷ s) = c == b'/'

unfoldable pub validate_path : Str → Result (Unit {0}) SandboxError
validate_path p =
    if is_empty p
    then err (invalid_profile p empty_path)
    else if not (opens_with_slash p)
    then err (invalid_profile p not_absolute)
    else if ltb 4096 (str_len p)
    then err (invalid_profile p too_long)
    else if contains p 0
    then err (invalid_profile p has_nul)
    else if any (λ c. str_eq c (str "..")) (split b'/' p)
    then err (invalid_profile p has_parent)
    else ok tt

unfoldable pub validate_paths : List Str → Result (Unit {0}) SandboxError
unfolding validate_path
validate_paths [] = ok tt
validate_paths (p ∷ paths) = let rest = validate_paths paths in validate_path p >>= λ _. rest

abbrev pub isolated : NetworkMode → Bool
isolated NetworkMode.egress = false
isolated _ = true

-- A declared limit is parsed; none is no limit.
abbrev pub declared : (Str → Result ℕ SandboxError) → Option Str → Result (Option ℕ) SandboxError
declared parse none = ok none
declared parse (some text) = parse text >>= λ n. ok (some n)

-- `BTreeSet::insert`: the names are kept in their order, each once.
unfoldable pub insert_name : Str → List Str → List Str
unfolding str_lt
insert_name name [] = name ∷ []
insert_name name (n ∷ ns) =
    let rest = insert_name name ns in
    if str_eq name n then n ∷ ns else if str_lt name n then name ∷ n ∷ ns else n ∷ rest

module _ (x : Kernel) where
  pub record SandboxPlan : Type 0 where
    pub seccomp : x.SeccompProfile
    pub capabilities : List Str
    pub cpu_max : Option ℕ
    pub memory_max : Option ℕ
    pub paths_ro : List Str
    pub paths_rw : List Str
    pub network : NetworkMode
    pub namespaces : Namespaces

  -- `CapabilitySet::resolve`, with the set that was built so far.
  unfoldable pub resolve : List Str → List Str → Result (List Str) SandboxError
  unfolding insert_name
  resolve names [] = ok names
  resolve names (raw ∷ rest) =
      if x.is_capability (x.to_canonical raw)
      then resolve (insert_name (x.to_canonical raw) names) rest
      else err (unknown_capability raw)

  abbrev pub plan_of :
      SandboxPolicy → x.SeccompProfile → List Str → Option ℕ → Option ℕ → SandboxPlan
  plan_of p seccomp capabilities cpu_max memory_max = record {
    seccomp = seccomp;
    capabilities = capabilities;
    cpu_max = cpu_max;
    memory_max = memory_max;
    paths_ro = p.allowed_paths_ro;
    paths_rw = p.allowed_paths_rw;
    network = p.network;
    namespaces = record {
      mount = true;
      pid = true;
      ipc = true;
      uts = true;
      cgroup = true;
      user = true;
      net = isolated p.network;
    };
  }

  unfoldable pub plan : SandboxPolicy → Result SandboxPlan SandboxError
  unfolding resolve parse_cpu_max parse_memory_max validate_paths
  plan p = x.compile p.syscall_profile >>= λ seccomp. resolve [] p.capabilities >>= λ capabilities.
      declared parse_cpu_max p.cpu_max >>= λ cpu_max.
      declared parse_memory_max p.memory_max >>= λ memory_max.
      validate_paths (p.allowed_paths_ro ++ p.allowed_paths_rw) >>= λ _.
      ok (plan_of p seccomp capabilities cpu_max memory_max)
