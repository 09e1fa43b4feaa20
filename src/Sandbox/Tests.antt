-- ===== src/Sandbox/Tests.antt =====
-- Witnesses on plans.
use archangel.Common.{
  ℕ, ◌≡◌, ◌↔◌, refl, true, false, Option, none, some, List, [], ◌∷◌, ◌++◌, Result, ok, err,
  if◌then◌else◌,
}
use archangel.Common.Text.{Str, str, str_eq}
use archangel.Common.Text.Lines.{lines}
use archangel.Sandbox.{NetworkMode, SandboxPolicy}
use archangel.Sandbox.Limits.{
  parse_memory_max, cpu_value, unknown_profile, invalid_profile, has_parent,
}
use archangel.Sandbox.Plan.{Kernel, SandboxPlan, plan_of, plan, insert_name, resolve, validate_path}
use archangel.Sandbox.Sound.{IsPlanned, plan-ok_iff}
use archangel.Sandbox.Cgroup.{parse_self_cgroup_v2}

abbrev kernel : Kernel
kernel = record {
  SeccompProfile = Str;
  compile = λ name. if str_eq name (str "inspect") then ok name else err (unknown_profile name);
  to_canonical = λ name. name;
  is_capability = λ name. str_eq name (str "CAP_KILL");
}

abbrev request : SandboxPolicy
request = record {
  syscall_profile = str "inspect";
  capabilities = str "CAP_KILL" ∷ [];
  allowed_paths_ro = str "/etc" ∷ [];
  allowed_paths_rw = [];
  network = NetworkMode.loopback;
  cpu_max = some (str "10%");
  memory_max = some (str "128M");
}

abbrev made : SandboxPlan kernel
made = plan_of kernel request (str "inspect") (str "CAP_KILL" ∷ []) (some 10) (some 134217728)

plan-ok_iff_example : (plan kernel request ≡ ok made) ↔ IsPlanned kernel request made
plan-ok_iff_example = plan-ok_iff kernel request made

planned : plan kernel request ≡ ok made
unfolding plan str_eq archangel.Common.Text.trim archangel.Common.Text.str_len
    archangel.Common.Text.contains archangel.Common.Text.split_where insert_name
planned = refl

values :
    (cpu_value 10 ≡ str "10000 100000")
    × (parse_memory_max (str " 1g ") ≡ ok 1073741824)
    × (parse_self_cgroup_v2 (str "1:x:/y\n0::/system.slice/a\n") ≡ some (str "/system.slice/a"))
unfolding cpu_value parse_memory_max archangel.Common.Text.trim parse_self_cgroup_v2
    archangel.Common.Text.Lines.lines archangel.Common.Text.strip_prefix
values = (refl, refl, refl)

-- A carriage return behind the last newline stays.
last_line : lines (str "a" ++ 13 ∷ 10 ∷ str "b" ++ 13 ∷ []) ≡ str "a" ∷ (str "b" ++ 13 ∷ []) ∷ []
unfolding lines archangel.Common.Text.split_where
last_line = refl

-- An empty component, in contrast to "..", is let through.
empty_component :
    (validate_path (str "/etc//x") ≡ ok tt)
    × (validate_path (str "/etc/../x") ≡ err (invalid_profile (str "/etc/../x") has_parent))
unfolding validate_path str_eq archangel.Common.Text.str_len archangel.Common.Text.contains
    archangel.Common.Text.split_where
empty_component = (refl, refl)

-- The set of the capabilities is in their order, each once.
in_order :
    resolve
      (record kernel { is_capability = λ name. true })
      []
      (str "CAP_SYS" ∷ str "CAP_KILL" ∷ str "CAP_SYS" ∷ [])
    ≡ ok (str "CAP_KILL" ∷ str "CAP_SYS" ∷ [])
unfolding resolve str_eq archangel.Common.Text.str_lt
in_order = refl
