-- ===== src/Sandbox/Cgroup.antt =====
-- crates/archangel-sandbox/src/cgroup.rs: the cgroup of an action. The files are the parameter
-- `CgroupFiles`.
use archangel.Common.{
  ℕ, Bool, true, false, not, ◌&&◌, Option, none, some, List, [], ◌∷◌, map_option, ◌==◌, leb,
  if◌then◌else◌, Result, ok, err,
}
use archangel.Common.Text.{Str, str, str_eq, str_len, contains, strip_prefix}
use archangel.Common.Text.Lines.{lines, is_empty}
use archangel.Execd.Handler.{path_join}
use archangel.Sandbox.Limits.{
  SandboxError, cgroup_failed, unreadable, no_hierarchy, unsafe_name, create_failed, write_failed,
  cpu_value, memory_value, to_text,
}
use archangel.Sandbox.Plan.{opens_with_slash}

-- A write may fail, and so may the making of a directory; the removal is at best effort.
pub record CgroupFiles : Type 1 where
  pub Files : Type 0
  pub read_self : Files → Option Str
  pub create_dir : Files → Str → Files × Bool
  pub write : Files → Str → Str → Files × Bool
  pub remove_dir : Files → Str → Files

abbrev pub cgroup_v2_mount : Str
cgroup_v2_mount = str "/sys/fs/cgroup"

-- The value of the line `0::`, if it is an absolute path.
abbrev pub absolute_rest : Option Str → Option Str
absolute_rest none = none
absolute_rest (some rest) = if opens_with_slash rest then some rest else none

abbrev pub or_else {ℓ} : {A : Type ℓ} → Option A → Option A → Option A
or_else none o = o
or_else (some a) o = some a

unfoldable pub find_hierarchy : List Str → Option Str
find_hierarchy [] = none
find_hierarchy (line ∷ rest) =
    let later = find_hierarchy rest in or_else (absolute_rest (strip_prefix (str "0::") line)) later

unfoldable pub parse_self_cgroup_v2 : Str → Option Str
unfolding find_hierarchy
parse_self_cgroup_v2 proc_content = find_hierarchy (lines proc_content)

unfoldable pub safe_component : Str → Bool
safe_component name =
    not (is_empty name)
    && leb (str_len name) 128
    && not (contains name b'/')
    && not (contains name 0)
    && not (str_eq name (str "."))
    && not (str_eq name (str ".."))

-- `trim_start_matches('/')`
abbrev pub trim_slashes : Str → Str
trim_slashes [] = []
trim_slashes (c ∷ s) = let rest = trim_slashes s in if c == b'/' then rest else c ∷ s

module _ (x : CgroupFiles) where
  -- A controller file of the directory, when a limit is declared. The answer says whether it is set.
  abbrev pub write_limit : x.Files → Str → Str → Option Str → x.Files × Bool
  write_limit files path file none = (files, true)
  write_limit files path file (some value) = x.write files (path_join path file) value

  -- A limit that cannot be written drops the cgroup, which removes the directory.
  abbrev pub dropped : Str → Str → x.Files × Bool → x.Files × Result Str SandboxError
  dropped path file (files, true) = (files, ok path)
  dropped path file (files, false) =
      (x.remove_dir files path, err (cgroup_failed (write_failed path file)))

  abbrev pub with_memory : Str → Option ℕ → x.Files × Bool → x.Files × Result Str SandboxError
  with_memory path memory (files, true) =
      dropped path (str "memory.max")
        (write_limit files path (str "memory.max") (map_option memory_value memory))
  with_memory path memory (files, false) = dropped path (str "cpu.max") (files, false)

  abbrev pub with_directory :
      Str → Option ℕ → Option ℕ → x.Files × Bool → x.Files × Result Str SandboxError
  with_directory path cpu memory (files, false) = (files, err (cgroup_failed (create_failed path)))
  with_directory path cpu memory (files, true) =
      with_memory path memory (write_limit files path (str "cpu.max") (map_option cpu_value cpu))

  unfoldable pub create_under :
      x.Files → Str → Str → Option ℕ → Option ℕ → x.Files × Result Str SandboxError
  unfolding safe_component cpu_value memory_value
  create_under files parent name cpu memory =
      if not (safe_component name)
      then (files, err (cgroup_failed (unsafe_name name)))
      else with_directory (path_join parent name) cpu memory
          (x.create_dir files (path_join parent name))

  abbrev pub with_hierarchy :
      x.Files → Str → Option ℕ → Option ℕ → Option Str → x.Files × Result (Option Str) SandboxError
  with_hierarchy files name cpu memory none = (files, err (cgroup_failed no_hierarchy))
  with_hierarchy files name cpu memory (some rel) =
      let (files', made) =
        create_under files (path_join cgroup_v2_mount (trim_slashes rel)) name cpu memory in
      (files', map_made made)
    where
      map_made : Result Str SandboxError → Result (Option Str) SandboxError
      map_made (ok path) = ok (some path)
      map_made (err why) = err why

  abbrev pub with_proc :
      x.Files → Str → Option ℕ → Option ℕ → Option Str → x.Files × Result (Option Str) SandboxError
  with_proc files name cpu memory none = (files, err (cgroup_failed unreadable))
  with_proc files name cpu memory (some proc) =
      with_hierarchy files name cpu memory (parse_self_cgroup_v2 proc)

  -- The path of the cgroup, if a limit is declared.
  unfoldable pub create_for_self :
      x.Files → Str → Option ℕ → Option ℕ → x.Files × Result (Option Str) SandboxError
  unfolding create_under parse_self_cgroup_v2
  create_for_self files name none none = (files, ok none)
  create_for_self files name cpu memory = with_proc files name cpu memory (x.read_self files)

  unfoldable pub add_pid : x.Files → Str → ℕ → x.Files × Result (Unit {0}) SandboxError
  unfolding to_text
  add_pid files path pid =
      let (files', done) = x.write files (path_join path (str "cgroup.procs")) (to_text pid) in
      (files', if done then ok tt else err (cgroup_failed (write_failed path (str "cgroup.procs"))))
