-- ===== src/Policy/Tests/Denylist.antt =====
-- Witnesses on the denylist's verdicts.
use archangel.Common.{
  ◌≡◌, ◌↔◌, ◌⊎◌, inl, inr, refl, Option, none, some, ok, err, map, List, [], ◌∷◌, Any, ◌++◌, Result,
}
use archangel.Common.Text.{Str, str, split_where, str_eq, contains, strip_suffix, is_whitespace}
use archangel.Policy.Pathnorm.{normalize_absolute, bad_path, not_absolute}
use archangel.Policy.Pathnorm.Evasion.{dot}
use archangel.Policy.Tests.{literal, literal-IsLawful, hits}
use archangel.Policy.Denylist.{
  Matchers, Compiled, build, BuildError, PathScope, PathAccess, rules, check_path, check_command,
  expand_dir_glob, DenyMatch, DenyCategory, Owner, owner_matched, first_glob_owner,
  normalize_command, fail_closed, not_built,
}
use archangel.Policy.Denylist.Build.{command_entries, path_entries, patterns, owners}
use archangel.Policy.Denylist.Paths.{IsDenied, IsDeniedBy}
use archangel.Policy.Denylist.PathVerdicts.{
  check_path-fail_closed, check_path-read-write, check_path-detour, check_path-none_iff,
  check_path-some,
}
use archangel.Policy.Denylist.Commands.{
  Matches, check_command-whitespace, check_command-fail_closed, check_command-none_iff,
  check_command-some,
}

abbrev compiled : Compiled literal
unfolding command_entries path_entries
compiled = record {
  command_set = patterns (command_entries rules);
  command_owners = owners (command_entries rules);
  any_globs = patterns (path_entries PathScope.any rules);
  any_owners = owners (path_entries PathScope.any rules);
  modify_globs = patterns (path_entries PathScope.modify rules);
  modify_owners = owners (path_entries PathScope.modify rules);
}

built : build literal ≡ ok compiled
unfolding build rules mathlib.Core.List.flatten expand_dir_glob strip_suffix compiled
built = refl

abbrev pub ssh : Owner
ssh = record {
  category = DenyCategory.ssh;
  rule_id = str "ssh";
  description = str "No tampering with SSH access or its configuration.";
}

abbrev firewall : Owner
firewall = record {
  category = DenyCategory.firewall;
  rule_id = str "firewall";
  description = str "No flushing or disabling of the host firewall.";
}

normal : normalize_absolute (str "/etc/./ssh/") ≡ ok (str "/etc/ssh")
unfolding normalize_absolute split_where str_eq contains
normal = refl

pub denied_write :
    check_path literal (str "/etc/./ssh/") PathAccess.write
    ≡ ok (some (owner_matched ssh (str "/etc/ssh")))
unfolding check_path first_glob_owner hits str_eq owner_matched compiled rules
    mathlib.Core.List.flatten expand_dir_glob strip_suffix
denied_write = rw (normal, built) refl

denied_read :
    check_path literal (str "/etc/./ssh/") PathAccess.read
    ≡ ok (some (owner_matched ssh (str "/etc/ssh")))
unfolding check_path first_glob_owner hits str_eq owner_matched compiled rules
    mathlib.Core.List.flatten expand_dir_glob strip_suffix
denied_read = rw (normal, built) refl

check_path-read-write_example :
    check_path literal (str "/etc/./ssh/") PathAccess.write
    ≡ ok (some (owner_matched ssh (str "/etc/ssh")))
check_path-read-write_example =
    check_path-read-write literal (str "/etc/./ssh/") (owner_matched ssh (str "/etc/ssh"))
      denied_read

-- A regex crate that finds the table too large.
abbrev cramped : Matchers
cramped = record literal { regex_set_new = λ ps. err (str "too large") }

check_command-fail_closed_example :
    (why : BuildError) × (check_command cramped (str "ls -l")
      ≡ some (fail_closed (normalize_command cramped (str "ls -l")) (not_built why)))
check_command-fail_closed_example =
    check_command-fail_closed cramped (str "ls -l") (inl (str "too large", refl))

plain : normalize_absolute (str "/srv") ≡ ok (str "/srv")
unfolding normalize_absolute split_where str_eq contains
plain = refl

pub free_path : check_path literal (str "/srv") PathAccess.write ≡ ok none
unfolding check_path first_glob_owner hits str_eq compiled rules mathlib.Core.List.flatten
    expand_dir_glob strip_suffix
free_path = rw (plain, built) refl

deploy_command : normalize_command literal (str "deploy") ≡ str "deploy"
unfolding normalize_command split_where is_whitespace archangel.Common.Text.join
    archangel.Common.Text.split_whitespace
deploy_command = refl

pub free_command : check_command literal (str "deploy") ≡ none
unfolding check_command hits str_eq compiled rules
free_command = rw (deploy_command, built) refl

check_path-none_iff_example : (check_path literal (str "/tmp/x") PathAccess.write ≡ ok none) ↔ (
    (q : Str) × (c : Compiled literal) × (normalize_absolute (str "/tmp/x") ≡ ok q)
    × (build literal ≡ ok c)
    × ¬ IsDenied literal q PathAccess.write)
check_path-none_iff_example =
    check_path-none_iff literal literal-IsLawful (str "/tmp/x") PathAccess.write

check_path-some_example :
    IsDeniedBy literal (str "/etc/ssh") PathAccess.write (owner_matched ssh (str "/etc/ssh"))
check_path-some_example =
    check_path-some literal literal-IsLawful (str "/etc/./ssh/") (str "/etc/ssh") PathAccess.write
      compiled (owner_matched ssh (str "/etc/ssh")) normal built denied_write

check_path-detour_example :
    check_path literal (str "/etc/./ssh") PathAccess.write
    ≡ check_path literal (str "/etc/ssh") PathAccess.write
check_path-detour_example =
    check_path-detour literal (str "/etc") (str ".") (str "ssh") PathAccess.write dot refl
      (unfold contains in refl)

check_path-fail_closed_example :
    (d : DenyMatch) × (check_path literal (str "etc") PathAccess.read ≡ ok (some d))
unfolding normalize_absolute
check_path-fail_closed_example =
    check_path-fail_closed literal (str "etc") PathAccess.read
      (inl (bad_path (not_absolute (str "etc")), refl))

check_command-none_iff_example : (check_command literal (str "ls  -l") ≡ none) ↔ (
    (c : Compiled literal) × (build literal ≡ ok c)
    × ¬ Any (Matches literal (normalize_command literal (str "ls  -l"))) (command_entries rules))
check_command-none_iff_example = check_command-none_iff literal literal-IsLawful (str "ls  -l")

normal_command : normalize_command literal (str "ufw   disable") ≡ str "ufw disable"
unfolding normalize_command split_where is_whitespace archangel.Common.Text.join
    archangel.Common.Text.split_whitespace
normal_command = refl

denied_command :
    check_command literal (str "ufw   disable") ≡ some (owner_matched firewall (str "ufw disable"))
unfolding check_command hits str_eq owner_matched compiled rules
denied_command = rw (normal_command, built) refl

check_command-some_example :
    Any
      (λ e.
        Matches literal (normalize_command literal (str "ufw   disable")) e
        × (owner_matched firewall (str "ufw disable")
            ≡ owner_matched e.1 (normalize_command literal (str "ufw   disable"))))
      (command_entries rules)
check_command-some_example =
    check_command-some literal literal-IsLawful (str "ufw   disable") compiled
      (owner_matched firewall (str "ufw disable")) built denied_command

check_command-whitespace_example :
    (check_command literal (str "ufw\t disable") ≡ check_command literal (str "ufw disable"))
    × (check_command literal (str "\t disable") ≡ check_command literal (str "disable"))
    × (check_command literal (str "ufw\t ") ≡ check_command literal (str "ufw"))
unfolding is_whitespace
check_command-whitespace_example =
    check_command-whitespace literal (str "ufw") b'\t' (str " ") (str "disable") (refl, (refl, tt))
