-- ===== src/Policy/Denylist.antt =====
-- crates/archangel-policy/src/denylist.rs: the immutable denylist. The crates `globset` and `regex`
-- are the parameter `Matchers`; the text of a message is kept as what it is formatted from.
mod Table
pub mod Build
pub mod Paths
pub mod PathVerdicts
pub mod Commands
pub use Table.{DenyCategory, PathScope, PathAccess, RuleSpec, Owner}
unfoldable pub use Table.{rules}
use mathlib.Core.List.{flatten}
use archangel.Common.{
  ℕ, ◌≡◌, ◌↔◌, refl, Bool, true, false, Option, none, some, List, [], ◌∷◌, ◌++◌, map, Result, ok,
  err, ◌>>=◌, map_err, head?, get_elem?, and_then, map_option, Any,
}
use archangel.Common.Text.{Str, str, strip_suffix, split_whitespace, join}
use archangel.Policy.Pathnorm.{BadPath, PolicyError, bad_path, normalize_absolute}

-- The calls of `globset` and `regex`. `glob_is_match` and `regex_is_match` are the matchers of a
-- single pattern, by which the crates document their sets.
pub record Matchers : Type 1 where
  pub Glob : Type 0
  pub GlobSet : Type 0
  pub RegexSet : Type 0
  pub glob_build : Str → Result Glob Str
  pub glob_is_match : Glob → Str → Bool
  pub glob_set_build : List Glob → Result GlobSet Str
  pub glob_set_matches : GlobSet → Str → List ℕ
  pub regex_set_new : List Str → Result RegexSet Str
  pub regex_is_match : Str → Str → Bool
  pub regex_set_matches : RegexSet → Str → List ℕ

-- A set reports the index of each member that matches, and no other.
pub record IsLawful (m : Matchers) : Type 0 where
  pub glob_set_lem :
      (gs : List m.Glob) (set : m.GlobSet)
      → m.glob_set_build gs ≡ ok set
      → (path : Str) (i : ℕ)
      → Any (λ j. j ≡ i) (m.glob_set_matches set path)
        ↔ ((g : m.Glob) × (get_elem? gs i ≡ some g) × (m.glob_is_match g path ≡ true))
  pub regex_set_lem :
      (ps : List Str) (set : m.RegexSet)
      → m.regex_set_new ps ≡ ok set
      → (text : Str) (i : ℕ)
      → Any (λ j. j ≡ i) (m.regex_set_matches set text)
        ↔ ((p : Str) × (get_elem? ps i ≡ some p) × (m.regex_is_match p text ≡ true))

pub data BuildError : Type 0 where
  bad_glob : Str → Str → Str → BuildError
  command_regex any_globset modify_globset : Str → BuildError

pub data Why : Type 0 where
  not_built : BuildError → Why
  not_normal : BadPath → Why

-- `matched`: the input itself, or "{input} [{why}]".
pub data Matched : Type 0 where
  input : Str → Matched
  refused : Str → Why → Matched

pub record DenyMatch : Type 0 where
  pub category : DenyCategory
  pub rule_id : Str
  pub description : Str
  pub matched : Matched

unfoldable pub owner_matched : Owner → Str → DenyMatch
owner_matched o s = record {
  category = o.category;
  rule_id = o.rule_id;
  description = o.description;
  matched = input s;
}

unfoldable pub fail_closed : Str → Why → DenyMatch
fail_closed s why = record {
  category = DenyCategory.self_protection;
  rule_id = str "denylist-build-failure";
  description = str "Denylist failed to compile; failing closed (denying all).";
  matched = refused s why;
}

-- "/a/b/**" covers the directory "/a/b" too.
unfoldable pub expand_dir_glob : Str → List Str
expand_dir_glob pat = elim (strip_suffix (str "/**") pat) [
  | none ↦ pat ∷ []
  | some prefix ↦ pat ∷ prefix ∷ []
]

abbrev pub owner_of : RuleSpec → Owner
owner_of rule = record {
  category = rule.category;
  rule_id = rule.id;
  description = rule.description;
}

module _ (m : Matchers) where
  pub record Compiled : Type 0 where
    pub command_set : m.RegexSet
    pub command_owners : List Owner
    pub any_globs : m.GlobSet
    pub any_owners : List Owner
    pub modify_globs : m.GlobSet
    pub modify_owners : List Owner

  -- The builders and vectors that `build` fills while it goes through the rules.
  pub record Builders : Type 0 where
    pub command_patterns : List Str
    pub command_owners : List Owner
    pub any_builder : List m.Glob
    pub any_owners : List Owner
    pub modify_builder : List m.Glob
    pub modify_owners : List Owner

  abbrev pub empty_builders : Builders
  empty_builders = record {
    command_patterns = [];
    command_owners = [];
    any_builder = [];
    any_owners = [];
    modify_builder = [];
    modify_owners = [];
  }

  -- The loop over the command patterns of a rule.
  pub add_commands : Owner → List Str → Builders → Builders
  add_commands o [] b = b
  add_commands o (pat ∷ pats) b = add_commands o pats (record b {
    command_patterns = b.command_patterns ++ pat ∷ [];
    command_owners = b.command_owners ++ o ∷ [];
  })

  pub add_glob : PathScope → Owner → m.Glob → Builders → Builders
  add_glob PathScope.any o g b = record b {
    any_builder = b.any_builder ++ g ∷ [];
    any_owners = b.any_owners ++ o ∷ [];
  }
  add_glob PathScope.modify o g b = record b {
    modify_builder = b.modify_builder ++ g ∷ [];
    modify_owners = b.modify_owners ++ o ∷ [];
  }

  -- The two inner loops over the expanded path patterns of a rule.
  pub add_paths : RuleSpec → List Str → Builders → Result Builders BuildError
  add_paths rule [] b = ok b
  add_paths rule (p ∷ ps) b = map_err (bad_glob p rule.id) (m.glob_build p) >>= λ g.
      add_paths rule ps (add_glob rule.path_scope (owner_of rule) g b)

  pub add_rules : List RuleSpec → Builders → Result Builders BuildError
  add_rules [] b = ok b
  add_rules (rule ∷ rs) b =
      add_paths rule (flatten (map expand_dir_glob rule.path_patterns))
        (add_commands (owner_of rule) rule.command_patterns b)
      >>= λ b'. add_rules rs b'

  pub finish : Builders → Result Compiled BuildError
  finish b = do
    command_set ← map_err command_regex (m.regex_set_new b.command_patterns)
    any_globs ← map_err any_globset (m.glob_set_build b.any_builder)
    modify_globs ← map_err modify_globset (m.glob_set_build b.modify_builder)
    ok (record {
      command_set = command_set;
      command_owners = b.command_owners;
      any_globs = any_globs;
      any_owners = b.any_owners;
      modify_globs = modify_globs;
      modify_owners = b.modify_owners;
    })

  unfoldable pub build : Result Compiled BuildError
  unfolding add_rules add_paths add_glob add_commands finish
  build = do b ← add_rules rules empty_builders; finish b

  unfoldable pub first_glob_owner : m.GlobSet → List Owner → Str → Option Owner
  first_glob_owner set owners path =
      and_then (head? (m.glob_set_matches set path)) (get_elem? owners)

  unfoldable pub normalize_command : Str → Str
  normalize_command command = join (str " ") (split_whitespace command)

  abbrev pub command_match : Str → Result Compiled BuildError → Option DenyMatch
  command_match normalized (err why) = some (fail_closed normalized (not_built why))
  command_match normalized (ok c) =
      map_option (λ o. owner_matched o normalized)
        (and_then (head? (m.regex_set_matches c.command_set normalized))
          (get_elem? c.command_owners))

  unfoldable pub check_command : Str → Option DenyMatch
  unfolding normalize_command
  check_command command = command_match (normalize_command command) build

  -- The part of `check_path` behind the rules for any access.
  abbrev pub modify_match : PathAccess → Compiled → Str → Option DenyMatch
  modify_match PathAccess.read c normalized = none
  modify_match PathAccess.write c normalized =
      map_option (λ o. owner_matched o normalized)
        (first_glob_owner c.modify_globs c.modify_owners normalized)

  abbrev pub any_match : PathAccess → Compiled → Str → Option Owner → Option DenyMatch
  any_match access c normalized (some o) = some (owner_matched o normalized)
  any_match access c normalized none = modify_match access c normalized

  abbrev pub path_match : PathAccess → Str → Result Compiled BuildError → Option DenyMatch
  path_match access normalized (err why) = some (fail_closed normalized (not_built why))
  path_match access normalized (ok c) =
      any_match access c normalized (first_glob_owner c.any_globs c.any_owners normalized)

  abbrev pub normal_match :
      Str → PathAccess → Result Str PolicyError → Result (Option DenyMatch) PolicyError
  normal_match path access (ok normalized) = ok (path_match access normalized build)
  normal_match path access (err (bad_path msg)) = ok (some (fail_closed path (not_normal msg)))
  normal_match path access (err other) = err other

  unfoldable pub check_path : Str → PathAccess → Result (Option DenyMatch) PolicyError
  check_path path access = normal_match path access (normalize_absolute path)
