-- ===== src/ExecFormat/Args.antt =====
-- crates/archangel-exec-format/src/args.rs: supplied arguments against a bundle's schema. The crate
-- `regex` is the parameter `Regexes`; the text of an error is kept as what it is formatted from.
pub mod Validity
use archangel.Common.{
  ◌≡◌, Bool, true, false, Option, none, some, List, [], ◌∷◌, ◌++◌, map, Result, ok, err, ◌>>=◌,
  map_err, if◌then◌else◌,
}
use archangel.Common.Text.{Str, str}
use archangel.Common.Map.{Key, HashMap, get}
use archangel.ExecFormat.Manifest.{ArgSpec, ExecManifest}

pub record Regexes : Type 1 where
  pub Regex : Type 0
  pub regex_new : Str → Result Regex Str
  pub is_match : Regex → Str → Bool

-- The two errors of the validation.
pub data ArgError : Type 0 where
  undeclared missing mismatch : Str → ArgError
  bad_arg_regex : Str → Str → ArgError

abbrev pub anchored : Str → Str
anchored pattern = str "\\A(?:" ++ pattern ++ str ")\\z"

abbrev pub declared_in : Key → Option ArgSpec → Result (Unit {0}) ArgError
declared_in name none = err (undeclared name)
declared_in name (some spec) = ok tt

unfoldable pub check_declared : HashMap ArgSpec → List Key → Result (Unit {0}) ArgError
check_declared specs [] = ok tt
check_declared specs (name ∷ names) =
    let rest = check_declared specs names in declared_in name (get name specs) >>= λ _. rest

module _ (x : Regexes) where
  abbrev pub check_pattern : Key → Str → Option Str → Result (Unit {0}) ArgError
  check_pattern name value none = ok tt
  check_pattern name value (some pattern) =
      map_err (bad_arg_regex name) (x.regex_new (anchored pattern)) >>= λ re.
      if x.is_match re value then ok tt else err (mismatch name)

  abbrev pub check_arg : Key → ArgSpec → Option Str → Result (Unit {0}) ArgError
  check_arg name spec none = if spec.required then err (missing name) else ok tt
  check_arg name spec (some value) = check_pattern name value spec.regex

  unfoldable pub check_args : HashMap ArgSpec → HashMap Str → Result (Unit {0}) ArgError
  check_args [] provided = ok tt
  check_args ((name, spec) ∷ specs) provided =
      let rest = check_args specs provided in check_arg name spec (get name provided) >>= λ _. rest

  unfoldable pub validate : ExecManifest → HashMap Str → Result (Unit {0}) ArgError
  validate manifest provided =
      check_declared manifest.args (map (λ (e : Key × Str). e.0) provided) >>= λ _.
      check_args manifest.args provided
