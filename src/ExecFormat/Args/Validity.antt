-- ===== src/ExecFormat/Args/Validity.antt =====
-- crates/archangel-exec-format/src/args.rs: which arguments are valid.
use archangel.Common.{
  ◌≡◌, ◌↔◌, refl, true, false, Option, none, some, List, [], ◌∷◌, map, ok, >>=-ok_inv, map_err-ok,
  All, arith,
}
use archangel.Common.Text.{Str}
use archangel.Common.Map.{Key, HashMap, get}
use archangel.ExecFormat.Manifest.{ArgSpec, ExecManifest}
use archangel.ExecFormat.Args.{
  Regexes, anchored, declared_in, check_declared, check_pattern, check_arg, check_args, validate,
}

-- The schema has the argument.
abbrev pub IsDeclared : HashMap ArgSpec → Key → Type 0
IsDeclared specs name = (spec : ArgSpec) × (get name specs ≡ some spec)

declared_in-ok :
    (name : Key) (o : Option ArgSpec)
    → (declared_in name o ≡ ok tt) ↔ ((spec : ArgSpec) × (o ≡ some spec))
declared_in-ok name none = (λ h. cc, λ (spec, h). cc)
declared_in-ok name (some spec) = (λ h. (spec, refl), λ p. refl)

check_declared-ok :
    (specs : HashMap ArgSpec) (names : List Key)
    → (check_declared specs names ≡ ok tt) ↔ All (IsDeclared specs) names
unfolding check_declared
check_declared-ok specs [] = (λ h. tt, λ h. refl)
check_declared-ok specs (name ∷ names) = (
  λ h.
      let (u, found, rest) = >>=-ok_inv _ _ h in
      ((declared_in-ok name (get name specs)).0 found, (check_declared-ok specs names).0 rest),
  λ (d, a). rw ((declared_in-ok name (get name specs)).1 d) ((check_declared-ok specs names).1 a),
)

module _ (x : Regexes) where
  -- A value matches its whole pattern, if the schema gives one.
  abbrev pub FitsPattern : Str → Option Str → Type 0
  FitsPattern value none = Unit
  FitsPattern value (some pattern) =
      (re : x.Regex) × (x.regex_new (anchored pattern) ≡ ok re) × (x.is_match re value ≡ true)

  -- An argument that is not supplied is not required, and a supplied one fits its pattern.
  abbrev pub Satisfies : ArgSpec → Option Str → Type 0
  Satisfies spec none = spec.required ≡ false
  Satisfies spec (some value) = FitsPattern value spec.regex

  check_pattern-ok :
      (name : Key) (value : Str) (o : Option Str)
      → (check_pattern x name value o ≡ ok tt) ↔ FitsPattern value o
  check_pattern-ok name value none = (λ h. tt, λ h. refl)
  check_pattern-ok name value (some pattern) = (
    λ h.
        let (re, compiled, matched) = >>=-ok_inv _ _ h in
        (re, map_err-ok _ _ compiled, ground arith),
    λ (re, compiled, matched). rw (compiled, matched) refl,
  )

  check_arg-ok :
      (name : Key) (spec : ArgSpec) (o : Option Str)
      → (check_arg x name spec o ≡ ok tt) ↔ Satisfies spec o
  check_arg-ok name spec none = ground arith
  check_arg-ok name spec (some value) = check_pattern-ok name value spec.regex

  check_args-ok :
      (specs : HashMap ArgSpec) (provided : HashMap Str)
      → (check_args x specs provided ≡ ok tt)
        ↔ All (λ (e : Key × ArgSpec). Satisfies e.1 (get e.0 provided)) specs
  unfolding check_args
  check_args-ok [] provided = (λ h. tt, λ h. refl)
  check_args-ok ((name, spec) ∷ specs) provided = (
    λ h.
        let (u, found, rest) = >>=-ok_inv _ _ h in
        (
          (check_arg-ok name spec (get name provided)).0 found,
          (check_args-ok specs provided).0 rest,
        ),
    λ (d, a).
        rw ((check_arg-ok name spec (get name provided)).1 d) ((check_args-ok specs provided).1 a),
  )

  -- Arguments are accepted exactly when each one supplied is declared, none that is required is
  -- missing, and each value supplied matches its pattern, anchored at both ends, if it has one.
  pub validate-ok_iff :
      (manifest : ExecManifest) (provided : HashMap Str)
      → (validate x manifest provided ≡ ok tt) ↔ (
          All (IsDeclared manifest.args) (map (λ (e : Key × Str). e.0) provided)
          × All (λ (e : Key × ArgSpec). Satisfies e.1 (get e.0 provided)) manifest.args)
  unfolding validate
  validate-ok_iff manifest provided = (
    λ h.
        let (u, declared, fits) = >>=-ok_inv _ _ h in
        (
          (check_declared-ok manifest.args (map (λ (e : Key × Str). e.0) provided)).0 declared,
          (check_args-ok manifest.args provided).0 fits,
        ),
    λ (d, a).
        rw ((check_declared-ok manifest.args (map (λ (e : Key × Str). e.0) provided)).1 d)
          ((check_args-ok manifest.args provided).1 a),
  )
