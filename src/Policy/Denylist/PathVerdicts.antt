-- ===== src/Policy/Denylist/PathVerdicts.antt =====
-- crates/archangel-policy/src/denylist.rs: what `check_path` answers, on every branch.
use archangel.Common.{
  ◌≡◌, ◌∙◌, ap, ◌⊎◌, ◌↔◌, inl, inr, true, Option, none, some, ◌∷◌, ◌++◌, Result, ok, err, arith,
  ok_injective, Result-cases, Option-cases, Any-map, Any-map,
}
use archangel.Common.Text.{Str}
use archangel.Common.Text.Split.{Lacks}
use archangel.Policy.Pathnorm.{
  PolicyError, BadPath, io, allowlist_parse, bad_path, is_absolute, normalize_absolute,
}
use archangel.Policy.Pathnorm.Evasion.{Detour, normalize_absolute-detour}
use archangel.Policy.Pathnorm.Canonical.{normalize_absolute_of}
use archangel.Policy.Denylist.{
  PathAccess, Matchers, IsLawful, BuildError, not_built, not_normal, DenyMatch, fail_closed,
  Compiled, build, path_match, first_glob_owner, check_path,
}
use archangel.Policy.Denylist.Build.{build-IsBuilt}
use archangel.Policy.Denylist.Paths.{IsDenied, IsDeniedBy, verdict-none, verdict-some}

-- The only error of a normalisation is a bad path.
bad_path-of :
    (p : Str) (e : PolicyError)
    → normalize_absolute p ≡ err e
    → (why : BadPath) × (normalize_absolute p ≡ err (bad_path why))
unfolding normalize_absolute
bad_path-of p (bad_path why) h = (why, h)
bad_path-of p (io s) h = absurd (ground arith)
bad_path-of p (allowlist_parse s) h = absurd (ground arith)

normalize_absolute-cases :
    (p : Str)
    → ((q : Str) × (normalize_absolute p ≡ ok q))
      ⊎ ((why : BadPath) × (normalize_absolute p ≡ err (bad_path why)))
normalize_absolute-cases p = elim (Result-cases (normalize_absolute p)) [
  | inl found ↦ inl found
  | inr (e, h) ↦ inr (bad_path-of p e h)
]

module _ (m : Matchers) where
  -- `check_path` always answers: the error arm of its callers is never taken.
  pub check_path_total :
      (p : Str) (access : PathAccess)
      → (verdict : Option DenyMatch) × (check_path m p access ≡ ok verdict)
  unfolding check_path
  check_path_total p access = elim (normalize_absolute-cases p) [
    | inl (q, e) ↦ (path_match m access q (build m), rw e)
    | inr (why, e) ↦ (some (fail_closed p (not_normal why)), rw e)
  ]

  -- A path that cannot be normalised, and any path while the table does not compile, is denied.
  pub check_path-fail_closed :
      (p : Str) (access : PathAccess)
      → ((e : PolicyError) × (normalize_absolute p ≡ err e))
        ⊎ ((why : BuildError) × (build m ≡ err why))
      → (d : DenyMatch) × (check_path m p access ≡ ok (some d))
  unfolding check_path
  check_path-fail_closed p access (inl (e, h)) =
      let (why, bad) = bad_path-of p e h in (fail_closed p (not_normal why), rw bad)
  check_path-fail_closed p access (inr (why, h)) = elim (normalize_absolute-cases p) [
    | inl (q, e) ↦ (fail_closed q (not_built why), rw (e, h))
    | inr (bad, e) ↦ (fail_closed p (not_normal bad), rw e)
  ]

  path_match-read-write :
      (q : Str) (r : Result (Compiled m) BuildError) (d : DenyMatch)
      → path_match m PathAccess.read q r ≡ some d
      → path_match m PathAccess.write q r ≡ some d
  path_match-read-write q (err why) d h = h
  path_match-read-write q (ok c) d h =
      elim (Option-cases (first_glob_owner m c.any_globs c.any_owners q)) [
        | inl e ↦ absurd (cc (rw e at h))
        | inr (o, e) ↦ rw e (rw e at h)
      ]

  -- What is denied for reading is denied for writing, by the same match.
  pub check_path-read-write :
      (p : Str) (d : DenyMatch)
      → check_path m p PathAccess.read ≡ ok (some d)
      → check_path m p PathAccess.write ≡ ok (some d)
  unfolding check_path
  check_path-read-write p d h = elim (normalize_absolute-cases p) [
    | inl (q, e) ↦ rw e (ap ok (path_match-read-write q (build m) d (ok_injective (rw e at h))))
    | inr (why, e) ↦ rw e (rw e at h)
  ]

  -- A detour in the spelling of a path changes no verdict.
  pub check_path-detour :
      (a n b : Str) (access : PathAccess)
      → Detour n
      → is_absolute (a ++ b'/' ∷ b) ≡ true
      → Lacks 0 (a ++ b'/' ∷ b)
      → check_path m (a ++ b'/' ∷ (n ++ b'/' ∷ b)) access ≡ check_path m (a ++ b'/' ∷ b) access
  unfolding check_path
  check_path-detour a n b access d abs no_nul =
      let direct = normalize_absolute_of (a ++ b'/' ∷ b) abs no_nul in
      rw (normalize_absolute-detour a n b d abs ∙ direct, direct)

module _ (m : Matchers) (lawful : IsLawful m) where
  IsDenied-of_by :
      (q : Str) (access : PathAccess) (d : DenyMatch)
      → IsDeniedBy m q access d
      → IsDenied m q access
  IsDenied-of_by q access d (inl a) = inl (Any-map (λ e h. h.0) _ a)
  IsDenied-of_by q access d (inr (w, a)) = inr (w, Any-map (λ e h. h.0) _ a)

  unhit-none :
      (q : Str) (c : Compiled m)
      → build m ≡ ok c
      → (access : PathAccess) → ¬ IsDenied m q access
      → path_match m access q (ok c) ≡ none
  unhit-none q c b access free = elim (Option-cases (path_match m access q (ok c))) [
    | inl e ↦ e
    | inr (d, e) ↦ absurd (
        free
          (IsDenied-of_by q access d (verdict-some m lawful q c (build-IsBuilt m c b) access d e)))
  ]

  -- A path passes exactly when it has a normal form, the table compiles, and no glob of a rule
  -- that speaks about the access matches the normal form.
  pub check_path-none_iff :
      (p : Str) (access : PathAccess)
      → (check_path m p access ≡ ok none) ↔ (
          (q : Str) × (c : Compiled m) × (normalize_absolute p ≡ ok q)
          × (build m ≡ ok c)
          × ¬ IsDenied m q access)
  unfolding check_path
  check_path-none_iff p access = (to, from)
    where
      to :
          check_path m p access ≡ ok none
          → (q : Str) × (c : Compiled m) × (normalize_absolute p ≡ ok q)
            × (build m ≡ ok c)
            × ¬ IsDenied m q access
      to h = elim (normalize_absolute-cases p) [
        | inr (why, e) ↦ absurd (cc (rw e at h))
        | inl (q, e) ↦ elim (Result-cases (build m)) [
          | inr (why, b) ↦ absurd (cc (rw (e, b) at h))
          | inl (c, b) ↦ (
            q,
            c,
            e,
            b,
            verdict-none m lawful q c (build-IsBuilt m c b) access (ok_injective (rw (e, b) at h)),
          )
        ]
      ]

      from :
          (q : Str) × (c : Compiled m) × (normalize_absolute p ≡ ok q)
            × (build m ≡ ok c)
            × ¬ IsDenied m q access
          → check_path m p access ≡ ok none
      from (q, c, e, b, free) = rw (e, b) (ap ok (unhit-none q c b access free))

  -- A denial of a path with a normal form, by a table that compiles, names a rule of which a glob
  -- matches the normal form, and that speaks about the access.
  pub check_path-some :
      (p q : Str) (access : PathAccess) (c : Compiled m) (d : DenyMatch)
      → normalize_absolute p ≡ ok q
      → build m ≡ ok c
      → check_path m p access ≡ ok (some d)
      → IsDeniedBy m q access d
  unfolding check_path
  check_path-some p q access c d n b h =
      verdict-some m lawful q c (build-IsBuilt m c b) access d (ok_injective (rw (n, b) at h))
