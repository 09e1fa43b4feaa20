-- ===== src/Policy/Allowlist.antt =====
-- crates/archangel-policy/src/allowlist.rs: profiles and the lookups on them. The TOML parser that
-- fills an `Allowlist` is not part of the repository.
use archangel.Common.{
  ◌≡◌, ◌↔◌, Bool, true, false, Option, none, some, List, [], ◌∷◌, any, if◌then◌else◌, Any, ◌&&◌,
  arith, inl, inr, Option-cases, ◌≢◌, Bool-cases, sym, ap, ◌∙◌,
}
use archangel.Common.Text.{Str, str_eq, str_eq_iff}
use archangel.Core.{OperationMode, mode_eq}

pub record ProfileAllow : Type 0 where
  pub name : Str
  pub mode : OperationMode
  pub allowed_exec : List Str

pub record Allowlist : Type 0 where
  pub profiles : List ProfileAllow

unfoldable pub find_profile : List ProfileAllow → Str → Option ProfileAllow
find_profile [] name = none
find_profile (p ∷ ps) name =
    let rest = find_profile ps name in if str_eq p.name name then some p else rest

unfoldable pub profile : Allowlist → Str → Option ProfileAllow
unfolding find_profile
profile al name = find_profile al.profiles name

abbrev pub profile_allows : Str → OperationMode → ProfileAllow → Bool
profile_allows exec mode p = mode_eq p.mode mode && any (λ e. str_eq e exec) p.allowed_exec

-- `Option::is_some_and`
abbrev is_some_and {ℓ} : {A : Type ℓ} → (A → Bool) → Option A → Bool
is_some_and f none = false
is_some_and f (some a) = f a

unfoldable pub is_allowed : Allowlist → Str → Str → OperationMode → Bool
unfolding profile
is_allowed al name exec mode = is_some_and (profile_allows exec mode) (profile al name)

-- `p` is the first profile of the name.
pub data IsFirst (name : Str) (p : ProfileAllow) : List ProfileAllow → Type 0 where
  here :
      {q : ProfileAllow} {ps : List ProfileAllow} → q ≡ p → p.name ≡ name → IsFirst name p (q ∷ ps)
  later :
      {q : ProfileAllow} {ps : List ProfileAllow}
      → q.name ≢ name
      → IsFirst name p ps
      → IsFirst name p (q ∷ ps)

mode_eq→eq : (a b : OperationMode) → mode_eq a b ≡ true → a ≡ b
unfolding mode_eq
mode_eq→eq a b h = ground arith

mode_eq_refl : (a : OperationMode) → mode_eq a a ≡ true
unfolding mode_eq
mode_eq_refl a = ground arith

any-str_eq :
    (exec : Str) (es : List Str) → (any (λ e. str_eq e exec) es ≡ true) ↔ Any (λ e. e ≡ exec) es
any-str_eq exec [] = (λ h. cc, λ a. absurd a)
any-str_eq exec (e ∷ es) = grind (arith, str_eq_iff e exec, any-str_eq exec es)

find_profile-IsFirst :
    (ps : List ProfileAllow) (name : Str) (p : ProfileAllow)
    → find_profile ps name ≡ some p
    → IsFirst name p ps
unfolding find_profile
find_profile-IsFirst [] name p h = cc
find_profile-IsFirst (q ∷ ps) name p h = elim (Bool-cases (str_eq q.name name)) [
  | inl e ↦
      let h' : some q ≡ some p = rw e at h in
      let same : q ≡ p = ground arith in
      here same (ap (λ (x : ProfileAllow). x.name) (sym same) ∙ (str_eq_iff q.name name).0 e)
  | inr e ↦
      later (λ n. cc (e, (str_eq_iff q.name name).1 n)) (find_profile-IsFirst ps name p (rw e at h))
]

IsFirst-find_profile :
    (name : Str) (p : ProfileAllow) {ps : List ProfileAllow}
    → IsFirst name p ps
    → find_profile ps name ≡ some p
unfolding find_profile
IsFirst-find_profile name p (here {q} same n) =
    rw ((str_eq_iff q.name name).1 (ap (λ (x : ProfileAllow). x.name) same ∙ n), same)
IsFirst-find_profile name p (later {q} n f) =
    ground (arith, IsFirst-find_profile name p f, str_eq_iff q.name name)

-- An exec is allowed exactly when the first profile of the name runs in that mode and lists it.
pub is_allowed_iff :
    (al : Allowlist) (name exec : Str) (mode : OperationMode)
    → (is_allowed al name exec mode ≡ true) ↔ (
        (p : ProfileAllow) × IsFirst name p al.profiles
        × (p.mode ≡ mode)
        × Any (λ e. e ≡ exec) p.allowed_exec)
unfolding is_allowed
is_allowed_iff al name exec mode = (to, from)
  where
    to :
        is_allowed al name exec mode ≡ true
        → (p : ProfileAllow) × IsFirst name p al.profiles
          × (p.mode ≡ mode)
          × Any (λ e. e ≡ exec) p.allowed_exec
    to h = elim (Option-cases (find_profile al.profiles name)) [
      | inl e ↦ absurd (cc (rw e at h))
      | inr (p, e) ↦
          let k : profile_allows exec mode p ≡ true = rw e at h in
          (
            p,
            find_profile-IsFirst al.profiles name p e,
            mode_eq→eq p.mode mode (ground arith),
            (any-str_eq exec p.allowed_exec).0 (ground arith),
          )
    ]

    from :
        (p : ProfileAllow) × IsFirst name p al.profiles
          × (p.mode ≡ mode)
          × Any (λ e. e ≡ exec) p.allowed_exec
        → is_allowed al name exec mode ≡ true
    from (p, f, e, a) =
        rw (IsFirst-find_profile name p f, e, mode_eq_refl mode)
          ((any-str_eq exec p.allowed_exec).1 a)
