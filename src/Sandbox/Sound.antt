-- ===== src/Sandbox/Sound.antt =====
-- crates/archangel-sandbox/src/plan.rs: which requests have a plan, and what it is.
use archangel.Common.{
  ℕ, ◌≤◌, ◌≡◌, ◌↔◌, refl, ap, subst, inl, inr, true, false, Option, none, some, List, [], ◌∷◌, ◌++◌,
  any, ◌||◌, All, ltb, Result, ok, >>=-ok_inv, ok_injective, Bool-cases, arith,
}
use archangel.Common.Text.{Str, str, str_eq, str_len, contains, split}
use archangel.Common.Text.Lines.{is_empty}
use archangel.Common.Map.{member}
use archangel.Sandbox.{SandboxPolicy}
use archangel.Sandbox.Limits.{SandboxError, parse_cpu_max, parse_memory_max}
use archangel.Sandbox.Limits.Bounds.{IsCpuLimit, IsMemoryLimit, parse_cpu_max-ok_iff}
use archangel.Sandbox.Limits.Memory.{parse_memory_max-ok_iff}
use archangel.Sandbox.Plan.{
  Kernel, opens_with_slash, validate_path, validate_paths, declared, SandboxPlan, resolve, plan_of,
  plan, insert_name,
}
use archangel.Sandbox.Names.{IsAscending, insert_name-IsAscending, member-insert_name}

-- An absolute path of at most 4096 bytes, without a NUL and without a component "..".
pub record IsCleanPath (p : Str) : Type 0 where
  pub absolute : opens_with_slash p ≡ true
  pub short : str_len p ≤ 4096
  pub no_nul : contains p 0 ≡ false
  pub no_parent : any (λ c. str_eq c (str "..")) (split b'/' p) ≡ false

-- A limit that is declared is one, and one that is not is none.
pub data IsLimit (IsOne : Str → ℕ → Type 0) : Option Str → Option ℕ → Type 0 where
  undeclared : IsLimit IsOne none none
  limited : {text : Str} {n : ℕ} → IsOne text n → IsLimit IsOne (some text) (some n)

full-opens : (p : Str) → opens_with_slash p ≡ true → is_empty p ≡ false
full-opens [] h = cc
full-opens (c ∷ p) h = refl

validate_path-ok : (p : Str) → validate_path p ≡ ok tt → IsCleanPath p
unfolding validate_path
validate_path-ok p h = elim (Bool-cases (is_empty p)) [
  | inl a ↦ absurd (cc (rw a at h))
  | inr a ↦ elim (Bool-cases (opens_with_slash p)) [
    | inr b ↦ absurd (cc (rw (a, b) at h))
    | inl b ↦ elim (Bool-cases (ltb 4096 (str_len p))) [
      | inl c ↦ absurd (cc (rw (a, b, c) at h))
      | inr c ↦ elim (Bool-cases (contains p 0)) [
        | inl d ↦ absurd (cc (rw (a, b, c, d) at h))
        | inr d ↦ elim (Bool-cases (any (λ c. str_eq c (str "..")) (split b'/' p))) [
          | inl e ↦ absurd (cc (rw (a, b, c, d, e) at h))
          | inr e ↦ record { absolute = b; short = ground (arith, c); no_nul = d; no_parent = e }
        ]
      ]
    ]
  ]
]

validate_path_of : (p : Str) → IsCleanPath p → validate_path p ≡ ok tt
unfolding validate_path
validate_path_of p k =
    let fits : ltb 4096 (str_len p) ≡ false = ground (arith, k.short) in
    rw (full-opens p k.absolute, k.absolute, fits, k.no_nul, k.no_parent) refl

validate_paths_iff : (paths : List Str) → (validate_paths paths ≡ ok tt) ↔ All IsCleanPath paths
unfolding validate_paths
validate_paths_iff [] = (λ h. tt, λ a. refl)
validate_paths_iff (p ∷ paths) = (
  λ h.
      let (u, e, k) = >>=-ok_inv (validate_path p) _ h in
      (validate_path-ok p e, (validate_paths_iff paths).0 k),
  λ a. rw (validate_path_of p a.0) ((validate_paths_iff paths).1 a.1),
)

declared_iff :
    (parse : Str → Result ℕ SandboxError) (IsOne : Str → ℕ → Type 0)
    → ((text : Str) (n : ℕ) → (parse text ≡ ok n) ↔ IsOne text n)
    → (o : Option Str) (l : Option ℕ) → (declared parse o ≡ ok l) ↔ IsLimit IsOne o l
declared_iff parse IsOne lem o l = (to o l, from o l)
  where
    to : (o : Option Str) (l : Option ℕ) → declared parse o ≡ ok l → IsLimit IsOne o l
    to none l h = subst (IsLimit IsOne none) (ok_injective h) undeclared
    to (some text) l h =
        let (n, e, k) = >>=-ok_inv (parse text) _ h in
        subst (IsLimit IsOne (some text)) (ok_injective k) (limited ((lem text n).0 e))

    from : (o : Option Str) (l : Option ℕ) → IsLimit IsOne o l → declared parse o ≡ ok l
    from o l undeclared = refl
    from o l (limited {text} {n} k) = rw ((lem text n).1 k) refl

module _ (x : Kernel) where
  abbrev pub IsKnown : Str → Type 0
  IsKnown raw = x.is_capability (x.to_canonical raw) ≡ true

  -- The canonical names in their order, each once.
  unfoldable pub canonical_names : List Str → List Str → List Str
  canonical_names names [] = names
  canonical_names names (raw ∷ rest) = canonical_names (insert_name (x.to_canonical raw) names) rest

  canonical_names-IsAscending :
      (names declared : List Str) → IsAscending names → IsAscending (canonical_names names declared)
  unfolding canonical_names
  canonical_names-IsAscending names [] h = h
  canonical_names-IsAscending names (raw ∷ rest) h =
      canonical_names-IsAscending (insert_name (x.to_canonical raw) names) rest
        (insert_name-IsAscending (x.to_canonical raw) names h)

  member-canonical_names :
      (names declared : List Str) (name : Str)
      → member name (canonical_names names declared)
        ≡ (member name names || any (λ raw. str_eq (x.to_canonical raw) name) declared)
  unfolding canonical_names
  member-canonical_names names [] name = ground arith
  member-canonical_names names (raw ∷ rest) name = ground (
    arith,
    member-canonical_names (insert_name (x.to_canonical raw) names) rest name,
    member-insert_name (x.to_canonical raw) name names,
  )

  resolve-ok :
      (names declared out : List Str)
      → resolve x names declared ≡ ok out
      → All IsKnown declared × (canonical_names names declared ≡ out)
  unfolding resolve canonical_names
  resolve-ok names [] out h = (tt, ok_injective h)
  resolve-ok names (raw ∷ rest) out h = elim (Bool-cases (x.is_capability (x.to_canonical raw))) [
    | inr e ↦ absurd (cc (rw e at h))
    | inl e ↦
        let (known, same) =
          resolve-ok (insert_name (x.to_canonical raw) names) rest out (rw e at h) in
        ((e, known), same)
  ]

  resolve_of :
      (names declared : List Str)
      → All IsKnown declared
      → resolve x names declared ≡ ok (canonical_names names declared)
  unfolding resolve canonical_names
  resolve_of names [] k = refl
  resolve_of names (raw ∷ rest) k =
      rw k.0 (resolve_of (insert_name (x.to_canonical raw) names) rest k.1)

  -- The plan of a request: the profile compiles, each capability is known, the plan's are exactly the
  -- canonical names in their order, each declared limit is one in its range, each path is clean, and
  -- everything is isolated, the network unless egress is asked.
  pub record IsPlanned (p : SandboxPolicy) (made : SandboxPlan x) : Type 0 where
    pub compiled : x.compile p.syscall_profile ≡ ok made.seccomp
    pub known : All IsKnown p.capabilities
    pub ascending : IsAscending made.capabilities
    pub exact :
        (name : Str)
        → member name made.capabilities
          ≡ any (λ raw. str_eq (x.to_canonical raw) name) p.capabilities
    pub cpu : IsLimit IsCpuLimit p.cpu_max made.cpu_max
    pub memory : IsLimit IsMemoryLimit p.memory_max made.memory_max
    pub clean : All IsCleanPath (p.allowed_paths_ro ++ p.allowed_paths_rw)
    pub made_lem :
        plan_of x p made.seccomp (canonical_names [] p.capabilities) made.cpu_max made.memory_max
        ≡ made

  planned :
      (p : SandboxPolicy) (made : SandboxPlan x) (seccomp : x.SeccompProfile) (names : List Str)
      (cpu memory : Option ℕ)
      → x.compile p.syscall_profile ≡ ok seccomp
      → All IsKnown p.capabilities × (canonical_names [] p.capabilities ≡ names)
      → IsLimit IsCpuLimit p.cpu_max cpu
      → IsLimit IsMemoryLimit p.memory_max memory
      → All IsCleanPath (p.allowed_paths_ro ++ p.allowed_paths_rw)
      → plan_of x p seccomp names cpu memory ≡ made
      → IsPlanned p made
  unfolding member
  planned p made seccomp names cpu memory c k u m a same = subst (IsPlanned p) same (record {
    compiled = c;
    known = k.0;
    ascending = rw (← k.1) (canonical_names-IsAscending [] p.capabilities tt);
    exact = λ name. rw (← k.1) (member-canonical_names [] p.capabilities name);
    cpu = u;
    memory = m;
    clean = a;
    made_lem = ap (λ n. plan_of x p seccomp n cpu memory) k.1;
  })

  -- A request has a plan exactly when its profile compiles, each of its capabilities is known, each
  -- limit that it declares is one in its range, and each path is absolute, of at most 4096 bytes, and
  -- without a NUL and ".."; an empty component, as in /etc//x, is let through. The plan then has
  -- these limits and no other, the canonical names of the capabilities in their order and each once,
  -- and isolates everything, the network unless egress is asked.
  pub plan-ok_iff :
      (p : SandboxPolicy) (made : SandboxPlan x) → (plan x p ≡ ok made) ↔ IsPlanned p made
  unfolding plan
  plan-ok_iff p made = (to, from)
    where
      to : plan x p ≡ ok made → IsPlanned p made
      to h =
          let (seccomp, c, h₁) = >>=-ok_inv _ _ h in
          let (names, k, h₂) = >>=-ok_inv _ _ h₁ in
          let (cpu, u, h₃) = >>=-ok_inv _ _ h₂ in
          let (memory, m, h₄) = >>=-ok_inv _ _ h₃ in
          let (done, a, h₅) = >>=-ok_inv _ _ h₄ in
          planned p made seccomp names cpu memory c (resolve-ok [] p.capabilities names k)
            ((declared_iff parse_cpu_max IsCpuLimit parse_cpu_max-ok_iff p.cpu_max cpu).0 u)
            ((declared_iff parse_memory_max IsMemoryLimit parse_memory_max-ok_iff p.memory_max
                memory).0
              m)
            ((validate_paths_iff (p.allowed_paths_ro ++ p.allowed_paths_rw)).0 a) (ok_injective h₅)

      from : IsPlanned p made → plan x p ≡ ok made
      from k =
          rw
            (
              k.compiled,
              resolve_of [] p.capabilities k.known,
              (declared_iff parse_cpu_max IsCpuLimit parse_cpu_max-ok_iff p.cpu_max made.cpu_max).1
                  k.cpu,
              (declared_iff parse_memory_max IsMemoryLimit parse_memory_max-ok_iff p.memory_max
                    made.memory_max).1
                  k.memory,
              (validate_paths_iff (p.allowed_paths_ro ++ p.allowed_paths_rw)).1 k.clean,
            )
            (ap ok k.made_lem)
