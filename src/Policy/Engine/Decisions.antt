-- ===== src/Policy/Engine/Decisions.antt =====
-- crates/archangel-policy/src/lib.rs: when the engine decides what.
use archangel.Common.{
  ◌≡◌, ◌≢◌, refl, sym, ap, ◌∙◌, ◌⊎◌, ◌↔◌, inl, inr, Bool, true, Option, none, some, List, [], ◌∷◌,
  ok, arith, All, Any, Option-cases,
}
use archangel.Common.Text.{Str}
use archangel.Core.{
  interactive, RiskLevel, critical, requires_human_approval, requires_two_person_rule,
}
use archangel.Policy.Denylist.{Matchers, DenyMatch, check_command, check_path}
use archangel.Policy.Denylist.PathVerdicts.{check_path_total}
use archangel.Policy.Allowlist.{is_allowed}
use archangel.Policy.Engine.{
  PolicyDecision, allow, require_approval, PathIntent, PolicyRequest, PolicyEngine, Reason,
  needs_approval, deny_from, gate, deny_commands, deny_paths, evaluate,
}

two_person_risk :
    (risk : RiskLevel) (b : Bool)
    → b ≡ requires_two_person_rule risk
    → (b ≡ true) ↔ (risk ≡ critical)
unfolding requires_two_person_rule
two_person_risk risk b h = ground arith

module _ (m : Matchers) where
  -- The denylist has nothing against the request.
  pub record IsClear (r : PolicyRequest) : Type 0 where
    pub commands : All (λ c. check_command m c ≡ none) r.commands
    pub paths : All (λ i. check_path m i.path i.access ≡ ok none) r.paths

  -- Some command or some path of the request is denied.
  abbrev pub IsHit : PolicyRequest → Type 0
  IsHit r =
      Any (λ c. (d : DenyMatch) × (check_command m c ≡ some d)) r.commands
      ⊎ Any (λ (i : PathIntent). (d : DenyMatch) × (check_path m i.path i.access ≡ ok (some d)))
          r.paths

  deny_commands-none :
      (cs : List Str) → deny_commands m cs ≡ none → All (λ c. check_command m c ≡ none) cs
  unfolding deny_commands
  deny_commands-none [] h = tt
  deny_commands-none (c ∷ cs) h = elim (Option-cases (check_command m c)) [
    | inl e ↦ (e, deny_commands-none cs (rw (e, deny_commands) at h))
    | inr (d, e) ↦ absurd (cc (rw (e, deny_commands) at h))
  ]

  deny_commands-clear :
      (cs : List Str) → All (λ c. check_command m c ≡ none) cs → deny_commands m cs ≡ none
  unfolding deny_commands
  deny_commands-clear [] h = refl
  deny_commands-clear (c ∷ cs) h = rw (h.0, deny_commands) (deny_commands-clear cs h.1)

  deny_commands-hit :
      (cs : List Str)
      → Any (λ c. (d : DenyMatch) × (check_command m c ≡ some d)) cs
      → (d : DenyMatch) × (deny_commands m cs ≡ some (deny_from d))
  unfolding deny_commands
  deny_commands-hit [] a = absurd a
  deny_commands-hit (c ∷ cs) (inl (d, e)) = (d, rw (e, deny_commands) refl)
  deny_commands-hit (c ∷ cs) (inr a) = elim (Option-cases (check_command m c)) [
    | inl e ↦ let (d, h) = deny_commands-hit cs a in (d, rw (e, deny_commands) h)
    | inr (d, e) ↦ (d, rw (e, deny_commands) refl)
  ]

  deny_paths-none :
      (is : List PathIntent)
      → deny_paths m is ≡ none
      → All (λ i. check_path m i.path i.access ≡ ok none) is
  unfolding deny_paths
  deny_paths-none [] h = tt
  deny_paths-none (i ∷ is) h = split (check_path_total m i.path i.access) h (deny_paths-none is)
    where
      split :
          (verdict : Option DenyMatch) × (check_path m i.path i.access ≡ ok verdict)
          → deny_paths m (i ∷ is) ≡ none
          → (deny_paths m is ≡ none → All (λ i. check_path m i.path i.access ≡ ok none) is)
          → All (λ i. check_path m i.path i.access ≡ ok none) (i ∷ is)
      split (none, e) h rest = (e, rest (rw (e, deny_paths) at h))
      split (some d, e) h rest = absurd (cc (rw (e, deny_paths) at h))

  deny_paths-clear :
      (is : List PathIntent)
      → All (λ i. check_path m i.path i.access ≡ ok none) is
      → deny_paths m is ≡ none
  unfolding deny_paths
  deny_paths-clear [] h = refl
  deny_paths-clear (i ∷ is) h = rw (h.0, deny_paths) (deny_paths-clear is h.1)

  deny_paths-hit :
      (is : List PathIntent)
      → Any (λ (i : PathIntent). (d : DenyMatch) × (check_path m i.path i.access ≡ ok (some d))) is
      → (d : DenyMatch) × (deny_paths m is ≡ some (deny_from d))
  unfolding deny_paths
  deny_paths-hit [] a = absurd a
  deny_paths-hit (i ∷ is) (inl (d, e)) = (d, rw (e, deny_paths) refl)
  deny_paths-hit (i ∷ is) (inr a) = split (check_path_total m i.path i.access) (deny_paths-hit is a)
    where
      split :
          (verdict : Option DenyMatch) × (check_path m i.path i.access ≡ ok verdict)
          → (d : DenyMatch) × (deny_paths m is ≡ some (deny_from d))
          → (d : DenyMatch) × (deny_paths m (i ∷ is) ≡ some (deny_from d))
      split (none, e) (d, h) = (d, rw (e, deny_paths) h)
      split (some d, e) _ = (d, rw (e, deny_paths) refl)

  deny_commands-some :
      (cs : List Str) {x : PolicyDecision}
      → deny_commands m cs ≡ some x
      → (d : DenyMatch) × (x ≡ deny_from d)
        × Any (λ c. (d : DenyMatch) × (check_command m c ≡ some d)) cs
  unfolding deny_commands
  deny_commands-some [] h = cc
  deny_commands-some (c ∷ cs) {x} h = elim (Option-cases (check_command m c)) [
    | inl e ↦
        let (d, same, a) = deny_commands-some cs (rw (e, deny_commands) at h) in (d, same, inr a)
    | inr (d, e) ↦
        let h' : some (deny_from d) ≡ some x = rw (e, deny_commands) at h in
        (d, ground arith, inl (d, e))
  ]

  deny_paths-some :
      (is : List PathIntent) {x : PolicyDecision}
      → deny_paths m is ≡ some x
      → (d : DenyMatch) × (x ≡ deny_from d)
        × Any
            (λ (i : PathIntent). (d : DenyMatch) × (check_path m i.path i.access ≡ ok (some d)))
            is
  unfolding deny_paths
  deny_paths-some [] h = cc
  deny_paths-some (i ∷ is) {x} h = split (check_path_total m i.path i.access) h (deny_paths-some is)
    where
      split :
          (verdict : Option DenyMatch) × (check_path m i.path i.access ≡ ok verdict)
          → deny_paths m (i ∷ is) ≡ some x
          → (deny_paths m is ≡ some x
              → (d : DenyMatch) × (x ≡ deny_from d)
                × Any
                    (λ (i : PathIntent).
                      (d : DenyMatch) × (check_path m i.path i.access ≡ ok (some d)))
                    is)
          → (d : DenyMatch) × (x ≡ deny_from d)
            × Any
                (λ (i : PathIntent). (d : DenyMatch) × (check_path m i.path i.access ≡ ok (some d)))
                (i ∷ is)
      split (none, e) h rest = let (d, same, a) = rest (rw (e, deny_paths) at h) in (d, same, inr a)
      split (some d, e) h rest =
          let h' : some (deny_from d) ≡ some x = rw (e, deny_paths) at h in
          (d, ground arith, inl (d, e))

  -- A request that the denylist hits is denied by a match of the denylist, whatever the allowlist,
  -- the mode and the risk.
  pub evaluate-hit :
      (r : PolicyRequest)
      → IsHit r
      → (d : DenyMatch) × ((engine : PolicyEngine) → evaluate m engine r ≡ deny_from d)
  unfolding evaluate
  evaluate-hit r (inl a) =
      let (d, h) = deny_commands-hit r.commands a in (d, λ engine. rw (h, evaluate) refl)
  evaluate-hit r (inr a) = elim (Option-cases (deny_commands m r.commands)) [
    | inl e ↦
        let (d, h) = deny_paths-hit r.paths a in
        (d, λ engine. rw (e, evaluate) (rw (h, evaluate) refl))
    | inr (x, e) ↦
        let (d, same, _) = deny_commands-some r.commands e in (d, λ engine. rw (e, evaluate) same)
  ]

  evaluate-gate :
      (engine : PolicyEngine) (r : PolicyRequest) → IsClear r → evaluate m engine r ≡ gate engine r
  unfolding evaluate
  evaluate-gate engine r c =
      rw (deny_commands-clear r.commands c.commands, deny_paths-clear r.paths c.paths, evaluate)
        refl

  request_cases : (r : PolicyRequest) → IsClear r ⊎ IsHit r
  request_cases r = elim (Option-cases (deny_commands m r.commands)) [
    | inr (x, e) ↦ let (_, _, a) = deny_commands-some r.commands e in inr (inl a)
    | inl e ↦ elim (Option-cases (deny_paths m r.paths)) [
      | inr (x, k) ↦ let (_, _, a) = deny_paths-some r.paths k in inr (inr a)
      | inl k ↦
          inl (record {
            commands = deny_commands-none r.commands e;
            paths = deny_paths-none r.paths k;
          })
    ]
  ]

  -- A decision that is not a denial is the one of `gate`, on a request that is clear.
  undenied :
      (engine : PolicyEngine) (r : PolicyRequest) (x : PolicyDecision)
      → evaluate m engine r ≡ x
      → ((d : DenyMatch) → x ≢ deny_from d)
      → IsClear r × (gate engine r ≡ x)
  undenied engine r x e free = elim (request_cases r) [
    | inl c ↦ (c, sym (evaluate-gate engine r c) ∙ e)
    | inr hit ↦ let (d, f) = evaluate-hit r hit in absurd (free d (sym e ∙ f engine))
  ]

  module _ (engine : PolicyEngine) (r : PolicyRequest) where
    gate-allow : (gate engine r ≡ allow) ↔ (
        (is_allowed engine.allowlist r.profile r.exec r.mode ≡ true)
        × (r.mode ≢ interactive)
        × (r.risk ≢ critical))
    unfolding gate requires_human_approval requires_two_person_rule
    gate-allow = ground arith

    gate-approval : (needs_approval (gate engine r) ≡ true) ↔ (
        (is_allowed engine.allowlist r.profile r.exec r.mode ≡ true)
        × ((r.mode ≡ interactive) ⊎ (r.risk ≡ critical)))
    unfolding gate requires_human_approval requires_two_person_rule needs_approval
    gate-approval = ground arith

    gate-ne-deny : (d : DenyMatch) → gate engine r ≢ deny_from d
    unfolding gate deny_from
    gate-ne-deny d = ground arith

    -- The engine allows a request to run at once exactly when no command and no path of it is
    -- denied, the allowlist lists it, the mode is not interactive and the risk is not critical.
    pub evaluate-allow_iff : (evaluate m engine r ≡ allow) ↔ (
        IsClear r
        × (is_allowed engine.allowlist r.profile r.exec r.mode ≡ true)
        × (r.mode ≢ interactive)
        × (r.risk ≢ critical))
    evaluate-allow_iff = (to, from)
      where
        to :
            evaluate m engine r ≡ allow
            → IsClear r
              × (is_allowed engine.allowlist r.profile r.exec r.mode ≡ true)
              × (r.mode ≢ interactive)
              × (r.risk ≢ critical)
        to e =
            let (c, g) = undenied engine r allow e (λ d h. unfold deny_from in cc h) in
            let (a, b, n) = gate-allow.0 g in (c, a, b, n)

        from :
            IsClear r
              × (is_allowed engine.allowlist r.profile r.exec r.mode ≡ true)
              × (r.mode ≢ interactive)
              × (r.risk ≢ critical)
            → evaluate m engine r ≡ allow
        from (c, a, b, n) = evaluate-gate engine r c ∙ gate-allow.1 (a, b, n)

    -- It asks for an approval exactly when nothing is denied, the allowlist lists the request, and
    -- the mode is interactive or the risk is critical.
    pub evaluate-approval_iff : (needs_approval (evaluate m engine r) ≡ true) ↔ (
        IsClear r
        × (is_allowed engine.allowlist r.profile r.exec r.mode ≡ true)
        × ((r.mode ≡ interactive) ⊎ (r.risk ≡ critical)))
    evaluate-approval_iff = (to, from)
      where
        to :
            needs_approval (evaluate m engine r) ≡ true
            → IsClear r
              × (is_allowed engine.allowlist r.profile r.exec r.mode ≡ true)
              × ((r.mode ≡ interactive) ⊎ (r.risk ≡ critical))
        to e =
            let (c, g) =
              undenied engine r (evaluate m engine r) refl
                (λ d h. unfold deny_from needs_approval in cc (rw h at e)) in
            let (a, b) = gate-approval.0 (ap needs_approval g ∙ e) in (c, a, b)

        from :
            IsClear r
              × (is_allowed engine.allowlist r.profile r.exec r.mode ≡ true)
              × ((r.mode ≡ interactive) ⊎ (r.risk ≡ critical))
            → needs_approval (evaluate m engine r) ≡ true
        from (c, a, b) = ap needs_approval (evaluate-gate engine r c) ∙ gate-approval.1 (a, b)

    gate-two_person :
        (why : Reason) (two_person : Bool)
        → gate engine r ≡ require_approval why two_person
        → two_person ≡ requires_two_person_rule r.risk
    unfolding gate
    gate-two_person why two_person h = ground arith

    -- An approval is asked of two persons exactly when the risk is critical, in every mode.
    pub evaluate-two_person_iff :
        (why : Reason) (two_person : Bool)
        → evaluate m engine r ≡ require_approval why two_person
        → (two_person ≡ true) ↔ (r.risk ≡ critical)
    evaluate-two_person_iff why two_person e =
        let (_, g) = undenied engine r _ e (λ d h. unfold deny_from in cc h) in
        let same = gate-two_person why two_person g in two_person_risk r.risk two_person same
