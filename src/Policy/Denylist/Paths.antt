-- ===== src/Policy/Denylist/Paths.antt =====
-- crates/archangel-policy/src/denylist.rs: `check_path` against the rule table.
use archangel.Common.{
  ℕ, zero, suc, ◌≡◌, refl, sym, ap, ◌∙◌, ◌⊎◌, inl, inr, true, none, some, List, [], ◌∷◌, ok,
  get_elem?, Any, arith, ok_injective, Option-cases, map_option-some, map_option-none,
}
use archangel.Common.Text.{Str}
use archangel.Policy.Denylist.{
  PathScope, PathAccess, Owner, rules, Matchers, IsLawful, DenyMatch, owner_matched, Compiled,
  first_glob_owner, path_match,
}
use archangel.Policy.Denylist.Build.{
  Entry, path_entries, owners, Globs, IsBuilt, head_owner-none, head_owner-some,
}

module _ (m : Matchers) where
  -- The glob of the entry matches the path.
  abbrev pub Hits : Str → Entry → Type 0
  Hits q e = (g : m.Glob) × (m.glob_build e.0 ≡ ok g) × (m.glob_is_match g q ≡ true)

  -- A glob of a rule that speaks about the access matches the path.
  abbrev pub IsDenied : Str → PathAccess → Type 0
  IsDenied q access =
      Any (Hits q) (path_entries PathScope.any rules)
      ⊎ (access ≡ PathAccess.write) × Any (Hits q) (path_entries PathScope.modify rules)

  -- The match names a rule that speaks about the access, one of whose globs matches the path.
  abbrev pub IsDeniedBy : Str → PathAccess → DenyMatch → Type 0
  IsDeniedBy q access d =
      Any (λ e. Hits q e × (d ≡ owner_matched e.1 q)) (path_entries PathScope.any rules)
      ⊎ (access ≡ PathAccess.write)
        × Any (λ e. Hits q e × (d ≡ owner_matched e.1 q)) (path_entries PathScope.modify rules)

module _ (m : Matchers) (lawful : IsLawful m) where
  index_of_Any :
      (q : Str) (gs : List m.Glob) (es : List Entry)
      → Globs m gs es
      → Any (Hits m q) es
      → (i : ℕ) × (g : m.Glob) × (get_elem? gs i ≡ some g) × (m.glob_is_match g q ≡ true)
  index_of_Any q [] [] h a = absurd a
  index_of_Any q [] (e ∷ es) h a = absurd h
  index_of_Any q (g ∷ gs) [] h a = absurd h
  index_of_Any q (g ∷ gs) (e ∷ es) h (inl (g', b, hit)) =
      (0, g', ap some (ok_injective (sym h.0 ∙ b)), hit)
  index_of_Any q (g ∷ gs) (e ∷ es) h (inr a) =
      let (i, g', at, hit) = index_of_Any q gs es h.1 a in (suc i, g', at, hit)

  entry_at :
      (gs : List m.Glob) (es : List Entry) (i : ℕ) {g : m.Glob}
      → Globs m gs es
      → get_elem? gs i ≡ some g
      → (e : Entry) × (get_elem? es i ≡ some e) × (m.glob_build e.0 ≡ ok g)
  entry_at [] es i h at = cc
  entry_at (g ∷ gs) [] i h at = absurd h
  entry_at (g ∷ gs) (e ∷ es) zero {g = g'} h at =
      (e, refl, h.0 ∙ ap ok (let q : g ≡ g' = ground arith in q))
  entry_at (g ∷ gs) (e ∷ es) (suc i) h at = entry_at gs es i h.1 at

  module _ (q : Str) (gs : List m.Glob) (es : List Entry) (set : m.GlobSet) (built : Globs m gs es)
      (set_built : m.glob_set_build gs ≡ ok set) where
    -- The first reported index belongs to an entry that hits.
    reported :
        (i : ℕ)
        → Any (λ j. j ≡ i) (m.glob_set_matches set q)
        → (e : Entry) × (get_elem? es i ≡ some e) × Hits m q e
    reported i a =
        let (g, at, hit) = (lawful.glob_set_lem gs set set_built q i).0 a in
        let (e, there, b) = entry_at gs es i built at in (e, there, (g, b, hit))

    first_glob_owner-none : first_glob_owner m set (owners es) q ≡ none → ¬ Any (Hits m q) es
    unfolding first_glob_owner
    first_glob_owner-none h a =
        let (i, g, at, hit) = index_of_Any q gs es built a in
        head_owner-none (Hits m q) es (m.glob_set_matches set q) reported h i
          ((lawful.glob_set_lem gs set set_built q i).1 (g, at, hit))

    first_glob_owner-some :
        (o : Owner)
        → first_glob_owner m set (owners es) q ≡ some o
        → Any (λ e. Hits m q e × (e.1 ≡ o)) es
    unfolding first_glob_owner
    first_glob_owner-some o h =
        head_owner-some (Hits m q) es (m.glob_set_matches set q) o reported h

  module _ (q : Str) (c : Compiled m) (b : IsBuilt m c) where
    any-none :
        first_glob_owner m c.any_globs c.any_owners q ≡ none
        → ¬ Any (Hits m q) (path_entries PathScope.any rules)
    any-none h =
        first_glob_owner-none q b.any_list _ c.any_globs b.any_lem b.any_set
          (rw b.any_owners_lem at h)

    modify_none :
        first_glob_owner m c.modify_globs c.modify_owners q ≡ none
        → ¬ Any (Hits m q) (path_entries PathScope.modify rules)
    modify_none h =
        first_glob_owner-none q b.modify_list _ c.modify_globs b.modify_lem b.modify_set
          (rw b.modify_owners_lem at h)

    any-some :
        (o : Owner)
        → first_glob_owner m c.any_globs c.any_owners q ≡ some o
        → Any (λ e. Hits m q e × (e.1 ≡ o)) (path_entries PathScope.any rules)
    any-some o h =
        first_glob_owner-some q b.any_list _ c.any_globs b.any_lem b.any_set o
          (rw b.any_owners_lem at h)

    modify_some :
        (o : Owner)
        → first_glob_owner m c.modify_globs c.modify_owners q ≡ some o
        → Any (λ e. Hits m q e × (e.1 ≡ o)) (path_entries PathScope.modify rules)
    modify_some o h =
        first_glob_owner-some q b.modify_list _ c.modify_globs b.modify_lem b.modify_set o
          (rw b.modify_owners_lem at h)

    -- The part of `check_path` behind the normalisation and the build.
    pub verdict-none :
        (access : PathAccess) → path_match m access q (ok c) ≡ none → ¬ IsDenied m q access
    verdict-none access h = elim (Option-cases (first_glob_owner m c.any_globs c.any_owners q)) [
      | inr (o, e) ↦ cc (rw e at h)
      | inl e ↦ λ d. elim d [
        | inl a ↦ any-none e a
        | inr (w, a) ↦ modify_none (map_option-none _ _ (rw (e, w) at h)) a
      ]
    ]

    named :
        (o : Owner) (d : DenyMatch)
        → d ≡ owner_matched o q
        → (es : List Entry) → Any (λ e. Hits m q e × (e.1 ≡ o)) es
        → Any (λ e. Hits m q e × (d ≡ owner_matched e.1 q)) es
    named o d h [] a = a
    named o d h (e ∷ es) (inl (hit, same)) = inl (hit, h ∙ ap (λ o. owner_matched o q) (sym same))
    named o d h (e ∷ es) (inr a) = inr (named o d h es a)

    verdict-some_modify :
        (access : PathAccess) (d : DenyMatch)
        → first_glob_owner m c.any_globs c.any_owners q ≡ none
        → path_match m access q (ok c) ≡ some d
        → IsDeniedBy m q access d
    verdict-some_modify PathAccess.read d e h = absurd (cc (rw e at h))
    verdict-some_modify PathAccess.write d e h =
        let (o, found, same) =
          map_option-some (λ o. owner_matched o q)
            (first_glob_owner m c.modify_globs c.modify_owners q) (rw e at h) in
        inr (refl, named o d (sym same) _ (modify_some o found))

    pub verdict-some :
        (access : PathAccess) (d : DenyMatch)
        → path_match m access q (ok c) ≡ some d
        → IsDeniedBy m q access d
    verdict-some access d h = elim (Option-cases (first_glob_owner m c.any_globs c.any_owners q)) [
      | inr (o, e) ↦
          let h' : some (owner_matched o q) ≡ some d = rw e at h in
          inl (named o d (ground arith) _ (any-some o e))
      | inl e ↦ verdict-some_modify access d e h
    ]
