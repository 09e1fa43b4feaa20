-- ===== src/Policy/Denylist/Build.antt =====
-- crates/archangel-policy/src/denylist.rs: what `build` compiles, read off the rule table alone.
use mathlib.Core.List.{flatten, map-append}
use archangel.Common.{
  ℕ, ◌≡◌, refl, sym, inl, none, some, List, [], ◌∷◌, ◌++◌, map, append_assoc, append-nil, Result,
  ok, err, >>=-ok_inv, ok_injective, map_err, get_elem?, Any, arith, and_then, head?, get_elem?-map,
  Any-get,
}
use archangel.Common.Text.{Str}
use archangel.Policy.Denylist.{
  PathScope, RuleSpec, Owner, rules, owner_of, Matchers, BuildError, bad_glob, command_regex,
  any_globset, modify_globset, expand_dir_glob, Compiled, Builders, empty_builders, add_commands,
  add_glob, add_paths, add_rules, finish, build,
}

-- A pattern and the rule that it comes from.
abbrev pub Entry : Type 0
Entry = Str × Owner

abbrev pub tagged : Owner → List Str → List Entry
tagged o [] = []
tagged o (p ∷ ps) = (p, o) ∷ tagged o ps

-- The entries of a rule of the second scope, if it is the scope that is asked for.
abbrev pub scoped : PathScope → PathScope → Owner → List Str → List Entry
scoped PathScope.any PathScope.any o ps = tagged o ps
scoped PathScope.modify PathScope.modify o ps = tagged o ps
scoped _ _ o ps = []

abbrev pub rule_paths : PathScope → RuleSpec → List Entry
rule_paths scope rule =
    scoped scope rule.path_scope (owner_of rule) (flatten (map expand_dir_glob rule.path_patterns))

-- Every path pattern of the rules of a scope, in the order of the table.
unfoldable pub path_entries : PathScope → List RuleSpec → List Entry
path_entries scope [] = []
path_entries scope (rule ∷ rs) = rule_paths scope rule ++ path_entries scope rs

unfoldable pub command_entries : List RuleSpec → List Entry
command_entries [] = []
command_entries (rule ∷ rs) = tagged (owner_of rule) rule.command_patterns ++ command_entries rs

abbrev pub patterns : List Entry → List Str
patterns = map (λ e. e.0)

abbrev pub owners : List Entry → List Owner
owners = map (λ e. e.1)

scoped-cons :
    (t s : PathScope) (o : Owner) (p : Str) (ps : List Str)
    → scoped t s o (p ∷ ps) ≡ scoped t s o (p ∷ []) ++ scoped t s o ps
scoped-cons PathScope.any PathScope.any o p ps = refl
scoped-cons PathScope.any PathScope.modify o p ps = refl
scoped-cons PathScope.modify PathScope.any o p ps = refl
scoped-cons PathScope.modify PathScope.modify o p ps = refl

scoped-nil : (t s : PathScope) (o : Owner) → scoped t s o [] ≡ []
scoped-nil PathScope.any PathScope.any o = refl
scoped-nil PathScope.any PathScope.modify o = refl
scoped-nil PathScope.modify PathScope.any o = refl
scoped-nil PathScope.modify PathScope.modify o = refl

map-concat :
    {A : Type 0} (f : Entry → A) (es : List Entry) (e : Entry) (l : List A)
    → l ≡ map f es
    → l ++ f e ∷ [] ≡ map f (es ++ e ∷ [])
map-concat f es e l h = rw (map-append, h)

-- The owner at the first of some indices, each of which is the index of an entry with `P`.
module _ (P : Entry → Type 0) (es : List Entry) where
  pub head_owner-none :
      (l : List ℕ)
      → ((i : ℕ) → Any (λ j. j ≡ i) l → (e : Entry) × (get_elem? es i ≡ some e) × P e)
      → and_then (head? l) (get_elem? (owners es)) ≡ none
      → (i : ℕ) → ¬ Any (λ j. j ≡ i) l
  head_owner-none [] f h i a = a
  head_owner-none (k ∷ l) f h i a =
      let (e, there, _) = f k (inl refl) in cc (get_elem?-map (λ (e : Entry). e.1) es k, there, h)

  pub head_owner-some :
      (l : List ℕ) (o : Owner)
      → ((i : ℕ) → Any (λ j. j ≡ i) l → (e : Entry) × (get_elem? es i ≡ some e) × P e)
      → and_then (head? l) (get_elem? (owners es)) ≡ some o
      → Any (λ e. P e × (e.1 ≡ o)) es
  head_owner-some [] o f h = cc
  head_owner-some (k ∷ l) o f h =
      let (e, there, hit) = f k (inl refl) in
      Any-get (λ e. P e × (e.1 ≡ o)) es k there
        (hit, ground (arith, get_elem?-map (λ (e : Entry). e.1) es k))

module _ (m : Matchers) where
  -- The globs are those of the entries, one by one.
  abbrev pub Globs : List m.Glob → List Entry → Type 0
  Globs [] [] = Unit
  Globs (g ∷ gs) (e ∷ es) = (m.glob_build e.0 ≡ ok g) × Globs gs es
  Globs _ _ = ⊥

  Globs-append :
      (gs hs : List m.Glob) (es fs : List Entry)
      → Globs gs es
      → Globs hs fs
      → Globs (gs ++ hs) (es ++ fs)
  Globs-append [] hs [] fs h k = k
  Globs-append [] hs (e ∷ es) fs h k = absurd h
  Globs-append (g ∷ gs) hs [] fs h k = absurd h
  Globs-append (g ∷ gs) hs (e ∷ es) fs h k = (h.0, Globs-append gs hs es fs h.1 k)

  record Filled (b : Builders m) (cs xs ys : List Entry) : Type 0 where
    patterns_lem : b.command_patterns ≡ patterns cs
    command_owners_lem : b.command_owners ≡ owners cs
    any_lem : Globs b.any_builder xs
    any_owners_lem : b.any_owners ≡ owners xs
    modify_lem : Globs b.modify_builder ys
    modify_owners_lem : b.modify_owners ≡ owners ys

  add_commands-Filled :
      (o : Owner) (ps : List Str) (b : Builders m) (cs xs ys : List Entry)
      → Filled b cs xs ys
      → Filled (add_commands m o ps b) (cs ++ tagged o ps) xs ys
  unfolding add_commands
  add_commands-Filled o [] b cs xs ys h = rw append-nil h
  add_commands-Filled o (p ∷ ps) b cs xs ys h = rw (← append_assoc cs ((p, o) ∷ []) (tagged o ps)) (
      add_commands-Filled o ps _ (cs ++ (p, o) ∷ []) xs ys (record {
        patterns_lem = map-concat (λ e. e.0) cs (p, o) b.command_patterns h.patterns_lem;
        command_owners_lem = map-concat (λ e. e.1) cs (p, o) b.command_owners h.command_owners_lem;
        any_lem = h.any_lem;
        any_owners_lem = h.any_owners_lem;
        modify_lem = h.modify_lem;
        modify_owners_lem = h.modify_owners_lem;
      }))

  add_glob-Filled :
      (s : PathScope) (o : Owner) (p : Str) (g : m.Glob) (b : Builders m) (cs xs ys : List Entry)
      → m.glob_build p ≡ ok g
      → Filled b cs xs ys
      → Filled
          (add_glob m s o g b)
          cs
          (xs ++ scoped PathScope.any s o (p ∷ []))
          (ys ++ scoped PathScope.modify s o (p ∷ []))
  unfolding add_glob
  add_glob-Filled PathScope.any o p g b cs xs ys e h = record {
    patterns_lem = h.patterns_lem;
    command_owners_lem = h.command_owners_lem;
    any_lem = Globs-append b.any_builder (g ∷ []) xs ((p, o) ∷ []) h.any_lem (e, tt);
    any_owners_lem = map-concat (λ e. e.1) xs (p, o) b.any_owners h.any_owners_lem;
    modify_lem = rw append-nil h.modify_lem;
    modify_owners_lem = rw append-nil h.modify_owners_lem;
  }
  add_glob-Filled PathScope.modify o p g b cs xs ys e h = record {
    patterns_lem = h.patterns_lem;
    command_owners_lem = h.command_owners_lem;
    any_lem = rw append-nil h.any_lem;
    any_owners_lem = rw append-nil h.any_owners_lem;
    modify_lem = Globs-append b.modify_builder (g ∷ []) ys ((p, o) ∷ []) h.modify_lem (e, tt);
    modify_owners_lem = map-concat (λ e. e.1) ys (p, o) b.modify_owners h.modify_owners_lem;
  }

  map_err-eq-ok :
      {A : Type 0} (f : Str → BuildError) (r : Result A Str) {a : A} → map_err f r ≡ ok a → r ≡ ok a
  map_err-eq-ok f (ok b) h = ground arith
  map_err-eq-ok f (err e) h = cc

  add_paths-Filled :
      (rule : RuleSpec) (ps : List Str) (b b' : Builders m) (cs xs ys : List Entry)
      → Filled b cs xs ys
      → add_paths m rule ps b ≡ ok b'
      → Filled b' cs
          (xs ++ scoped PathScope.any rule.path_scope (owner_of rule) ps)
          (ys ++ scoped PathScope.modify rule.path_scope (owner_of rule) ps)
  unfolding add_paths
  add_paths-Filled rule [] b b' cs xs ys h e =
      simp (scoped-nil, append-nil) (rw (ok_injective (sym e)) h)
  add_paths-Filled rule (p ∷ ps) b b' cs xs ys h e =
      let (g, built, e') = >>=-ok_inv (map_err (bad_glob p rule.id) (m.glob_build p)) _ e in
      let o = owner_of rule in
      let s = rule.path_scope in
      rw
        (
          scoped-cons PathScope.any s o p ps,
          scoped-cons PathScope.modify s o p ps,
          ← append_assoc xs,
          ← append_assoc ys,
        )
        (add_paths-Filled rule ps _ b' cs _ _
          (add_glob-Filled s o p g b cs xs ys (map_err-eq-ok _ _ built) h) e')

  add_rules-Filled :
      (rs : List RuleSpec) (b b' : Builders m) (cs xs ys : List Entry)
      → Filled b cs xs ys
      → add_rules m rs b ≡ ok b'
      → Filled b'
          (cs ++ command_entries rs)
          (xs ++ path_entries PathScope.any rs)
          (ys ++ path_entries PathScope.modify rs)
  unfolding add_rules command_entries path_entries
  add_rules-Filled [] b b' cs xs ys h e = simp append-nil (rw (ok_injective (sym e)) h)
  add_rules-Filled (rule ∷ rs) b b' cs xs ys h e =
      let (b₁, filled, e') = >>=-ok_inv (add_paths m rule _ _) _ e in
      rw (← append_assoc cs, ← append_assoc xs, ← append_assoc ys)
        (add_rules-Filled rs b₁ b' _ _ _
          (add_paths-Filled rule _ _ b₁ _ xs ys
            (add_commands-Filled (owner_of rule) rule.command_patterns b cs xs ys h) filled)
          e')

  -- What the compiled table holds: the sets built of exactly the patterns of the rules, and the
  -- owner of each pattern at the pattern's index.
  pub record IsBuilt (c : Compiled m) : Type 0 where
    pub any_list : List m.Glob
    pub any_lem : Globs any_list (path_entries PathScope.any rules)
    pub any_set : m.glob_set_build any_list ≡ ok c.any_globs
    pub any_owners_lem : c.any_owners ≡ owners (path_entries PathScope.any rules)
    pub modify_list : List m.Glob
    pub modify_lem : Globs modify_list (path_entries PathScope.modify rules)
    pub modify_set : m.glob_set_build modify_list ≡ ok c.modify_globs
    pub modify_owners_lem : c.modify_owners ≡ owners (path_entries PathScope.modify rules)
    pub command_set_lem : m.regex_set_new (patterns (command_entries rules)) ≡ ok c.command_set
    pub command_owners_lem : c.command_owners ≡ owners (command_entries rules)

  finish-IsBuilt :
      (b : Builders m) (c : Compiled m)
      → Filled b
          (command_entries rules)
          (path_entries PathScope.any rules)
          (path_entries PathScope.modify rules)
      → finish m b ≡ ok c
      → IsBuilt c
  unfolding finish
  finish-IsBuilt b c h e =
      let (cset, ce, e₁) =
        >>=-ok_inv (map_err command_regex (m.regex_set_new b.command_patterns)) _ e in
      let (aset, ae, e₂) = >>=-ok_inv (map_err any_globset (m.glob_set_build b.any_builder)) _ e₁ in
      let (mset, me, e₃) =
        >>=-ok_inv (map_err modify_globset (m.glob_set_build b.modify_builder)) _ e₂ in
      rw (ok_injective (sym e₃)) (record {
        any_list = b.any_builder;
        any_lem = h.any_lem;
        any_set = map_err-eq-ok _ _ ae;
        any_owners_lem = h.any_owners_lem;
        modify_list = b.modify_builder;
        modify_lem = h.modify_lem;
        modify_set = map_err-eq-ok _ _ me;
        modify_owners_lem = h.modify_owners_lem;
        command_set_lem = rw (← h.patterns_lem) (map_err-eq-ok _ _ ce);
        command_owners_lem = h.command_owners_lem;
      })

  pub build-IsBuilt : (c : Compiled m) → build m ≡ ok c → IsBuilt c
  unfolding build
  build-IsBuilt c e =
      let (b, filled, e') = >>=-ok_inv (add_rules m rules (empty_builders m)) _ e in
      finish-IsBuilt b c
        (add_rules-Filled rules (empty_builders m) b [] [] []
          (record {
            patterns_lem = refl;
            command_owners_lem = refl;
            any_lem = tt;
            any_owners_lem = refl;
            modify_lem = tt;
            modify_owners_lem = refl;
          })
          filled)
        e'
