-- ===== src/Policy/Denylist/Commands.antt =====
-- crates/archangel-policy/src/denylist.rs: `check_command` against the rule table.
use mathlib.Core.List.{append-nil}
use archangel.Common.{
  ℕ, suc, ◌≡◌, refl, sym, ap, ◌∙◌, ◌↔◌, ◌⊎◌, inl, inr, true, Option, none, some, List, [], ◌∷◌,
  ◌++◌, ok, err, get_elem?, map_option, and_then, head?, Any, All, Option-cases, Result-cases,
  get_elem?-map, map_option-some, map_option-none, Any-map,
}
use archangel.Common.Text.{Str, str, drop_empty, split_whitespace, is_whitespace, join}
use archangel.Common.Text.Split.{split_where-append}
use archangel.Policy.Denylist.{
  PathScope, Owner, rules, Matchers, IsLawful, BuildError, DenyMatch, not_built, owner_matched,
  fail_closed, Compiled, build, normalize_command, command_match, check_command,
}
use archangel.Policy.Denylist.Build.{
  Entry, command_entries, path_entries, Globs, patterns, owners, IsBuilt, build-IsBuilt,
  head_owner-none, head_owner-some,
}

-- A text of whitespace alone.
abbrev pub IsBlank : Str → Type 0
IsBlank = All (λ c. is_whitespace c ≡ true)

drop_empty-append : (xs ys : List Str) → drop_empty (xs ++ ys) ≡ drop_empty xs ++ drop_empty ys
drop_empty-append [] ys = refl
drop_empty-append ([] ∷ xs) ys = drop_empty-append xs ys
drop_empty-append ((c ∷ x) ∷ xs) ys = ap (λ l. (c ∷ x) ∷ l) (drop_empty-append xs ys)

split_whitespace-append :
    (a : Str) (w : ℕ) (b : Str)
    → is_whitespace w ≡ true
    → split_whitespace (a ++ w ∷ b) ≡ split_whitespace a ++ split_whitespace b
unfolding split_whitespace
split_whitespace-append a w b h = rw (split_where-append is_whitespace a w b h, drop_empty-append)

split_whitespace-nil : split_whitespace [] ≡ []
unfolding split_whitespace
split_whitespace-nil = refl

split_whitespace-blank : (r b : Str) → IsBlank r → split_whitespace (r ++ b) ≡ split_whitespace b
split_whitespace-blank [] b h = refl
split_whitespace-blank (w ∷ r) b h =
    rw (split_whitespace-append [] w (r ++ b) h.0, split_whitespace-nil)
      (split_whitespace-blank r b h.1)

-- The words of a text are those before a run of whitespace, then those behind it.
split_whitespace_run :
    (a : Str) (w : ℕ) (r b : Str)
    → IsBlank (w ∷ r)
    → split_whitespace (a ++ (w ∷ (r ++ b))) ≡ split_whitespace a ++ split_whitespace b
split_whitespace_run a w r b h =
    split_whitespace-append a w (r ++ b) h.0
    ∙ ap (λ l. split_whitespace a ++ l) (split_whitespace-blank r b h.1)

split_whitespace_end :
    (a : Str) (w : ℕ) (r : Str)
    → IsBlank (w ∷ r)
    → split_whitespace (a ++ (w ∷ r)) ≡ split_whitespace a
split_whitespace_end a w r h =
    split_whitespace-append a w r h.0
    ∙ ap (λ l. split_whitespace a ++ l)
        (ap split_whitespace (sym (append-nil r))
          ∙ split_whitespace-blank r [] h.1
          ∙ split_whitespace-nil)
    ∙ append-nil (split_whitespace a)

module _ (m : Matchers) where
  -- Any run of whitespace in a command, of Unicode's and not only of ASCII's, counts as one space, and
  -- one before or behind the command as none, so that spacing changes no verdict.
  pub check_command-whitespace :
      (a : Str) (w : ℕ) (r b : Str)
      → IsBlank (w ∷ r)
      → (check_command m (a ++ (w ∷ (r ++ b))) ≡ check_command m (a ++ (b' ' ∷ b)))
        × (check_command m (w ∷ (r ++ b)) ≡ check_command m b)
        × (check_command m (a ++ (w ∷ r)) ≡ check_command m a)
  unfolding check_command normalize_command
  check_command-whitespace a w r b h = (
    ap verdict (
        split_whitespace_run a w r b h
        ∙ sym (split_whitespace-append a b' ' b (unfold is_whitespace in refl))),
    ap verdict (split_whitespace-blank (w ∷ r) b h),
    ap verdict (split_whitespace_end a w r h),
  )
    where
      verdict : List Str → Option DenyMatch
      verdict ws = command_match m (join (str " ") ws) (build m)

  -- The pattern of the entry matches the text.
  abbrev pub Matches : Str → Entry → Type 0
  Matches text e = m.regex_is_match e.0 text ≡ true

  get-entry :
      (es : List Entry) (i : ℕ) {p : Str}
      → get_elem? (patterns es) i ≡ some p
      → (e : Entry) × (get_elem? es i ≡ some e) × (e.0 ≡ p)
  get-entry es i h =
      map_option-some (λ e. e.0) (get_elem? es i) (sym (get_elem?-map (λ e. e.0) es i) ∙ h)

  index_of_Matches :
      (text : Str) (es : List Entry)
      → Any (Matches text) es
      → (i : ℕ) × (p : Str) × (get_elem? (patterns es) i ≡ some p)
        × (m.regex_is_match p text ≡ true)
  index_of_Matches text [] a = absurd a
  index_of_Matches text (e ∷ es) (inl h) = (0, e.0, refl, h)
  index_of_Matches text (e ∷ es) (inr a) =
      let (i, p, at, h) = index_of_Matches text es a in (suc i, p, at, h)

  abbrev IsBadGlob : Entry → Type 0
  IsBadGlob e = (why : Str) × (m.glob_build e.0 ≡ err why)

  -- The command patterns are refused as a set, or the pattern of a path is refused as a glob.
  abbrev pub IsRefused : Type 0
  IsRefused =
      ((why : Str) × (m.regex_set_new (patterns (command_entries rules)) ≡ err why))
      ⊎ Any IsBadGlob (path_entries PathScope.any rules)
      ⊎ Any IsBadGlob (path_entries PathScope.modify rules)

  Globs-good : (gs : List m.Glob) (es : List Entry) → Globs m gs es → ¬ Any IsBadGlob es
  Globs-good [] [] h a = a
  Globs-good [] (e ∷ es) h a = h
  Globs-good (g ∷ gs) [] h a = h
  Globs-good (g ∷ gs) (e ∷ es) h (inl (why, bad)) = cc (h.0, bad)
  Globs-good (g ∷ gs) (e ∷ es) h (inr a) = Globs-good gs es h.1 a

  IsBuilt-good : (c : Compiled m) → IsBuilt m c → ¬ IsRefused
  IsBuilt-good c b (inl (why, bad)) = cc (b.command_set_lem, bad)
  IsBuilt-good c b (inr (inl a)) = Globs-good b.any_list _ b.any_lem a
  IsBuilt-good c b (inr (inr a)) = Globs-good b.modify_list _ b.modify_lem a

  -- If the command patterns of the table are refused, or one of its path patterns is, then every
  -- command is denied, with the match that says that the table did not compile.
  pub check_command-fail_closed :
      (s : Str)
      → IsRefused
      → (why : BuildError) × (check_command m s
          ≡ some (fail_closed (normalize_command m s) (not_built why)))
  unfolding check_command
  check_command-fail_closed s bad = elim (Result-cases (build m)) [
    | inl (c, e) ↦ absurd (IsBuilt-good c (build-IsBuilt m c e) bad)
    | inr (why, e) ↦ (why, rw e)
  ]

module _ (m : Matchers) (lawful : IsLawful m) (c : Compiled m) (b : IsBuilt m c) (text : Str) where
  first_owner : Option Owner
  first_owner =
      and_then (head? (m.regex_set_matches c.command_set text))
        (get_elem? (owners (command_entries rules)))

  reported_entry :
      (i : ℕ)
      → Any (λ j. j ≡ i) (m.regex_set_matches c.command_set text)
      → (e : Entry) × (get_elem? (command_entries rules) i ≡ some e) × Matches m text e
  reported_entry i a =
      let (p, at, hit) = (lawful.regex_set_lem _ c.command_set b.command_set_lem text i).0 a in
      let (e, there, same) = get-entry m (command_entries rules) i at in (e, there, rw same hit)

  first_owner-none : first_owner ≡ none → ¬ Any (Matches m text) (command_entries rules)
  unfolding first_owner
  first_owner-none h a =
      let (i, p, at, hit) = index_of_Matches m text _ a in
      head_owner-none (Matches m text) (command_entries rules) _ reported_entry h i
        ((lawful.regex_set_lem _ c.command_set b.command_set_lem text i).1 (p, at, hit))

  command_match-eq :
      command_match m text (ok c) ≡ map_option (λ o. owner_matched o text) first_owner
  unfolding first_owner
  command_match-eq = rw b.command_owners_lem

  first_owner-some :
      (o : Owner)
      → first_owner ≡ some o
      → Any (λ e. Matches m text e × (e.1 ≡ o)) (command_entries rules)
  unfolding first_owner
  first_owner-some o h =
      head_owner-some (Matches m text) (command_entries rules) _ o reported_entry h

  pub command_match-none :
      command_match m text (ok c) ≡ none → ¬ Any (Matches m text) (command_entries rules)
  command_match-none h = first_owner-none (map_option-none _ first_owner (sym command_match-eq ∙ h))

  pub command_match-some :
      (d : DenyMatch)
      → command_match m text (ok c) ≡ some d
      → Any (λ e. Matches m text e × (d ≡ owner_matched e.1 text)) (command_entries rules)
  command_match-some d h =
      let (o, found, same) = map_option-some _ first_owner (sym command_match-eq ∙ h) in
      Any-map (λ e k. (k.0, sym same ∙ ap (λ o. owner_matched o text) (sym k.1)))
        (command_entries rules) (first_owner-some o found)

module _ (m : Matchers) (lawful : IsLawful m) where
  -- A command passes exactly when the table compiles and no pattern of the table matches the
  -- command with its whitespace normalised.
  pub check_command-none_iff :
      (s : Str)
      → (check_command m s ≡ none) ↔ (
          (c : Compiled m) × (build m ≡ ok c)
          × ¬ Any (Matches m (normalize_command m s)) (command_entries rules))
  unfolding check_command
  check_command-none_iff s = (to, from)
    where
      text : Str
      text = normalize_command m s

      to :
          check_command m s ≡ none
          → (c : Compiled m) × (build m ≡ ok c) × ¬ Any (Matches m text) (command_entries rules)
      to h = elim (Result-cases (build m)) [
        | inr (why, e) ↦ absurd (cc (rw e at h))
        | inl (c, e) ↦ (c, e, command_match-none m lawful c (build-IsBuilt m c e) text (rw e at h))
      ]

      from :
          (c : Compiled m) × (build m ≡ ok c) × ¬ Any (Matches m text) (command_entries rules)
          → check_command m s ≡ none
      from (c, e, free) = elim (Option-cases (command_match m text (ok c))) [
        | inl k ↦ rw e k
        | inr (d, k) ↦ absurd (
            free (
              Any-map (λ e h. h.0) (command_entries rules)
                (command_match-some m lawful c (build-IsBuilt m c e) text d k)))
      ]

  -- A denial of a command, by a table that compiles, names a rule that has a pattern that matches
  -- the command with its whitespace normalised.
  pub check_command-some :
      (s : Str) (c : Compiled m) (d : DenyMatch)
      → build m ≡ ok c
      → check_command m s ≡ some d
      → Any
          (λ e.
            Matches m (normalize_command m s) e × (d ≡ owner_matched e.1 (normalize_command m s)))
          (command_entries rules)
  unfolding check_command
  check_command-some s c d e h =
      command_match-some m lawful c (build-IsBuilt m c e) (normalize_command m s) d (rw e at h)
