-- ===== src/Policy/Pathnorm/Evasion.antt =====
-- The spellings of one path that normalisation identifies.
use archangel.Common.{◌≡◌, refl, ◌∙◌, true, ◌||◌, List, [], ◌∷◌, ◌++◌}
use archangel.Common.Text.{Str, str, str_eq, contains, split, split_where}
use archangel.Common.Text.Split.{Lacks, contains-append, split-append, split_of_Lacks}
use archangel.Policy.Pathnorm.{is_absolute, step, walk, normalize_absolute}
use archangel.Policy.Pathnorm.Canonical.{IsComponent, step_of_IsComponent}

-- A stretch of a path, between two slashes, that leads back to where it began: nothing at all (so
-- that the slash is doubled), a dot, a component that is left again by "..", with a detour in
-- between or none, and one detour after another.
pub data Detour : Str → Type 0 where
  double : Detour (str "")
  dot : Detour (str ".")
  back : (c : Str) → IsComponent c → Detour (c ++ str "/..")
  around : (c : Str) {m : Str} → IsComponent c → Detour m → Detour (c ++ b'/' ∷ (m ++ str "/.."))
  join : {m n : Str} → Detour m → Detour n → Detour (m ++ b'/' ∷ n)

pub walk-append : (stack xs ys : List Str) → walk stack (xs ++ ys) ≡ walk (walk stack xs) ys
unfolding walk
walk-append stack [] ys = refl
walk-append stack (x ∷ xs) ys = walk-append (step stack x) xs ys

-- A walk that starts by a component comes back from it by "..".
walk-back : (stack : List Str) (c : Str) → walk (c ∷ stack) (split b'/' (str "..")) ≡ stack
unfolding walk step split_where str_eq
walk-back stack c = refl

walk_component :
    (stack : List Str) (c : Str) → IsComponent c → walk stack (split b'/' c) ≡ c ∷ stack
unfolding walk
walk_component stack c h = rw (split_of_Lacks b'/' c h.no_slash) (step_of_IsComponent stack c h)

walk-detour : {m : Str} (stack : List Str) → Detour m → walk stack (split b'/' m) ≡ stack
walk-detour stack double = unfold walk step split_where str_eq in refl
walk-detour stack dot = unfold walk step split_where str_eq in refl
walk-detour stack (back c h) =
    rw (split-append b'/' c (str ".."), walk-append, walk_component stack c h) (walk-back stack c)
walk-detour stack (around c {m} h d) =
    rw
      (
        split-append b'/' c (m ++ str "/.."),
        walk-append,
        walk_component stack c h,
        split-append b'/' m (str ".."),
        walk-append,
        walk-detour (c ∷ stack) d,
      )
      (walk-back stack c)
walk-detour stack (join {m} {n} d e) =
    rw (split-append b'/' m n, walk-append, walk-detour stack d) (walk-detour stack e)

is_absolute-detour :
    (a m b : Str)
    → is_absolute (a ++ b'/' ∷ b) ≡ true
    → is_absolute (a ++ b'/' ∷ (m ++ b'/' ∷ b)) ≡ true
is_absolute-detour [] m b h = refl
is_absolute-detour (c ∷ a) m b h = h

contains-sep : (s t : Str) → contains (s ++ b'/' ∷ t) 0 ≡ (contains s 0 || contains t 0)
contains-sep s t = contains-append s (b'/' ∷ t) 0 ∙ (unfold contains in refl)

Detour-Lacks_nul : {m : Str} → Detour m → Lacks 0 m
Detour-Lacks_nul double = unfold contains in refl
Detour-Lacks_nul dot = unfold contains in refl
Detour-Lacks_nul (back c h) = rw (contains-sep c (str ".."), h.no_nul) (unfold contains in refl)
Detour-Lacks_nul (around c {m} h d) =
    rw (contains-sep c (m ++ str "/.."), h.no_nul, contains-sep m (str ".."), Detour-Lacks_nul d)
      (unfold contains in refl)
Detour-Lacks_nul (join {m} {n} d e) = rw (contains-sep m n, Detour-Lacks_nul d) (Detour-Lacks_nul e)

contains-detour :
    (a m b : Str) → Detour m → contains (a ++ b'/' ∷ (m ++ b'/' ∷ b)) 0 ≡ contains (a ++ b'/' ∷ b) 0
contains-detour a m b d =
    rw (contains-sep a (m ++ b'/' ∷ b), contains-sep m b, Detour-Lacks_nul d, contains-sep a b)

parts-detour :
    (a m b : Str)
    → Detour m
    → walk [] (split b'/' (a ++ b'/' ∷ (m ++ b'/' ∷ b))) ≡ walk [] (split b'/' (a ++ b'/' ∷ b))
parts-detour a m b d = rw (
  split-append b'/' a (m ++ b'/' ∷ b),
  split-append b'/' m b,
  split-append b'/' a b,
  walk-append [] (split b'/' a) (split b'/' m ++ split b'/' b),
  walk-append (walk [] (split b'/' a)) (split b'/' m) (split b'/' b),
  walk-detour (walk [] (split b'/' a)) d,
  walk-append [] (split b'/' a) (split b'/' b),
)

-- A detour between two slashes of an absolute path changes nothing: the two spellings have one
-- normal form, or both are refused for a NUL.
pub normalize_absolute-detour :
    (a m b : Str)
    → Detour m
    → is_absolute (a ++ b'/' ∷ b) ≡ true
    → normalize_absolute (a ++ b'/' ∷ (m ++ b'/' ∷ b)) ≡ normalize_absolute (a ++ b'/' ∷ b)
unfolding normalize_absolute
normalize_absolute-detour a m b d h =
    rw (is_absolute-detour a m b h, h, contains-detour a m b d, parts-detour a m b d)
