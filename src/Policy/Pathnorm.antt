-- ===== src/Policy/Pathnorm.antt =====
-- crates/archangel-policy/src/pathnorm.rs: lexical normalisation of absolute paths, and the error
-- type of the crate (error.rs). The text of a message is kept as the constructor that produces it.
pub mod Canonical
pub mod Evasion
use archangel.Common.{
  ℕ, ◌≡◌, refl, Bool, true, false, ◌||◌, not, List, [], ◌∷◌, ◌++◌, ◌==◌, if◌then◌else◌, Result, ok,
  err, head?, Option, some, none,
}
use mathlib.Core.List.{reverse, tail}
use archangel.Common.Text.{Str, str, str_eq, contains, split, split_where}

pub data BadPath : Type 0 where
  not_absolute : Str → BadPath
  embedded_nul : BadPath

pub data PolicyError : Type 0 where
  io : Str → PolicyError
  allowlist_parse : Str → PolicyError
  bad_path : BadPath → PolicyError

-- One component against the stack of the components kept, its top at the head.
unfoldable pub step : List Str → Str → List Str
step stack component =
    if str_eq component (str "") || str_eq component (str ".")
    then stack
    else if str_eq component (str "..")
    then tail stack
    else component ∷ stack

unfoldable pub walk : List Str → List Str → List Str
unfolding step
walk stack [] = stack
walk stack (c ∷ cs) = walk (step stack c) cs

-- The loop that writes the components out, each behind a slash.
unfoldable pub render : List Str → Str
render [] = []
render (c ∷ cs) = b'/' ∷ c ++ render cs

abbrev pub render_stack : List Str → Str
render_stack [] = b'/' ∷ []
render_stack (c ∷ stack) = render (reverse (c ∷ stack))

abbrev pub is_absolute : Str → Bool
is_absolute [] = false
is_absolute (c ∷ _) = c == b'/'

unfoldable pub normalize_absolute : Str → Result Str PolicyError
unfolding walk render
normalize_absolute path =
    if not (is_absolute path)
    then err (bad_path (not_absolute path))
    else if contains path 0
    then err (bad_path embedded_nul)
    else ok (render_stack (walk [] (split b'/' path)))
