-- ===== src/Policy/Pathnorm/Canonical.antt =====
-- The result of a normalisation is canonical, and normalising it again changes nothing.
use mathlib.Core.List.{reverse, reverse-cons, append_assoc, append-nil, tail, reverse-reverse}
use archangel.Common.{◌≡◌, ◌≢◌, refl, sym, true, ap, ◌∙◌, List, [], ◌∷◌, ◌++◌, arith, ok, All}
use archangel.Common.Text.{Str, str, str_eq, str_eq_iff, contains, split, split_where}
use archangel.Common.Text.Split.{
  Lacks, contains-append, split-Lacks_sep, split-Lacks, split-append, split_of_Lacks, All-reverse,
}
use archangel.Policy.Pathnorm.{is_absolute, step, walk, render, render_stack, normalize_absolute}

-- What a component of a canonical path is: not empty, not a dot, not two, no slash and no NUL.
pub record IsComponent (c : Str) : Type 0 where
  pub nonempty : c ≢ str ""
  pub not_dot : c ≢ str "."
  pub not_up : c ≢ str ".."
  pub no_slash : Lacks b'/' c
  pub no_nul : Lacks 0 c

-- The path with these components; the root has none.
abbrev pub path_of : List Str → Str
path_of [] = b'/' ∷ []
path_of (c ∷ cs) = render (c ∷ cs)

abbrev pub IsCanonical : Str → Type 0
IsCanonical p = (cs : List Str) × All IsComponent cs × (p ≡ path_of cs)

abbrev IsClean : Str → Type 0
IsClean c = Lacks b'/' c × Lacks 0 c

IsClean-parts : (cs : List Str) → All (Lacks b'/') cs → All (Lacks 0) cs → All IsClean cs
IsClean-parts [] h k = tt
IsClean-parts (c ∷ cs) h k = ((h.0, k.0), IsClean-parts cs h.1 k.1)

tail-All : (P : Str → Type 0) (xs : List Str) → All P xs → All P (tail xs)
tail-All P [] h = tt
tail-All P (x ∷ xs) h = h.1

step-IsComponent :
    (stack : List Str) (c : Str)
    → All IsComponent stack
    → IsClean c
    → All IsComponent (step stack c)
unfolding step
step-IsComponent stack c h k = ground (
  arith,
  str_eq_iff c (str ""),
  str_eq_iff c (str "."),
  str_eq_iff c (str ".."),
  tail-All IsComponent stack h,
)

walk-IsComponent :
    (stack cs : List Str) → All IsComponent stack → All IsClean cs → All IsComponent (walk stack cs)
unfolding walk
walk-IsComponent stack [] h k = h
walk-IsComponent stack (c ∷ cs) h k =
    walk-IsComponent (step stack c) cs (step-IsComponent stack c h k.0) k.1

path_of-concat : (xs : List Str) (c : Str) → path_of (xs ++ c ∷ []) ≡ render (xs ++ c ∷ [])
path_of-concat [] c = refl
path_of-concat (x ∷ xs) c = refl

render_stack-eq : (stack : List Str) → render_stack stack ≡ path_of (reverse stack)
render_stack-eq [] = refl
render_stack-eq (c ∷ stack) = rw reverse-cons (sym (path_of-concat (reverse stack) c))

All-reverse_stack : (stack : List Str) → All IsComponent stack → All IsComponent (reverse stack)
All-reverse_stack stack h = All-reverse IsComponent stack h

-- What a successful normalisation has tested, and its result.
pub normalize_absolute_inv :
    (p q : Str)
    → normalize_absolute p ≡ ok q
    → (is_absolute p ≡ true) × Lacks 0 p × (q ≡ render_stack (walk [] (split b'/' p)))
unfolding normalize_absolute
normalize_absolute_inv p q h = ground arith

-- Whatever the spelling, a normalised path is canonical: "/", or components each behind one slash,
-- none of them empty, "." or "..", and none with a slash or a NUL inside.
pub normalize_absolute-IsCanonical : (p q : Str) → normalize_absolute p ≡ ok q → IsCanonical q
normalize_absolute-IsCanonical p q h =
    let (_, no_nul, e) = normalize_absolute_inv p q h in
    let stack = walk [] (split b'/' p) in
    let clean =
      IsClean-parts (split b'/' p) (split-Lacks_sep b'/' p) (split-Lacks b'/' 0 p no_nul) in
    (
      reverse stack,
      All-reverse_stack stack (walk-IsComponent [] (split b'/' p) tt clean),
      e ∙ render_stack-eq stack,
    )

pub step_of_IsComponent : (stack : List Str) (c : Str) → IsComponent c → step stack c ≡ c ∷ stack
unfolding step
step_of_IsComponent stack c h =
    ground (arith, str_eq_iff c (str ""), str_eq_iff c (str "."), str_eq_iff c (str ".."))

walk_of_IsComponent :
    (stack cs : List Str) → All IsComponent cs → walk stack cs ≡ reverse cs ++ stack
unfolding walk
walk_of_IsComponent stack [] h = refl
walk_of_IsComponent stack (c ∷ cs) h = rw (
  step_of_IsComponent stack c h.0,
  walk_of_IsComponent (c ∷ stack) cs h.1,
  reverse-cons,
  append_assoc,
)

split-render :
    (c : Str) (cs : List Str)
    → IsComponent c
    → All IsComponent cs
    → split b'/' (c ++ render cs) ≡ c ∷ cs
unfolding render
split-render c [] h k = rw append-nil (split_of_Lacks b'/' c h.no_slash)
split-render c (d ∷ cs) h k = rw (
  split-append b'/' c (d ++ render cs),
  split_of_Lacks b'/' c h.no_slash,
  split-render d cs k.0 k.1,
)

render-Lacks_nul : (cs : List Str) → All IsComponent cs → Lacks 0 (render cs)
unfolding render contains
render-Lacks_nul [] h = refl
render-Lacks_nul (c ∷ cs) h =
    rw (contains-append c (render cs) 0, h.0.no_nul, render-Lacks_nul cs h.1)

walk-render :
    (c : Str) (cs : List Str)
    → All IsComponent (c ∷ cs)
    → walk [] (split b'/' (render (c ∷ cs))) ≡ reverse (c ∷ cs)
unfolding render split_where walk step str_eq
walk-render c cs h =
    rw (split-render c cs h.0 h.1)
      (walk_of_IsComponent [] (c ∷ cs) h ∙ append-nil (reverse (c ∷ cs)))

pub normalize_absolute_of :
    (p : Str)
    → is_absolute p ≡ true
    → Lacks 0 p
    → normalize_absolute p ≡ ok (render_stack (walk [] (split b'/' p)))
unfolding normalize_absolute
normalize_absolute_of p a n = ground arith

normalize_absolute-path_of :
    (cs : List Str) → All IsComponent cs → normalize_absolute (path_of cs) ≡ ok (path_of cs)
unfolding normalize_absolute contains split_where str_eq
normalize_absolute-path_of [] h = refl
normalize_absolute-path_of (c ∷ cs) h =
    normalize_absolute_of (render (c ∷ cs)) (unfold render in refl) (render-Lacks_nul (c ∷ cs) h)
    ∙ ap ok (
        ap render_stack (walk-render c cs h)
        ∙ render_stack-eq (reverse (c ∷ cs))
        ∙ ap path_of (reverse-reverse (c ∷ cs)))

-- A path that is normalised already is left as it is, so that normalising twice is normalising once.
pub normalize_absolute_idempotent :
    (p q : Str) → normalize_absolute p ≡ ok q → normalize_absolute q ≡ ok q
normalize_absolute_idempotent p q h =
    let (cs, good, e) = normalize_absolute-IsCanonical p q h in
    rw e (normalize_absolute-path_of cs good)
