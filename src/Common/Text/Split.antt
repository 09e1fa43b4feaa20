-- ===== src/Common/Text/Split.antt =====
-- Laws of `contains`, `split` and concatenation.
use mathlib.Core.List.{reverse, reverse-cons, List, [], ◌∷◌, ◌++◌}
use mathlib.Core.Path.{◌≡◌, refl}
use mathlib.Core.Logic.{inl, inr}
use mathlib.Core.Bool.{Bool, true, false, ◌||◌}
use native.Mathlib.Omega.{arith}
use archangel.Common.Tests.{ℕ_self, Bool-cases, ◌==◌}
use archangel.Common.Lists.{All, All-append}
use archangel.Common.Text.{contains, split_where, split, push_head}
use Prim.Native.Nat.{ℕ}

-- The character does not stand in the text.
abbrev pub Lacks : ℕ → List ℕ → Type 0
Lacks c s = contains s c ≡ false

pub contains-append : (s t : List ℕ) (c : ℕ) → contains (s ++ t) c ≡ (contains s c || contains t c)
unfolding contains
contains-append [] t c = refl
contains-append (d ∷ s) t c = ground (arith, contains-append s t c)

All-push_head :
    (P : List ℕ → Type 0) (c : ℕ) (ps : List (List ℕ))
    → ((p : List ℕ) → P p → P (c ∷ p))
    → P []
    → All P ps
    → All P (push_head c ps)
All-push_head P c [] keep e h = (keep [] e, tt)
All-push_head P c (p ∷ ps) keep e h = (keep p h.0, h.1)

Lacks-cons : (c d : ℕ) (p : List ℕ) → (d == c) ≡ false → Lacks c p → Lacks c (d ∷ p)
unfolding contains
Lacks-cons c d p h k = ground arith

pub Lacks-head : (c d : ℕ) (p : List ℕ) → Lacks c (d ∷ p) → (d == c) ≡ false
unfolding contains
Lacks-head c d p h = ground arith

pub Lacks-tail : (c d : ℕ) (p : List ℕ) → Lacks c (d ∷ p) → Lacks c p
unfolding contains
Lacks-tail c d p h = ground arith

Lacks-nil : (c : ℕ) → Lacks c []
unfolding contains
Lacks-nil c = refl

-- No part holds the separator.
pub split-Lacks_sep : (sep : ℕ) (s : List ℕ) → All (Lacks sep) (split sep s)
unfolding split_where
split-Lacks_sep sep [] = (Lacks-nil sep, tt)
split-Lacks_sep sep (c ∷ s) = elim (Bool-cases (c == sep)) [
  | inl e ↦ rw e (Lacks-nil sep, split-Lacks_sep sep s)
  | inr e ↦ rw e (
      All-push_head (Lacks sep) c (split sep s) (λ p. Lacks-cons sep c p e) (Lacks-nil sep)
        (split-Lacks_sep sep s))
]

-- A character that the text lacks, every part lacks.
pub split-Lacks : (sep d : ℕ) (s : List ℕ) → Lacks d s → All (Lacks d) (split sep s)
unfolding split_where
split-Lacks sep d [] h = (Lacks-nil d, tt)
split-Lacks sep d (c ∷ s) h = elim (Bool-cases (c == sep)) [
  | inl e ↦ rw e (Lacks-nil d, split-Lacks sep d s (Lacks-tail d c s h))
  | inr e ↦ rw e (
      All-push_head (Lacks d) c (split sep s) (λ p. Lacks-cons d c p (Lacks-head d c s h))
        (Lacks-nil d) (split-Lacks sep d s (Lacks-tail d c s h)))
]

pub split_where-cons :
    (f : ℕ → Bool) (s : List ℕ) → (p : List ℕ) × (ps : List (List ℕ)) × (split_where f s ≡ p ∷ ps)
unfolding split_where
split_where-cons f [] = ([], [], refl)
split_where-cons f (c ∷ s) = elim (Bool-cases (f c)) [
  | inl e ↦ ([], split_where f s, rw e)
  | inr e ↦ let (p, ps, q) = split_where-cons f s in (c ∷ p, ps, rw (e, q))
]

-- The parts of a text are those before a separator, then those behind it.
pub split_where-append :
    (f : ℕ → Bool) (s : List ℕ) (c : ℕ) (t : List ℕ)
    → f c ≡ true
    → split_where f (s ++ c ∷ t) ≡ split_where f s ++ split_where f t
unfolding split_where
split_where-append f [] c t h = rw h
split_where-append f (d ∷ s) c t h = elim (Bool-cases (f d)) [
  | inl e ↦ rw (e, split_where-append f s c t h)
  | inr e ↦ let (p, ps, q) = split_where-cons f s in rw (e, split_where-append f s c t h, q)
]

pub split-append : (sep : ℕ) (s t : List ℕ) → split sep (s ++ sep ∷ t) ≡ split sep s ++ split sep t
split-append sep s t = split_where-append (λ c. c == sep) s sep t (ℕ_self sep)

-- A text without the separator is its only part.
pub split_of_Lacks : (sep : ℕ) (s : List ℕ) → Lacks sep s → split sep s ≡ s ∷ []
unfolding split_where
split_of_Lacks sep [] h = refl
split_of_Lacks sep (c ∷ s) h =
    rw (Lacks-head sep c s h, split_of_Lacks sep s (Lacks-tail sep c s h))

pub All-reverse : {A : Type 0} (P : A → Type 0) (xs : List A) → All P xs → All P (reverse xs)
All-reverse P [] h = tt
All-reverse P (x ∷ xs) h =
    rw reverse-cons (All-append P (reverse xs) (x ∷ []) (All-reverse P xs h.1) (h.0, tt))
