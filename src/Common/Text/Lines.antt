-- ===== src/Common/Text/Lines.antt =====
-- The lines of a text, and the text of lines.
use mathlib.Core.List.{reverse, reverse-cons, List, [], ◌∷◌, ◌++◌, append_assoc}
use mathlib.Core.Path.{◌≡◌, refl, sym, ap, ◌∙◌}
use mathlib.Core.Logic.{inl, inr}
use mathlib.Core.Bool.{Bool, true, false}
use native.Mathlib.Omega.{arith}
use archangel.Common.Tests.{Bool-cases, ◌==◌, if◌then◌else◌}
use archangel.Common.Lists.{All}
use archangel.Common.Text.{is_whitespace, trim_start, trim, Str, contains, split_where, split}
use archangel.Common.Text.Split.{Lacks, split-append, split_of_Lacks, split_where-cons}
use Prim.Native.Nat.{ℕ, ◌≤◌}

-- A carriage return at the end is left out.
abbrev pub strip_cr : Str → Str
strip_cr [] = []
strip_cr (c ∷ []) = if c == 13 then [] else c ∷ []
strip_cr (c ∷ d ∷ s) = c ∷ strip_cr (d ∷ s)

-- `str::is_empty`
abbrev pub is_empty : Str → Bool
is_empty [] = true
is_empty (c ∷ s) = false

-- `BufRead::lines` and `str::lines`: up to each newline, a carriage return before it left out. What
-- stands behind the last newline is a line as it is, when it is not empty.
abbrev pub lines_of_parts : List Str → List Str
lines_of_parts [] = []
lines_of_parts (p ∷ []) = if is_empty p then [] else p ∷ []
lines_of_parts (p ∷ q ∷ ps) = strip_cr p ∷ lines_of_parts (q ∷ ps)

unfoldable pub lines : Str → List Str
unfolding split_where
lines s = lines_of_parts (split 10 s)

-- Each line with its newline.
unfoldable pub text_of : List Str → Str
text_of [] = []
text_of (l ∷ ls) = l ++ 10 ∷ text_of ls

-- No control character.
unfoldable pub IsPrintable : Str → Type 0
IsPrintable s = All (λ c. 32 ≤ c) s

IsPrintable-Lacks : (l : Str) → IsPrintable l → Lacks 10 l
unfolding IsPrintable contains
IsPrintable-Lacks [] h = refl
IsPrintable-Lacks (c ∷ l) h = ground (arith, h.0, IsPrintable-Lacks l h.1)

split-line : (l s : Str) → IsPrintable l → split 10 (l ++ 10 ∷ s) ≡ l ∷ split 10 s
split-line l s h =
    split-append 10 l s ∙ ap (λ ps. ps ++ split 10 s) (split_of_Lacks 10 l (IsPrintable-Lacks l h))

strip_cr-IsPrintable : (l : Str) → IsPrintable l → strip_cr l ≡ l
unfolding IsPrintable
strip_cr-IsPrintable [] h = refl
strip_cr-IsPrintable (c ∷ []) h = ground (arith, h.0)
strip_cr-IsPrintable (c ∷ d ∷ s) h = ap (λ r. c ∷ r) (strip_cr-IsPrintable (d ∷ s) h.1)

lines-line : (l s : Str) → IsPrintable l → lines (l ++ 10 ∷ s) ≡ l ∷ lines s
unfolding lines
lines-line l s h =
    let (q, qs, parts) = split_where-cons (λ c. c == 10) s in
    rw (split-line l s h, parts) (ap (λ k. k ∷ lines_of_parts (q ∷ qs)) (strip_cr-IsPrintable l h))

pub lines-text_of : (ls : List Str) → All IsPrintable ls → lines (text_of ls) ≡ ls
unfolding text_of
lines-text_of [] h = unfold lines split_where in refl
lines-text_of (l ∷ ls) h = lines-line l (text_of ls) h.0 ∙ ap (λ r. l ∷ r) (lines-text_of ls h.1)

pub text_of-append :
    (ls : List Str) (l : Str) → text_of (ls ++ l ∷ []) ≡ text_of ls ++ (l ++ 10 ∷ [])
unfolding text_of
text_of-append [] l = refl
text_of-append (k ∷ ls) l =
    rw (text_of-append ls l) (sym (append_assoc k (10 ∷ text_of ls) (l ++ 10 ∷ [])))

is_empty-append : (s : Str) (c : ℕ) → is_empty (s ++ c ∷ []) ≡ false
is_empty-append [] c = refl
is_empty-append (d ∷ s) c = refl

is_empty-reverse : (s : Str) → is_empty s ≡ false → is_empty (reverse s) ≡ false
is_empty-reverse [] h = cc
is_empty-reverse (c ∷ s) h = rw (reverse-cons c s) (is_empty-append (reverse s) c)

trim_start-append :
    (s : Str) (c : ℕ) → is_whitespace c ≡ false → is_empty (trim_start (s ++ c ∷ [])) ≡ false
unfolding trim_start
trim_start-append [] c h = rw h refl
trim_start-append (d ∷ s) c h = elim (Bool-cases (is_whitespace d)) [
  | inl e ↦ rw e (trim_start-append s c h)
  | inr e ↦ rw e refl
]

-- A text that opens with a visible character is not blank.
pub trim_visible : (c : ℕ) (s : Str) → is_whitespace c ≡ false → is_empty (trim (c ∷ s)) ≡ false
unfolding trim trim_start
trim_visible c s h =
    rw (h, reverse-cons c s)
      (is_empty-reverse (trim_start (reverse s ++ c ∷ [])) (trim_start-append (reverse s) c h))
