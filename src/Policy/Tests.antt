-- ===== src/Policy/Tests.antt =====
-- Literal matchers for the tests and the witnesses on archangel-policy: a glob matches its own
-- text, and a pattern the text that it has between its two anchors.
pub mod Denylist
mod Engine
mod Paths
use archangel.Common.{
  ℕ, zero, suc, ◌≡◌, refl, sym, ap, ◌∙◌, ◌↔◌, inl, inr, Bool, true, false, some, List, [], ◌∷◌,
  ◌++◌, map, get_elem?, Any, if◌then◌else◌, Bool-cases, ok, err, Result, arith, ok_injective, ◌⊎◌,
}
use archangel.Common.Text.{Str, str, str_eq}
use archangel.Policy.Denylist.{Matchers, IsLawful}

unfoldable pub hits {ℓ} : {A : Type ℓ} → (A → Bool) → List A → List ℕ
hits f [] = []
hits f (x ∷ xs) = if f x then 0 ∷ map suc (hits f xs) else map suc (hits f xs)

Any-suc : (l : List ℕ) (i : ℕ) → Any (λ j. j ≡ suc i) (map suc l) ↔ Any (λ j. j ≡ i) l
Any-suc [] i = (λ a. a, λ a. a)
Any-suc (x ∷ l) i = ground (arith, Any-suc l i)

Any-zero : (l : List ℕ) → ¬ Any (λ j. j ≡ 0) (map suc l)
Any-zero [] a = a
Any-zero (x ∷ l) (inl e) = absurd (omega arith)
Any-zero (x ∷ l) (inr a) = Any-zero l a

hits_lem :
    {A : Type 0} (f : A → Bool) (xs : List A) (i : ℕ)
    → Any (λ j. j ≡ i) (hits f xs) ↔ ((x : A) × (get_elem? xs i ≡ some x) × (f x ≡ true))
unfolding hits
hits_lem f [] i = (λ a. absurd a, λ (x, e, h). cc)
hits_lem f (y ∷ xs) zero = elim (Bool-cases (f y)) [
  | inl e ↦ rw e (λ a. (y, refl, e), λ p. inl refl)
  | inr e ↦ rw e (λ a. absurd (Any-zero (hits f xs) a), λ (x, s, h). absurd (ground arith))
]
hits_lem f (y ∷ xs) (suc i) = elim (Bool-cases (f y)) [
  | inl e ↦ rw e (ground (arith, Any-suc (hits f xs) i, hits_lem f xs i))
  | inr e ↦ rw e (ground (arith, Any-suc (hits f xs) i, hits_lem f xs i))
]

abbrev pub anchored : Str → Str
anchored text = b'^' ∷ (text ++ str "$")

abbrev pub literal : Matchers
literal = record {
  Glob = Str;
  GlobSet = List Str;
  RegexSet = List Str;
  glob_build = λ p. ok p;
  glob_is_match = str_eq;
  glob_set_build = λ gs. ok gs;
  glob_set_matches = λ gs path. hits (λ g. str_eq g path) gs;
  regex_set_new = λ ps. ok ps;
  regex_is_match = λ p text. str_eq p (anchored text);
  regex_set_matches = λ ps text. hits (λ p. str_eq p (anchored text)) ps;
}

pub literal-IsLawful : IsLawful literal
literal-IsLawful = record {
  glob_set_lem = λ gs set h path i. rw (← ok_injective h) (hits_lem (λ g. str_eq g path) gs i);
  regex_set_lem =
      λ ps set h text i. rw (← ok_injective h) (hits_lem (λ p. str_eq p (anchored text)) ps i);
}
