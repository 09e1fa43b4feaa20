-- ===== src/Common/Lists.antt =====
-- Lists measured and indexed by native numbers, Boolean searches, and predicates by recursion.
use Prim.Native.Nat.{ℕ, zero, suc, ◌+◌}
use mathlib.Core.Path.{◌≡◌, refl, ap}
use mathlib.Core.Logic.{◌⊎◌, inl, inr}
use mathlib.Core.Bool.{Bool, true, false, ◌&&◌, ◌||◌}
use mathlib.Core.Option.{Option, none, some}
use mathlib.Core.List.{List, [], ◌∷◌, ◌++◌, map}
use native.Mathlib.Omega.{arith}

module _ {ℓ} {A : Type ℓ} where
  abbrev pub length : List A → ℕ
  length [] = 0
  length (x ∷ xs) = suc (length xs)

  abbrev pub get_elem? : List A → ℕ → Option A
  get_elem? [] i = none
  get_elem? (x ∷ xs) zero = some x
  get_elem? (x ∷ xs) (suc i) = get_elem? xs i

  abbrev pub head? : List A → Option A
  head? [] = none
  head? (x ∷ xs) = some x

  abbrev pub take : ℕ → List A → List A
  take zero xs = []
  take (suc n) [] = []
  take (suc n) (x ∷ xs) = x ∷ take n xs

  abbrev pub drop : ℕ → List A → List A
  drop zero xs = xs
  drop (suc n) [] = []
  drop (suc n) (x ∷ xs) = drop n xs

  abbrev pub replicate : ℕ → A → List A
  replicate zero x = []
  replicate (suc n) x = x ∷ replicate n x

  abbrev pub any : (A → Bool) → List A → Bool
  any p [] = false
  any p (x ∷ xs) = p x || any p xs

  abbrev pub all : (A → Bool) → List A → Bool
  all p [] = true
  all p (x ∷ xs) = p x && all p xs

  pub length-append : (xs ys : List A) → length (xs ++ ys) ≡ length xs + length ys
  length-append [] ys = omega arith
  length-append (x ∷ xs) ys = omega (arith, length-append xs ys)

-- `Option::map`, `Option::and_then`
module _ {ℓ κ} {A : Type ℓ} {B : Type κ} where
  abbrev pub map_option : (A → B) → Option A → Option B
  map_option f none = none
  map_option f (some a) = some (f a)

  abbrev pub and_then : Option A → (A → Option B) → Option B
  and_then none f = none
  and_then (some a) f = f a

module _ {ℓ κ} {A : Type ℓ} (P : A → Type κ) where
  abbrev pub All : List A → Type κ
  All [] = Unit
  All (x ∷ xs) = P x × All xs

  pub All-append : (xs ys : List A) → All xs → All ys → All (xs ++ ys)
  All-append [] ys hx hy = hy
  All-append (x ∷ xs) ys hx hy = (hx.0, All-append xs ys hx.1 hy)

-- Some element of the list satisfies the predicate, the element kept.
abbrev pub Any {ℓ} : {A : Type ℓ} → (A → Type 0) → List A → Type 0
Any P [] = ⊥
Any P (x ∷ xs) = P x ⊎ Any P xs

pub Any-get :
    {A : Type 0} (P : A → Type 0) (xs : List A) (i : ℕ) {x : A}
    → get_elem? xs i ≡ some x
    → P x
    → Any P xs
Any-get P [] i e p = cc
Any-get P (y ∷ xs) zero {x} e p = inl (let q : y ≡ x = ground arith in rw q p)
Any-get P (y ∷ xs) (suc i) e p = inr (Any-get P xs i e p)

pub get_elem?-map :
    {A B : Type 0} (f : A → B) (xs : List A) (i : ℕ)
    → get_elem? (map f xs) i ≡ map_option f (get_elem? xs i)
get_elem?-map f [] i = refl
get_elem?-map f (x ∷ xs) zero = refl
get_elem?-map f (x ∷ xs) (suc i) = get_elem?-map f xs i

pub map_option-none : {A B : Type 0} (f : A → B) (o : Option A) → map_option f o ≡ none → o ≡ none
map_option-none f none h = refl
map_option-none f (some a) h = cc

pub map_option-some :
    {A B : Type 0} (f : A → B) (o : Option A) {b : B}
    → map_option f o ≡ some b
    → (a : A) × (o ≡ some a) × (f a ≡ b)
map_option-some f none h = cc
map_option-some f (some a) h = (a, refl, ground arith)

pub Any-map :
    {A : Type 0} {P Q : A → Type 0} → ((x : A) → P x → Q x) → (xs : List A) → Any P xs → Any Q xs
Any-map f [] a = a
Any-map f (x ∷ xs) (inl p) = inl (f x p)
Any-map f (x ∷ xs) (inr a) = inr (Any-map f xs a)

-- Ends of one length can be taken off.
pub append-cancel :
    {A : Type 0} (xs ys s t : List A) → length s ≡ length t → xs ++ s ≡ ys ++ t → xs ≡ ys
append-cancel [] [] s t n h = refl
append-cancel [] (y ∷ ys) s t n h = absurd (omega (arith, n, ap length h, length-append ys t))
append-cancel (x ∷ xs) [] s t n h = absurd (omega (arith, n, ap length h, length-append xs s))
append-cancel (x ∷ xs) (y ∷ ys) s t n h =
    let heads : x ≡ y = ground arith in
    let tails : xs ++ s ≡ ys ++ t = ground arith in rw (heads, append-cancel xs ys s t n tails) refl
