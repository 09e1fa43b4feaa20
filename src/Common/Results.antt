-- ===== src/Common/Results.antt =====
-- Rust's `Result`, with its bind (the `?` operator).
use mathlib.Core.Path.{◌≡◌, refl}
use mathlib.Core.Logic.{◌⊎◌, inl, inr}
use native.Mathlib.Omega.{arith}

pub data Result {ℓ κ} (A : Type ℓ) (E : Type κ) : Type (ℓ ⊔ κ) where
  ok : A → Result A E
  err : E → Result A E

module _ {ℓ κ μ} {A : Type ℓ} {B : Type κ} {E : Type μ} where
  infixl 5 ◌>>=◌
  abbrev pub ◌>>=◌ : Result A E → (A → Result B E) → Result B E
  err why >>= next = err why
  ok value >>= next = next value

  -- A chain that answers went through its first link.
  pub >>=-ok_inv :
      {answer : B} (first : Result A E) (next : A → Result B E)
      → (first >>= next) ≡ ok answer
      → (value : A) × (first ≡ ok value) × (next value ≡ ok answer)
  >>=-ok_inv (err why) next through = cc
  >>=-ok_inv (ok value) next through = (value, refl, through)

module _ {ℓ κ μ ν} {A : Type ℓ} {B : Type κ} {C : Type ν} {E : Type μ} where
  -- A last link can be joined to the one before it.
  pub >>=_assoc :
      (first : Result A E) (both : A → Result C E) (next : A → Result B E) (last : B → Result C E)
      → ((a : A) → both a ≡ (next a >>= last))
      → (first >>= both) ≡ (first >>= next >>= last)
  >>=_assoc (err why) both next last same = refl
  >>=_assoc (ok a) both next last same = same a

module _ {ℓ κ μ} {A : Type ℓ} {E : Type κ} {F : Type μ} where
  abbrev pub map_err : (E → F) → Result A E → Result A F
  map_err f (ok a) = ok a
  map_err f (err e) = err (f e)

  pub map_err-ok : (f : E → F) (r : Result A E) {a : A} → map_err f r ≡ ok a → r ≡ ok a
  map_err-ok f (ok b) h = ground arith
  map_err-ok f (err e) h = cc

module _ {ℓ κ} {A : Type ℓ} {E : Type κ} where
  pub Result-cases : (r : Result A E) → ((a : A) × (r ≡ ok a)) ⊎ ((e : E) × (r ≡ err e))
  Result-cases (ok a) = inl (a, refl)
  Result-cases (err e) = inr (e, refl)

  pub ok_injective : {a b : A} → ◌≡◌ {A = Result A E} (ok a) (ok b) → a ≡ b
  ok_injective h = ground arith

  pub err_injective : {d e : E} → ◌≡◌ {A = Result A E} (err d) (err e) → d ≡ e
  err_injective h = ground arith
