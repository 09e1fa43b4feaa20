-- ===== src/Execd/Replay/Queue.antt =====
-- crates/archangel-execd/src/replay.rs: what the eviction of the oldest nonce keeps.

use archangel.Common.{
  ℕ, zero, suc, ◌≤◌, ◌<◌, ◌≡◌, refl, sym, ap, false, ◌||◌, some, List, [], ◌∷◌, take, length, arith,
}
use archangel.Common.Text.{str_eq, str_eq_iff}
use archangel.Common.Map.{Key, member}
use archangel.Execd.Replay.{pop_front}

abbrev pub Distinct : List Key → Type 0
Distinct [] = Unit
Distinct (k ∷ ks) = (member k ks ≡ false) × Distinct ks

-- Cutting the newest element and a full window back to the window drops the oldest one.
pub pop_front-take :
    {A : Type 0} (n : ℕ) (x : A) (xs : List A)
    → n < length (x ∷ take n xs)
    → (o : A) × (pop_front (x ∷ take n xs) ≡ some (o, take n (x ∷ xs)))
unfolding pop_front
pop_front-take zero x xs h = (x, refl)
pop_front-take (suc n) x [] h = absurd (omega arith)
pop_front-take (suc n) x (y ∷ xs) h =
    let (o, e) = pop_front-take n y xs (omega arith) in (o, rw (e, pop_front) refl)

pub take-nil : {A : Type 0} (n : ℕ) → take {A = A} n [] ≡ []
take-nil zero = refl
take-nil (suc n) = refl

pub take-le :
    {A : Type 0} (n : ℕ) (x : A) (xs : List A)
    → length (x ∷ take n xs) ≤ n
    → x ∷ take n xs ≡ take n (x ∷ xs)
take-le zero x xs h = absurd (omega arith)
take-le (suc n) x [] h = ap (λ l. x ∷ l) (sym (take-nil n))
take-le (suc n) x (y ∷ xs) h = ap (λ l. x ∷ l) (take-le n y xs (omega arith))

-- The oldest element leaves, and the others stay.
pub record Popped (xs : List Key) (o : Key) (rest : List Key) : Type 0 where
  pub popped : pop_front xs ≡ some (o, rest)
  pub members : (k : Key) → member k xs ≡ (str_eq o k || member k rest)
  pub distinct : Distinct xs → Distinct rest × (member o rest ≡ false)

pub pop_front-Popped :
    (x : Key) (xs : List Key) → (o : Key) × (rest : List Key) × Popped (x ∷ xs) o rest
unfolding pop_front member
pop_front-Popped x [] =
    (x, [], record { popped = refl; members = λ k. refl; distinct = λ d. (tt, refl) })
pop_front-Popped x (y ∷ xs) =
    let (o, rest, p) = pop_front-Popped y xs in
    (
      o,
      x ∷ rest,
      record {
        popped = rw (p.popped, pop_front) refl;
        members = λ k. ground (arith, p.members k);
        distinct = λ d.
            let (apart, gone) = p.distinct d.1 in
            (
              (ground (arith, d.0, p.members x), apart),
              ground (arith, d.0, gone, p.members x, str_eq_iff o x, str_eq_iff x o),
            );
      },
    )
