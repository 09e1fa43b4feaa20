-- ===== src/Common/Map.antt =====
-- `HashMap` and `HashSet` with byte strings or texts for keys, as association lists. No order of
-- theirs is ever observed.
use mathlib.Core.Logic.{inl, inr}
use mathlib.Core.Path.{◌≡◌, refl, sym, ap, ◌∙◌}
use mathlib.Core.Bool.{Bool, true, not, ◌&&◌, ◌||◌}
use mathlib.Core.Option.{Option, none, some}
use mathlib.Core.List.{List, [], ◌∷◌}
use Prim.Native.Nat.{ℕ, ◌+◌, ◌≤◌}
use native.Mathlib.Omega.{arith}
use archangel.Common.Tests.{if◌then◌else◌, Bool-cases}
use archangel.Common.Lists.{any, Any, length}
use archangel.Common.Text.{str_eq, str_eq_iff, str_eq→eq}

pub some_injective {ℓ} : {A : Type ℓ} {a b : A} → ◌≡◌ {A = Option A} (some a) (some b) → a ≡ b
some_injective h = ground arith

abbrev pub Key : Type 0
Key = List ℕ

abbrev pub HashMap {ℓ} : Type ℓ → Type ℓ
HashMap V = List (Key × V)

module _ {ℓ} {V : Type ℓ} where
  unfoldable pub get : Key → HashMap V → Option V
  get k [] = none
  get k ((j, v) ∷ m) = if str_eq j k then some v else get k m

  unfoldable pub insert : Key → V → HashMap V → HashMap V
  insert k v [] = (k, v) ∷ []
  insert k v ((j, w) ∷ m) = if str_eq j k then (k, v) ∷ m else (j, w) ∷ insert k v m

  -- Every entry of the key goes.
  unfoldable pub remove : Key → HashMap V → HashMap V
  remove k [] = []
  remove k ((j, v) ∷ m) = let rest = remove k m in if str_eq j k then rest else (j, v) ∷ rest

  unfoldable pub retain : (V → Bool) → HashMap V → HashMap V
  retain keep [] = []
  retain keep ((j, v) ∷ m) = let rest = retain keep m in if keep v then (j, v) ∷ rest else rest

  pub get-insert :
      (k j : Key) (v : V) (m : HashMap V)
      → get j (insert k v m) ≡ (if str_eq k j then some v else get j m)
  unfolding get insert
  get-insert k j v [] = refl
  get-insert k j v ((i, w) ∷ m) =
      ground (arith, str_eq_iff k j, str_eq_iff i k, str_eq_iff i j, get-insert k j v m)

  pub get-remove :
      (k j : Key) (m : HashMap V) → get j (remove k m) ≡ (if str_eq k j then none else get j m)
  unfolding get remove
  get-remove k j [] = ground arith
  get-remove k j ((i, w) ∷ m) =
      ground (arith, str_eq_iff k j, str_eq_iff i k, str_eq_iff i j, get-remove k j m)

-- What a retained map holds was kept, and stood in the map.
pub get-retain :
    {V : Type 0} (k : Key) (keep : V → Bool) (m : HashMap V) {v : V}
    → get k (retain keep m) ≡ some v
    → (keep v ≡ true) × Any (λ (e : Key × V). (e.0 ≡ k) × (e.1 ≡ v)) m
unfolding get retain
get-retain k keep [] h = cc
get-retain k keep ((j, w) ∷ m) {v} h = elim (Bool-cases (keep w)) [
  | inr e ↦ let (kept, found) = get-retain k keep m (rw e at h) in (kept, inr found)
  | inl e ↦ elim (Bool-cases (str_eq j k)) [
    | inl f ↦
        let same : w ≡ v = some_injective (rw (e, f) at h) in
        (sym (ap keep same) ∙ e, inl (str_eq→eq j k f, same))
    | inr f ↦ let (kept, found) = get-retain k keep m (rw (e, f) at h) in (kept, inr found)
  ]
]

pub length-retain :
    {V : Type 0} (keep : V → Bool) (m : HashMap V) → length (retain keep m) ≤ length m
unfolding retain
length-retain keep [] = omega arith
length-retain keep ((j, w) ∷ m) = ground (arith, length-retain keep m)

pub length-remove : {V : Type 0} (k : Key) (m : HashMap V) → length (remove k m) ≤ length m
unfolding remove
length-remove k [] = omega arith
length-remove k ((j, w) ∷ m) = ground (arith, length-remove k m)

pub length-insert :
    {V : Type 0} (k : Key) (v : V) (m : HashMap V) → length (insert k v m) ≤ length m + 1
unfolding insert
length-insert k v [] = omega arith
length-insert k v ((j, w) ∷ m) = ground (arith, length-insert k v m)

-- `HashSet`
unfoldable pub member : Key → List Key → Bool
member k s = any (λ j. str_eq j k) s

unfoldable pub insert_key : Key → List Key → List Key
unfolding member
insert_key k s = if member k s then s else k ∷ s

unfoldable pub remove_key : Key → List Key → List Key
remove_key k [] = []
remove_key k (j ∷ s) = let rest = remove_key k s in if str_eq j k then rest else j ∷ rest

pub member-insert_key :
    (k j : Key) (s : List Key) → member j (insert_key k s) ≡ (str_eq k j || member j s)
unfolding member insert_key
member-insert_key k j s = elim (Bool-cases (member k s)) [
  | inr e ↦ rw e refl
  | inl e ↦ elim (Bool-cases (str_eq k j)) [
    | inr f ↦ rw (e, f) refl
    | inl f ↦ rw (e, f) (rw (str_eq→eq k j f) at e)
  ]
]

pub member-remove_key :
    (k j : Key) (s : List Key) → member j (remove_key k s) ≡ (not (str_eq k j) && member j s)
unfolding member remove_key
member-remove_key k j [] = ground arith
member-remove_key k j (i ∷ s) =
    ground (arith, str_eq_iff k j, str_eq_iff i k, str_eq_iff i j, member-remove_key k j s)
