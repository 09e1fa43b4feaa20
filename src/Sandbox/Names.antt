-- ===== src/Sandbox/Names.antt =====
-- crates/archangel-sandbox/src/capability.rs: the ordered set of names that `resolve` fills.
use archangel.Common.{◌≡◌, refl, true, false, ◌||◌, List, [], ◌∷◌, Bool-cases, inl, inr, arith}
use archangel.Common.Text.{Str, str_eq, str_eq_iff, str_lt}
use archangel.Common.Map.{member}
use archangel.Sandbox.Plan.{insert_name}

-- Each name is less than the one behind it.
abbrev pub IsAscending : List Str → Type 0
IsAscending [] = Unit
IsAscending (n ∷ []) = Unit
IsAscending (n ∷ m ∷ ns) = (str_lt n m ≡ true) × IsAscending (m ∷ ns)

str_lt-total : (s t : Str) → str_eq s t ≡ false → str_lt s t ≡ false → str_lt t s ≡ true
unfolding str_eq str_lt
str_lt-total [] [] h k = cc
str_lt-total [] (b ∷ t) h k = cc
str_lt-total (a ∷ s) [] h k = refl
str_lt-total (a ∷ s) (b ∷ t) h k = ground (arith, h, k, str_lt-total s t)

IsAscending-tail : (n : Str) (ns : List Str) → IsAscending (n ∷ ns) → IsAscending ns
IsAscending-tail n [] h = tt
IsAscending-tail n (m ∷ ms) h = h.1

-- What is inserted into the rest stays behind the first name.
IsAscending-cons :
    (n name : Str) (ns : List Str)
    → str_lt n name ≡ true
    → IsAscending (n ∷ ns)
    → IsAscending (insert_name name ns)
    → IsAscending (n ∷ insert_name name ns)
unfolding insert_name
IsAscending-cons n name [] lt h k = (lt, tt)
IsAscending-cons n name (m ∷ ms) lt h k = elim (Bool-cases (str_eq name m)) [
  | inl e ↦ rw e h
  | inr e ↦ elim (Bool-cases (str_lt name m)) [
    | inl f ↦ rw (e, f) (lt, rw (e, f) at k)
    | inr f ↦ rw (e, f) (h.0, rw (e, f) at k)
  ]
]

pub insert_name-IsAscending :
    (name : Str) (names : List Str) → IsAscending names → IsAscending (insert_name name names)
unfolding insert_name
insert_name-IsAscending name [] h = tt
insert_name-IsAscending name (n ∷ ns) h = elim (Bool-cases (str_eq name n)) [
  | inl e ↦ rw e h
  | inr e ↦ elim (Bool-cases (str_lt name n)) [
    | inl f ↦ rw (e, f) (f, h)
    | inr f ↦
        rw (e, f)
          (IsAscending-cons n name ns (str_lt-total name n e f) h
            (insert_name-IsAscending name ns (IsAscending-tail n ns h)))
  ]
]

pub member-insert_name :
    (name j : Str) (names : List Str)
    → member j (insert_name name names) ≡ (str_eq name j || member j names)
unfolding insert_name member
member-insert_name name j [] = refl
member-insert_name name j (n ∷ ns) =
    ground
      (arith, str_eq_iff name n, str_eq_iff n j, str_eq_iff name j, member-insert_name name j ns)
