-- ===== src/Sandbox/Limits/Memory.antt =====
-- crates/archangel-sandbox/src/cgroup.rs: which texts are limits on the memory.
use mathlib.Core.List.{append-nil}
use archangel.Common.{
  ℕ, zero, suc, ◌*◌, ◌≤◌, ◌≡◌, ◌↔◌, refl, sym, ap, ◌∙◌, subst, ◌⊎◌, inl, inr, Bool, true, false,
  ◌||◌, none, some, Option-cases, [], ◌∷◌, ◌++◌, all, ◌==◌, leb→le, leb, Result, ok, >>=-ok_inv,
  ok_injective, Bool-cases, arith,
}
use archangel.Common.Map.{some_injective}
use archangel.Common.Machine.{u64_max}
use archangel.Common.Text.{Str, trim}
use archangel.Common.Text.Lines.{is_empty}
use archangel.Sandbox.Limits.Bounds.{
  IsNumeral, IsUnit, bytes, small_k, large_k, small_m, large_m, small_g, large_g, IsMemoryLimit,
  last_of, stripped, unstripped, stripping, limit_or-ok, within_iff, amount_iff,
}
use archangel.Sandbox.Limits.{
  SandboxError, max_memory_bytes, is_ascii_digit, strip_last, last_is, unit_of, checked_mul, scaled,
  parse_memory_max,
}

abbrev in_k : ℕ → Bool
in_k c = c == b'k' || c == b'K'

abbrev in_m : ℕ → Bool
in_m c = c == b'm' || c == b'M'

abbrev in_g : ℕ → Bool
in_g c = c == b'g' || c == b'G'

one_of : (c a b : ℕ) → (c == a || c == b) ≡ true → (c ≡ a) ⊎ (c ≡ b)
one_of c a b h = ground arith

-- A unit stands behind the digits.
HasUnit : Str → Str → ℕ → Type 0
HasUnit s digits m = (unit : Str) × IsUnit unit m × (s ≡ digits ++ unit)

-- What is stripped of either of two letters that stand for the multiplier has a unit.
HasUnit-letter :
    (a b m : ℕ) (s digits : Str)
    → IsUnit (a ∷ []) m
    → IsUnit (b ∷ []) m
    → strip_last (λ c. c == a || c == b) s ≡ some digits
    → HasUnit s digits m
unfolding HasUnit
HasUnit-letter a b m s digits ua ub h =
    let (c, e, same) = stripped (λ c. c == a || c == b) s digits h in
    elim (one_of c a b e) [
      | inl f ↦ (a ∷ [], ua, same ∙ ap (λ d. digits ++ d ∷ []) f)
      | inr f ↦ (b ∷ [], ub, same ∙ ap (λ d. digits ++ d ∷ []) f)
    ]

HasUnit-pair :
    (s p digits : Str) (k m : ℕ)
    → ◌≡◌ {A = Result (Str × ℕ) SandboxError} (ok (p, k)) (ok (digits, m))
    → HasUnit s p k
    → HasUnit s digits m
HasUnit-pair s p digits k m h u =
    let same : (p, k) ≡ (digits, m) = ok_injective h in
    subst (λ (q : Str × ℕ). HasUnit s q.0 q.1) same u

unit_of-HasUnit : (s digits : Str) (m : ℕ) → unit_of s ≡ ok (digits, m) → HasUnit s digits m
unfolding unit_of HasUnit
unit_of-HasUnit s digits m h = elim (Option-cases (strip_last in_k s)) [
  | inr (p, e) ↦
      HasUnit-pair s p digits 1024 m (rw (unit_of, e) at h)
        (HasUnit-letter b'k' b'K' 1024 s p small_k large_k e)
  | inl e ↦ elim (Option-cases (strip_last in_m s)) [
    | inr (p, f) ↦
        HasUnit-pair s p digits 1048576 m (rw (unit_of, e, f) at h)
          (HasUnit-letter b'm' b'M' 1048576 s p small_m large_m f)
    | inl f ↦ elim (Option-cases (strip_last in_g s)) [
      | inr (p, g) ↦
          HasUnit-pair s p digits 1073741824 m (rw (unit_of, e, f, g) at h)
            (HasUnit-letter b'g' b'G' 1073741824 s p small_g large_g g)
      | inl g ↦ elim (Bool-cases (last_is is_ascii_digit s)) [
        | inr i ↦ absurd (cc (rw (unit_of, e, f, g, i) at h))
        | inl i ↦
            HasUnit-pair s s digits 1 m (rw (unit_of, e, f, g, i) at h)
              ([], bytes, sym (append-nil s))
      ]
    ]
  ]
]

last_is-append : (p : ℕ → Bool) (t : Str) (c : ℕ) → last_is p (t ++ c ∷ []) ≡ p c
last_is-append p [] c = refl
last_is-append p (d ∷ []) c = refl
last_is-append p (d ∷ e ∷ t) c = last_is-append p (e ∷ t) c

all-append_last : (p : ℕ → Bool) (t : Str) (c : ℕ) → all p (t ++ c ∷ []) ≡ true → p c ≡ true
all-append_last p [] c h = ground (arith, h)
all-append_last p (d ∷ t) c h =
    all-append_last p t c (let rest : all p (t ++ c ∷ []) ≡ true = ground (arith, h) in rest)

unit_of_digits :
    (digits : Str)
    → is_empty digits ≡ false
    → all is_ascii_digit digits ≡ true
    → unit_of digits ≡ ok (digits, 1)
unfolding unit_of
unit_of_digits digits full only =
    let (t, c, same) = last_of digits full in
    let digit : is_ascii_digit c ≡ true =
      all-append_last is_ascii_digit t c (ap (all is_ascii_digit) (sym same) ∙ only) in
    let k : strip_last in_k digits ≡ none =
      ap (strip_last in_k) same ∙ unstripped in_k t c (ground (arith, digit)) in
    let m : strip_last in_m digits ≡ none =
      ap (strip_last in_m) same ∙ unstripped in_m t c (ground (arith, digit)) in
    let g : strip_last in_g digits ≡ none =
      ap (strip_last in_g) same ∙ unstripped in_g t c (ground (arith, digit)) in
    let d : last_is is_ascii_digit digits ≡ true =
      ap (last_is is_ascii_digit) same ∙ (last_is-append is_ascii_digit t c ∙ digit) in
    rw (unit_of, k, m, g, d) refl

unit_of_unit :
    (digits unit : Str) (m : ℕ)
    → is_empty digits ≡ false
    → all is_ascii_digit digits ≡ true
    → IsUnit unit m
    → unit_of (digits ++ unit) ≡ ok (digits, m)
unfolding unit_of
unit_of_unit digits unit m full only bytes =
    ap unit_of (append-nil digits) ∙ unit_of_digits digits full only
unit_of_unit digits unit m full only small_k = rw (unit_of, stripping in_k digits b'k' refl) refl
unit_of_unit digits unit m full only large_k = rw (unit_of, stripping in_k digits b'K' refl) refl
unit_of_unit digits unit m full only small_m =
    rw (unit_of, unstripped in_k digits b'm' refl, stripping in_m digits b'm' refl) refl
unit_of_unit digits unit m full only large_m =
    rw (unit_of, unstripped in_k digits b'M' refl, stripping in_m digits b'M' refl) refl
unit_of_unit digits unit m full only small_g =
    rw
      (
        unit_of,
        unstripped in_k digits b'g' refl,
        unstripped in_m digits b'g' refl,
        stripping in_g digits b'g' refl,
      )
      refl
unit_of_unit digits unit m full only large_g =
    rw
      (
        unit_of,
        unstripped in_k digits b'G' refl,
        unstripped in_m digits b'G' refl,
        stripping in_g digits b'G' refl,
      )
      refl

full-append : (digits unit : Str) → is_empty digits ≡ false → is_empty (digits ++ unit) ≡ false
full-append [] unit h = cc
full-append (d ∷ digits) unit h = refl

le_product : (n m : ℕ) → 1 ≤ m → n ≤ n * m
le_product n zero h = absurd (omega (arith, h))
le_product n (suc m) h = omega arith

checked_mul_iff : (a b n : ℕ) → (checked_mul a b ≡ some n) ↔ ((a * b ≡ n) × (n ≤ u64_max))
checked_mul_iff a b n = (to, from)
  where
    to : checked_mul a b ≡ some n → (a * b ≡ n) × (n ≤ u64_max)
    to h = elim (Bool-cases (leb (a * b) u64_max)) [
      | inr e ↦ absurd (cc (rw e at h))
      | inl e ↦
          let same : a * b ≡ n = some_injective (rw e at h) in
          (same, subst (λ k. k ≤ u64_max) same (leb→le (a * b) u64_max e))
    ]

    from : (a * b ≡ n) × (n ≤ u64_max) → checked_mul a b ≡ some n
    from (same, small) =
        let fits : leb n u64_max ≡ true = ground (arith, small) in rw same (rw fits refl)

scaled_iff :
    (digits : Str) (m total : ℕ)
    → 1 ≤ m
    → (scaled (digits, m) ≡ ok total)
      ↔ ((n : ℕ) × IsNumeral digits n × (n * m ≡ total) × (1 ≤ total) × (total ≤ max_memory_bytes))
scaled_iff digits m total pos = (to, from)
  where
    to :
        scaled (digits, m) ≡ ok total
        → (n : ℕ) × IsNumeral digits n × (n * m ≡ total) × (1 ≤ total) × (total ≤ max_memory_bytes)
    to h =
        let (n, e, h₁) = >>=-ok_inv _ _ h in
        let (k, f, h₂) = >>=-ok_inv _ _ h₁ in
        let (product, small) = (checked_mul_iff n m k).0 (limit_or-ok _ _ f) in
        let (same, positive, ceiling) = (within_iff max_memory_bytes k total).0 h₂ in
        (n, ((amount_iff digits n).0 e).0, product ∙ same, positive, ceiling)

    from :
        (n : ℕ) × IsNumeral digits n × (n * m ≡ total) × (1 ≤ total) × (total ≤ max_memory_bytes)
        → scaled (digits, m) ≡ ok total
    from (n, numeral, product, positive, ceiling) =
        rw
          (
            (amount_iff digits n).1 (numeral, omega (arith, le_product n m pos, product, ceiling)),
            (checked_mul_iff n m total).1 (product, omega (arith, ceiling)),
          )
          ((within_iff max_memory_bytes total total).1 (refl, positive, ceiling))

IsUnit-pos : (unit : Str) (m : ℕ) → IsUnit unit m → 1 ≤ m
IsUnit-pos unit m bytes = omega arith
IsUnit-pos unit m small_k = omega arith
IsUnit-pos unit m large_k = omega arith
IsUnit-pos unit m small_m = omega arith
IsUnit-pos unit m large_m = omega arith
IsUnit-pos unit m small_g = omega arith
IsUnit-pos unit m large_g = omega arith

-- A text is a limit on the memory exactly when it is digits and one of the units, for one byte to
-- one tebibyte, blanks around it apart.
pub parse_memory_max-ok_iff :
    (text : Str) (total : ℕ) → (parse_memory_max text ≡ ok total) ↔ IsMemoryLimit text total
unfolding parse_memory_max HasUnit
parse_memory_max-ok_iff text total = (to, from)
  where
    to : parse_memory_max text ≡ ok total → IsMemoryLimit text total
    to h = elim (Bool-cases (is_empty (trim text))) [
      | inl e ↦ absurd (cc (rw e at h))
      | inr e ↦
          let ((digits, m), f, h₁) = >>=-ok_inv _ _ (rw e at h) in
          let (unit, u, same) = unit_of-HasUnit (trim text) digits m f in
          let (n, numeral, product, positive, ceiling) =
            (scaled_iff digits m total (IsUnit-pos unit m u)).0 h₁ in
          record {
            digits = digits;
            unit = unit;
            multiplier = m;
            text_lem = same;
            unit_lem = u;
            n = n;
            numeral = numeral;
            total_lem = product;
            positive = positive;
            ceiling = ceiling;
          }
    ]

    from : IsMemoryLimit text total → parse_memory_max text ≡ ok total
    from l =
        rw
          (
            l.text_lem,
            full-append l.digits l.unit l.numeral.some_digit,
            unit_of_unit l.digits l.unit l.multiplier l.numeral.some_digit l.numeral.only_digits
                l.unit_lem,
          )
          ((scaled_iff l.digits l.multiplier total (IsUnit-pos l.unit l.multiplier l.unit_lem)).1
            (l.n, l.numeral, l.total_lem, l.positive, l.ceiling))
