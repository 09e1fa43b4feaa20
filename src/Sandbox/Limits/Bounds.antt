-- ===== src/Sandbox/Limits/Bounds.antt =====
-- crates/archangel-sandbox/src/cgroup.rs: which texts are limits.
use archangel.Common.{
  ℕ, ◌*◌, ◌≤◌, ◌≡◌, ◌↔◌, refl, sym, ap, ◌∙◌, subst, inl, inr, Bool, true, false, Option, none, some,
  [], ◌∷◌, ◌++◌, all, ◌==◌, ==_iff, leb, if◌then◌else◌, ok, >>=-ok_inv, ok_injective, Bool-cases,
  arith,
}
use archangel.Common.Map.{some_injective}
use archangel.Common.Machine.{u64_max}
use archangel.Common.Text.{Str, str, trim}
use archangel.Common.Text.Lines.{is_empty}
use archangel.Sandbox.Limits.{
  LimitReason, max_cpu_percent, is_ascii_digit, digits_value, parse_u64, strip_last, limit_or,
  amount, within, parse_cpu_max,
}

-- The digits of a number, at least one.
pub record IsNumeral (digits : Str) (n : ℕ) : Type 0 where
  pub some_digit : is_empty digits ≡ false
  pub only_digits : all is_ascii_digit digits ≡ true
  pub value : digits_value 0 digits ≡ n

-- Digits and a percent sign, between 1 and 100.
pub record IsCpuLimit (text : Str) (percent : ℕ) : Type 0 where
  pub digits : Str
  pub text_lem : trim text ≡ digits ++ b'%' ∷ []
  pub numeral : IsNumeral digits percent
  pub positive : 1 ≤ percent
  pub ceiling : percent ≤ 100

-- The units of an amount of memory.
pub data IsUnit : Str → ℕ → Type 0 where
  bytes : IsUnit [] 1
  small_k : IsUnit (str "k") 1024
  large_k : IsUnit (str "K") 1024
  small_m : IsUnit (str "m") 1048576
  large_m : IsUnit (str "M") 1048576
  small_g : IsUnit (str "g") 1073741824
  large_g : IsUnit (str "G") 1073741824

-- Digits and a unit, between one byte and one tebibyte.
pub record IsMemoryLimit (text : Str) (total : ℕ) : Type 0 where
  pub digits : Str
  pub unit : Str
  pub multiplier : ℕ
  pub text_lem : trim text ≡ digits ++ unit
  pub unit_lem : IsUnit unit multiplier
  pub n : ℕ
  pub numeral : IsNumeral digits n
  pub total_lem : n * multiplier ≡ total
  pub positive : 1 ≤ total
  pub ceiling : total ≤ 1099511627776

strip_last-append :
    (p : ℕ → Bool) (s : Str) (c : ℕ) → strip_last p (s ++ c ∷ []) ≡ (if p c then some s else none)
strip_last-append p [] c = refl
strip_last-append p (d ∷ []) c = elim (Bool-cases (p c)) [ inl e ↦ rw e refl | inr e ↦ rw e refl ]
strip_last-append p (d ∷ e ∷ s) c =
    let rest = strip_last-append p (e ∷ s) c in
    elim (Bool-cases (p c)) [ inl f ↦ rw rest (rw f refl) | inr f ↦ rw rest (rw f refl) ]

-- A text that is not empty has a last character.
pub last_of : (s : Str) → is_empty s ≡ false → (t : Str) × (c : ℕ) × (s ≡ t ++ c ∷ [])
last_of [] h = cc
last_of (c ∷ []) h = ([], c, refl)
last_of (c ∷ d ∷ s) h = let (t, e, same) = last_of (d ∷ s) refl in (c ∷ t, e, ap (λ r. c ∷ r) same)

-- What is stripped of a character named by `p` ends in one.
pub stripped :
    (p : ℕ → Bool) (s t : Str)
    → strip_last p s ≡ some t
    → (c : ℕ) × (p c ≡ true) × (s ≡ t ++ c ∷ [])
stripped p [] t h = cc
stripped p (d ∷ s) t h =
    let (u, c, same) = last_of (d ∷ s) refl in
    let found : (if p c then some u else none) ≡ some t =
      sym (strip_last-append p u c) ∙ (ap (strip_last p) (sym same) ∙ h) in
    elim (Bool-cases (p c)) [
      | inr e ↦ absurd (cc (rw e at found))
      | inl e ↦
          let ends : u ≡ t = some_injective (rw e at found) in
          (c, e, same ∙ ap (λ r. r ++ c ∷ []) ends)
    ]

-- What is not stripped does not end in such a character.
pub unstripped : (p : ℕ → Bool) (t : Str) (c : ℕ) → p c ≡ false → strip_last p (t ++ c ∷ []) ≡ none
unstripped p t c e = strip_last-append p t c ∙ (rw e refl)

pub stripping : (p : ℕ → Bool) (t : Str) (c : ℕ) → p c ≡ true → strip_last p (t ++ c ∷ []) ≡ some t
stripping p t c e = strip_last-append p t c ∙ (rw e refl)

pub limit_or-ok :
    {A : Type 0} (why : LimitReason) (o : Option A) {a : A} → limit_or why o ≡ ok a → o ≡ some a
limit_or-ok why none h = cc
limit_or-ok why (some b) h = ap some (ok_injective h)

pub within_iff : (ceiling n m : ℕ) → (within ceiling n ≡ ok m) ↔ ((n ≡ m) × (1 ≤ m) × (m ≤ ceiling))
unfolding within
within_iff ceiling n m = ground arith

pub amount_iff :
    (digits : Str) (n : ℕ) → (amount digits ≡ ok n) ↔ (IsNumeral digits n × (n ≤ u64_max))
unfolding amount parse_u64
amount_iff digits n = (to, from)
  where
    to : amount digits ≡ ok n → IsNumeral digits n × (n ≤ u64_max)
    to h = elim (Bool-cases (is_empty digits)) [
      | inl e ↦ absurd (cc (rw e at h))
      | inr e ↦ elim (Bool-cases (all is_ascii_digit digits)) [
        | inr f ↦ absurd (cc (rw (e, f) at h))
        | inl f ↦ elim (Bool-cases (leb (digits_value 0 digits) u64_max)) [
          | inr g ↦ absurd (cc (rw (e, f, g) at h))
          | inl g ↦
              let same : digits_value 0 digits ≡ n = ok_injective (rw (e, f, g) at h) in
              (
                record { some_digit = e; only_digits = f; value = same },
                (let small : digits_value 0 digits ≤ u64_max = ground (arith, g) in
                    omega (arith, small, same)),
              )
        ]
      ]
    ]

    from : IsNumeral digits n × (n ≤ u64_max) → amount digits ≡ ok n
    from (k, small) =
        let fits : leb n u64_max ≡ true = ground (arith, small) in
        rw (k.some_digit, k.only_digits, k.value, fits) refl

percent_end :
    (s digits : Str) → strip_last (λ c. c == b'%') s ≡ some digits → s ≡ digits ++ b'%' ∷ []
percent_end s digits h =
    let (c, e, same) = stripped (λ c. c == b'%') s digits h in
    let sign : c ≡ b'%' = (==_iff c b'%').0 e in same ∙ ap (λ d. digits ++ d ∷ []) sign

-- A text is a limit on the processor exactly when it is digits and a percent sign, for a number
-- between 1 and 100, blanks around it apart.
pub parse_cpu_max-ok_iff :
    (text : Str) (percent : ℕ) → (parse_cpu_max text ≡ ok percent) ↔ IsCpuLimit text percent
unfolding parse_cpu_max
parse_cpu_max-ok_iff text percent = (to, from)
  where
    to : parse_cpu_max text ≡ ok percent → IsCpuLimit text percent
    to h =
        let (digits, e, h₁) = >>=-ok_inv _ _ h in
        let (n, f, h₂) = >>=-ok_inv _ _ h₁ in
        let (numeral, small) = (amount_iff digits n).0 f in
        let (same, positive, ceiling) = (within_iff max_cpu_percent n percent).0 h₂ in
        record {
          digits = digits;
          text_lem = percent_end (trim text) digits (limit_or-ok _ _ e);
          numeral = subst (IsNumeral digits) same numeral;
          positive = positive;
          ceiling = ceiling;
        }

    from : IsCpuLimit text percent → parse_cpu_max text ≡ ok percent
    from l =
        rw
          (
            l.text_lem,
            strip_last-append (λ c. c == b'%') l.digits b'%',
            (amount_iff l.digits percent).1 (l.numeral, omega (arith, l.ceiling)),
          )
          ((within_iff max_cpu_percent percent percent).1 (refl, l.positive, l.ceiling))
