-- ===== src/Daemon/Prompt/Spotlight.antt =====
-- crates/archangeld/src/prompt.rs: what untrusted text can hold once it is put between the markers.
use archangel.Common.{
  ℕ, zero, suc, ◌-◌, ◌<◌, ◌≤◌, ◌≡◌, refl, Bool, true, false, Bool-cases, Option-cases, inl, inr,
  none, some, [], ◌∷◌, ◌++◌, length, ◌==◌, arith,
}
use archangel.Common.Text.{Str, str, strip_prefix, is_some, contains_str}
use archangel.Common.Text.Split.{Lacks, Lacks-tail, Lacks-head}
use archangel.Daemon.Prompt.{PromptBuilder, replace_on, replace, neutralized, sanitized}

-- The text has no bracket, and is longer than "[neutralized".
pub record IsToken (q : Str) : Type 0 where
  pub no_open : Lacks b'[' q
  pub no_close : Lacks b']' q
  pub long : 13 ≤ length q

abbrev starts : Str → Str → Bool
starts q s = is_some (strip_prefix q s)

starts-cons : (a c : ℕ) (q s : Str) → starts (a ∷ q) (c ∷ s) ≡ true → (a ≡ c) × (starts q s ≡ true)
unfolding strip_prefix
starts-cons a c q s h = ground arith

starts_cons : (a c : ℕ) (q s : Str) → a ≡ c → starts q s ≡ true → starts (a ∷ q) (c ∷ s) ≡ true
unfolding strip_prefix
starts_cons a c q s e h = ground arith

starts_other : (a c : ℕ) (q s : Str) → (a == c) ≡ false → starts (a ∷ q) (c ∷ s) ≡ false
unfolding strip_prefix
starts_other a c q s e = rw e refl

replace_on_found :
    (p to : Str) (c : ℕ) (s rest : Str)
    → strip_prefix p (c ∷ s) ≡ some rest
    → replace_on p to 0 (c ∷ s) ≡ to ++ replace_on p to (length p - 1) s
unfolding replace_on
replace_on_found p to c s rest e = rw (replace_on, e) refl

replace_on_none :
    (p to : Str) (c : ℕ) (s : Str)
    → strip_prefix p (c ∷ s) ≡ none
    → replace_on p to 0 (c ∷ s) ≡ c ∷ replace_on p to 0 s
unfolding replace_on
replace_on_none p to c s e = rw (replace_on, e) refl

replace_on_skip :
    (p to : Str) (skip c : ℕ) (s : Str)
    → replace_on p to (suc skip) (c ∷ s) ≡ replace_on p to skip s
unfolding replace_on
replace_on_skip p to skip c s = refl

replace_on_nil : (p to : Str) (skip : ℕ) → replace_on p to skip [] ≡ []
unfolding replace_on
replace_on_nil p to skip = refl

-- What a replacement starts with, the text starts with, unless it has the opening bracket.
replace_on-starts :
    (p q s : Str)
    → Lacks b'[' q
    → starts q (replace_on p neutralized 0 s) ≡ true
    → starts q s ≡ true
replace_on-starts p [] s l h = unfold strip_prefix in refl
replace_on-starts p (a ∷ q) [] l h = rw (replace_on_nil p neutralized 0) at h
replace_on-starts p (a ∷ q) (c ∷ s) l h = elim (Option-cases (strip_prefix p (c ∷ s))) [
  | inl e ↦
      let (same, more) =
        starts-cons a c q (replace_on p neutralized 0 s)
          (rw (replace_on_none p neutralized c s e) at h) in
      starts_cons a c q s same (replace_on-starts p q s (Lacks-tail b'[' a q l) more)
  | inr (rest, e) ↦
      let open_bracket =
        starts-cons a b'[' q (str "neutralized]" ++ replace_on p neutralized (length p - 1) s)
          (rw (replace_on_found p neutralized c s rest e) at h) in
      absurd (ground (arith, open_bracket.0, Lacks-head b'[' a q l))
]

starts_shut : (a c : ℕ) (q s : Str) → starts q s ≡ false → starts (a ∷ q) (c ∷ s) ≡ false
unfolding strip_prefix
starts_shut a c q s h = ground arith

-- A text without the closing bracket does not reach over it.
starts-closed :
    (q t out : Str) → Lacks b']' q → length t < length q → starts q (t ++ b']' ∷ out) ≡ false
starts-closed [] t out l h = absurd (omega (arith, h))
starts-closed (a ∷ q) [] out l h = starts_other a b']' q out (Lacks-head b']' a q l)
starts-closed (a ∷ q) (d ∷ t) out l h = elim (Bool-cases (a == d)) [
  | inr e ↦ starts_other a d q (t ++ b']' ∷ out) e
  | inl e ↦ elim (Bool-cases (starts q (t ++ b']' ∷ out))) [
    | inl f ↦ absurd (cc (f, starts-closed q t out (Lacks-tail b']' a q l) (omega (arith, h))))
    | inr f ↦ starts_shut a d q (t ++ b']' ∷ out) f
  ]
]

contains_str-closed :
    (q t out : Str)
    → Lacks b']' q
    → length t < length q
    → contains_str q (t ++ b']' ∷ out) ≡ contains_str q out
unfolding contains_str
contains_str-closed q [] out l h = rw (starts-closed q [] out l h) refl
contains_str-closed q (d ∷ t) out l h =
    rw (starts-closed q (d ∷ t) out l h) (contains_str-closed q t out l (omega (arith, h)))

-- Where the pattern does not stand, the token does not stand.
IsClear : Str → Str → Str → Type 0
IsClear q p [] = Unit
IsClear q p (c ∷ s) = (starts p (c ∷ s) ≡ false → starts q (c ∷ s) ≡ false) × IsClear q p s

IsToken-starts : (q : Str) → IsToken q → contains_str q [] ≡ false
unfolding contains_str strip_prefix
IsToken-starts [] k = absurd (omega (arith, k.long))
IsToken-starts (a ∷ q) k = refl

contains_str-cons :
    (q : Str) (c : ℕ) (s : Str)
    → starts q (c ∷ s) ≡ false
    → contains_str q s ≡ false
    → contains_str q (c ∷ s) ≡ false
unfolding contains_str
contains_str-cons q c s h k = rw h k

starts_none : (p s : Str) → strip_prefix p s ≡ none → starts p s ≡ false
starts_none p s e = rw e refl

replace_on-lacks :
    (p q : Str) (skip : ℕ) (s : Str)
    → IsToken q
    → IsClear q p s
    → contains_str q (replace_on p neutralized skip s) ≡ false
unfolding IsClear
replace_on-lacks p q skip [] k c = rw (replace_on_nil p neutralized skip) (IsToken-starts q k)
replace_on-lacks p q (suc skip) (d ∷ s) k c =
    rw (replace_on_skip p neutralized skip d s) (replace_on-lacks p q skip s k c.1)
replace_on-lacks p q zero (d ∷ s) k c = elim (Option-cases (strip_prefix p (d ∷ s))) [
  | inl e ↦ rw (replace_on_none p neutralized d s e) (
      contains_str-cons q d (replace_on p neutralized 0 s)
        (elim (Bool-cases (starts q (d ∷ replace_on p neutralized 0 s))) [
          | inr f ↦ f
          | inl f ↦ absurd (
              cc (
                c.0 (starts_none p (d ∷ s) e),
                replace_on-starts p q (d ∷ s) k.no_open
                    (rw (replace_on_none p neutralized d s e) f),
              ))
        ])
        (replace_on-lacks p q 0 s k c.1))
  | inr (rest, e) ↦ rw (replace_on_found p neutralized d s rest e) (
      rw
        (contains_str-closed q (str "[neutralized") (replace_on p neutralized (length p - 1) s)
          k.no_close (omega (arith, k.long)))
        (replace_on-lacks p q (length p - 1) s k c.1))
]

IsClear-self : (q s : Str) → IsClear q q s
unfolding IsClear
IsClear-self q [] = tt
IsClear-self q (c ∷ s) = (λ h. h, IsClear-self q s)

contains_str-IsClear : (q p s : Str) → contains_str q s ≡ false → IsClear q p s
unfolding contains_str IsClear
contains_str-IsClear q p [] h = tt
contains_str-IsClear q p (c ∷ s) h = elim (Bool-cases (starts q (c ∷ s))) [
  | inl e ↦ absurd (cc (rw e at h))
  | inr e ↦ (λ _. e, contains_str-IsClear q p s (rw e at h))
]

replace-lacks :
    (p q s : Str)
    → IsToken p
    → IsToken q
    → IsClear q p s
    → contains_str q (replace p neutralized s) ≡ false
unfolding replace
replace-lacks [] q s k l c = absurd (omega (arith, k.long))
replace-lacks (a ∷ p) q s k l c = replace_on-lacks (a ∷ p) q 0 s l c

-- Whatever the untrusted text is, what is put between the markers holds neither the tag of the
-- markers nor the canary, if these have no bracket and at least 13 characters.
pub sanitized-lacks :
    (b : PromptBuilder) (content : Str)
    → IsToken b.secrets.delimiter_tag
    → IsToken b.secrets.canary
    → (contains_str b.secrets.delimiter_tag (sanitized b content) ≡ false)
      × (contains_str b.secrets.canary (sanitized b content) ≡ false)
unfolding sanitized
sanitized-lacks b content tag canary =
    let first =
      replace-lacks b.secrets.delimiter_tag b.secrets.delimiter_tag content tag tag
        (IsClear-self b.secrets.delimiter_tag content) in
    let once = replace b.secrets.delimiter_tag neutralized content in
    (
      replace-lacks b.secrets.canary b.secrets.delimiter_tag once canary tag
          (contains_str-IsClear b.secrets.delimiter_tag b.secrets.canary once first),
      replace-lacks b.secrets.canary b.secrets.canary once canary canary
          (IsClear-self b.secrets.canary once),
    )
