-- ===== src/Daemon/Monitor/Cooldown.antt =====
-- crates/archangeld/src/monitor.rs, `CooldownGate`: a key that fired stays quiet for a window. An
-- `Instant` and a `Duration` are numbers of nanoseconds.
use archangel.Common.{
  ℕ, ◌-◌, ◌≤◌, ◌≡◌, refl, Bool, true, false, not, ◌&&◌, ◌||◌, Option, none, some, List, [], ◌∷◌,
  any, length, ltb, if◌then◌else◌, arith, inl, inr, Bool-cases, Option-cases, ap, sym, ◌∙◌,
}
use archangel.Common.Text.{str_eq}
use archangel.Common.Map.{Key, HashMap, get, insert, retain, get-retain}

pub record CooldownGate : Type 0 where
  pub window : ℕ
  pub last : HashMap ℕ

abbrev pub new : ℕ → CooldownGate
new window = record { window = window; last = [] }

-- `now.saturating_duration_since(fired) < window`
abbrev pub cooling : ℕ → ℕ → ℕ → Bool
cooling window now fired = ltb (now - fired) window

unfoldable pub prune : CooldownGate → ℕ → CooldownGate
prune g now = record g { last = retain (cooling g.window now) g.last }

abbrev pub held : ℕ → ℕ → Option ℕ → Bool
held window now none = false
held window now (some fired) = cooling window now fired

unfoldable pub admit : CooldownGate → ℕ → Key → CooldownGate × Bool
unfolding prune
admit g now key =
    let g' = prune g now in
    if held g'.window now (get key g'.last)
    then (g', false)
    else (record g' { last = insert key now g'.last }, true)

abbrev pub tracked : CooldownGate → ℕ
tracked g = length g.last

-- A firing of the log of all firings is of the key, and is cooling down.
abbrev pub silences : ℕ → ℕ → Key → Key × ℕ → Bool
silences window now key (k, fired) = str_eq k key && cooling window now fired

-- The reference keeps every firing ever admitted.
abbrev pub reference : ℕ → List (Key × ℕ) → ℕ → Key → Bool
reference window log now key = not (any (silences window now key) log)

-- The times of a run do not fall.
abbrev pub IsTimely : ℕ → List (ℕ × Key) → Type 0
IsTimely t [] = Unit
IsTimely t ((now, key) ∷ rest) = (t ≤ now) × IsTimely now rest

unfoldable pub firings : CooldownGate → List (ℕ × Key) → List Bool
firings g [] = []
firings g ((now, key) ∷ rest) = let (g', d) = admit g now key in d ∷ firings g' rest

unfoldable pub reference_firings : ℕ → List (Key × ℕ) → List (ℕ × Key) → List Bool
reference_firings window log [] = []
reference_firings window log ((now, key) ∷ rest) =
    let d = reference window log now key in
    d ∷ reference_firings window (if d then (key, now) ∷ log else log) rest

held-retain :
    (window now : ℕ) (key : Key) (m : HashMap ℕ)
    → held window now (get key (retain (cooling window now) m)) ≡ any (silences window now key) m
unfolding get retain
held-retain window now key [] = refl
held-retain window now key ((k, fired) ∷ m) = elim (Bool-cases (cooling window now fired)) [
  | inr e ↦ ground (arith, e, held-retain window now key m)
  | inl e ↦ elim (Bool-cases (str_eq k key)) [
    | inl f ↦ rw (e, f) e
    | inr f ↦ rw (e, f) (held-retain window now key m)
  ]
]

-- What is pruned no longer silences, now or later.
any-retain :
    (window now later : ℕ) (key : Key) (m : HashMap ℕ)
    → now ≤ later
    → any (silences window later key) (retain (cooling window now) m)
      ≡ any (silences window later key) m
unfolding retain
any-retain window now later key [] le = refl
any-retain window now later key ((k, fired) ∷ m) le =
    ground (arith, any-retain window now later key m le)

any-insert :
    (window later now : ℕ) (key j : Key) (m : HashMap ℕ)
    → get key m ≡ none
    → any (silences window later j) (insert key now m)
      ≡ (any (silences window later j) ((key, now) ∷ m))
unfolding get insert
any-insert window later now key j [] h = refl
any-insert window later now key j ((k, fired) ∷ m) h = elim (Bool-cases (str_eq k key)) [
  | inl e ↦ let found : ◌≡◌ {A = Option ℕ} (some fired) none = rw e at h in cc
  | inr e ↦ ground (arith, e, any-insert window later now key j m (rw e at h))
]

module _ (window now : ℕ) (key : Key) (m : HashMap ℕ) where
  not_held :
      any (silences window now key) m ≡ false → get key (retain (cooling window now) m) ≡ none
  not_held h = elim (Option-cases (get key (retain (cooling window now) m))) [
    | inl e ↦ e
    | inr (fired, e) ↦
        let kept : cooling window now fired ≡ true = (get-retain key (cooling window now) m e).0 in
        let quiet : cooling window now fired ≡ false =
          ap (held window now) (sym e) ∙ held-retain window now key m ∙ h in
        cc
  ]

-- The gate's map silences what the log does, from the given time on.
abbrev Stands : CooldownGate → List (Key × ℕ) → ℕ → Type 0
Stands g log t =
    (later : ℕ) (key : Key)
    → t ≤ later
    → any (silences g.window later key) g.last ≡ any (silences g.window later key) log

module _ (g : CooldownGate) (log : List (Key × ℕ)) (t now : ℕ) (key : Key) (le : t ≤ now)
    (r : Stands g log t) where
  admit-eq : (admit g now key).1 ≡ reference g.window log now key
  unfolding admit prune
  admit-eq = elim (Bool-cases (any (silences g.window now key) g.last)) [
    | inl e ↦ rw (held-retain g.window now key g.last, e, sym (r now key le) ∙ e) refl
    | inr e ↦ rw (held-retain g.window now key g.last, e, sym (r now key le) ∙ e) refl
  ]

  standing :
      (later : ℕ) (j : Key)
      → now ≤ later
      → any (silences g.window later j) (retain (cooling g.window now) g.last)
        ≡ any (silences g.window later j) log
  standing later j after =
      any-retain g.window now later j g.last after ∙ r later j (omega (arith, le, after))

  admit-Stands :
      Stands (admit g now key).0 (if (admit g now key).1 then (key, now) ∷ log else log) now
  unfolding admit prune
  admit-Stands = elim (Bool-cases (any (silences g.window now key) g.last)) [
    | inl e ↦ rw (held-retain g.window now key g.last, e) (λ later j after. standing later j after)
    | inr e ↦
        rw (held-retain g.window now key g.last, e)
          (λ later j after.
            any-insert g.window later now key j (retain (cooling g.window now) g.last)
              (not_held g.window now key g.last e)
            ∙ ap (λ b. silences g.window later j (key, now) || b) (standing later j after))
  ]

  admit-window : (admit g now key).0.window ≡ g.window
  unfolding admit prune
  admit-window = ground arith

firings-eq :
    (g : CooldownGate) (log : List (Key × ℕ)) (t : ℕ) (run : List (ℕ × Key))
    → IsTimely t run
    → Stands g log t
    → firings g run ≡ reference_firings g.window log run
unfolding firings reference_firings
firings-eq g log t [] h r = refl
firings-eq g log t ((now, key) ∷ rest) h r =
    let same = admit-eq g log t now key h.0 r in
    let kept = admit-window g log t now key h.0 r in
    let next = admit-Stands g log t now key h.0 r in
    let log' = if (admit g now key).1 then (key, now) ∷ log else log in
    let later = firings-eq (admit g now key).0 log' now rest h.1 next in rw (later, kept, same) refl

-- On every run of firings whose times do not fall, a new gate, which forgets
-- old keys, decides as the reference does, which keeps every firing ever admitted: a firing is admitted
-- exactly when no firing of the same key was admitted within the window before it.
pub firings-eq-reference :
    (window : ℕ) (run : List (ℕ × Key))
    → IsTimely 0 run
    → firings (new window) run ≡ reference_firings window [] run
firings-eq-reference window run h = firings-eq (new window) [] 0 run h (λ later key after. refl)
