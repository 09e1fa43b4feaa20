-- ===== src/Execd/RateLimit/Windows.antt =====
-- crates/archangel-execd/src/ratelimit.rs: a window counts the admissions that are recent.
use archangel.Common.{
  ℕ, ◌+◌, ◌-◌, ◌≤◌, ◌<◌, ◌≡◌, refl, sym, ap, ◌∙◌, List, [], ◌∷◌, ◌++◌, leb, ltb, if◌then◌else◌,
  length, arith, Bool-cases, inl, inr,
}
use archangel.Execd.RateLimit.Window
use archangel.Execd.RateLimit.Window.{prune_hits}

-- How many of the times are younger than the horizon.
unfoldable pub recent : ℕ → ℕ → List ℕ → ℕ
recent horizon now [] = 0
recent horizon now (x ∷ xs) = (if ltb now (x + horizon) then 1 else 0) + recent horizon now xs

-- The times do not fall, from the first bound to the second.
abbrev pub Ascending : ℕ → ℕ → List ℕ → Type 0
Ascending lo hi [] = lo ≤ hi
Ascending lo hi (x ∷ xs) = (lo ≤ x) × Ascending x hi xs

Ascending-le : (lo hi : ℕ) (xs : List ℕ) → Ascending lo hi xs → lo ≤ hi
Ascending-le lo hi [] h = h
Ascending-le lo hi (x ∷ xs) h = omega (arith, Ascending-le x hi xs h.1)

Ascending-lower :
    (lo lo' hi : ℕ) (xs : List ℕ) → lo' ≤ lo → Ascending lo hi xs → Ascending lo' hi xs
Ascending-lower lo lo' hi [] h a = omega arith
Ascending-lower lo lo' hi (x ∷ xs) h a = (omega arith, a.1)

Ascending-raise :
    (lo hi hi' : ℕ) (xs : List ℕ) → hi ≤ hi' → Ascending lo hi xs → Ascending lo hi' xs
Ascending-raise lo hi hi' [] h a = omega arith
Ascending-raise lo hi hi' (x ∷ xs) h a = (a.0, Ascending-raise x hi hi' xs h a.1)

Ascending-concat :
    (lo hi now : ℕ) (xs : List ℕ)
    → hi ≤ now
    → Ascending lo hi xs
    → Ascending lo now (xs ++ now ∷ [])
Ascending-concat lo hi now [] h a = (omega arith, omega arith)
Ascending-concat lo hi now (x ∷ xs) h a = (a.0, Ascending-concat x hi now xs h a.1)

recent-concat :
    (horizon now x : ℕ) (xs : List ℕ)
    → recent horizon now (xs ++ x ∷ [])
      ≡ recent horizon now xs + (if ltb now (x + horizon) then 1 else 0)
unfolding recent
recent-concat horizon now x [] = omega arith
recent-concat horizon now x (y ∷ xs) = omega (arith, recent-concat horizon now x xs)

-- Behind a recent time all are recent.
recent-eq-length :
    (horizon now x hi : ℕ) (xs : List ℕ)
    → now < x + horizon
    → Ascending x hi xs
    → recent horizon now xs ≡ length xs
unfolding recent
recent-eq-length horizon now x hi [] h a = refl
recent-eq-length horizon now x hi (y ∷ xs) h a =
    ground (arith, recent-eq-length horizon now y hi xs (omega arith) a.1)

Ascending-prune :
    (horizon now lo hi : ℕ) (xs : List ℕ)
    → Ascending lo hi xs
    → Ascending lo hi (prune_hits horizon now xs)
unfolding prune_hits
Ascending-prune horizon now lo hi [] a = a
Ascending-prune horizon now lo hi (x ∷ xs) a = elim (Bool-cases (leb horizon (now - x))) [
  | inl e ↦ rw e (Ascending-lower x lo hi _ a.0 (Ascending-prune horizon now x hi xs a.1))
  | inr e ↦ rw e a
]

-- After a prune the window holds as many times as were recent.
length-prune :
    (horizon now lo hi : ℕ) (xs : List ℕ)
    → hi ≤ now
    → Ascending lo hi xs
    → length (prune_hits horizon now xs) ≡ recent horizon now xs
unfolding prune_hits recent
length-prune horizon now lo hi [] h a = refl
length-prune horizon now lo hi (x ∷ xs) h a = ground (
  arith,
  Ascending-le x hi xs a.1,
  length-prune horizon now x hi xs h a.1,
  recent-eq-length horizon now x hi xs,
)

-- What a prune drops is never recent again.
recent-prune :
    (horizon now later lo hi : ℕ) (xs : List ℕ)
    → hi ≤ now
    → now ≤ later
    → Ascending lo hi xs
    → recent horizon later (prune_hits horizon now xs) ≡ recent horizon later xs
unfolding prune_hits recent
recent-prune horizon now later lo hi [] h k a = refl
recent-prune horizon now later lo hi (x ∷ xs) h k a =
    ground (arith, Ascending-le x hi xs a.1, recent-prune horizon now later x hi xs h k a.1)

-- The window stands for a log of admissions: it holds those that can still be recent, and `count`
-- says how many of the log are recent at a time.
pub record Counts (w : Window.Window) (count : ℕ → ℕ) (t : ℕ) : Type 0 where
  pub ordered : Ascending 0 t w.hits
  pub agrees : (now : ℕ) → t ≤ now → count now ≡ recent w.horizon now w.hits

pub Counts-prune :
    (w : Window.Window) (count : ℕ → ℕ) (t now : ℕ)
    → t ≤ now
    → Counts w count t
    → Counts (Window.prune w now) count now
unfolding Window.prune
Counts-prune w count t now h c = record {
  ordered = Ascending-raise 0 t now _ h (Ascending-prune w.horizon now 0 t w.hits c.ordered);
  agrees = λ later k.
      c.agrees later (omega arith)
      ∙ sym (recent-prune w.horizon now later 0 t w.hits h k c.ordered);
}

pub Counts-push :
    (w : Window.Window) (count : ℕ → ℕ) (now : ℕ)
    → Counts w count now
    → Counts
        (Window.push w now)
        (λ later. count later + (if ltb later (now + w.horizon) then 1 else 0))
        now
unfolding Window.push
Counts-push w count now c = record {
  ordered = Ascending-concat 0 now now w.hits (omega arith) c.ordered;
  agrees = λ later k. omega (arith, c.agrees later k, recent-concat w.horizon later now w.hits);
}

pub Counts-raise :
    (w : Window.Window) (count : ℕ → ℕ) (t now : ℕ)
    → t ≤ now
    → Counts w count t
    → Counts w count now
Counts-raise w count t now h c = record {
  ordered = Ascending-raise 0 t now w.hits h c.ordered;
  agrees = λ later k. c.agrees later (omega arith);
}

-- A window is full exactly when as many admissions as it allows are recent.
pub is_full-eq :
    (w : Window.Window) (count : ℕ → ℕ) (t now : ℕ)
    → t ≤ now
    → Counts w count t
    → (Window.is_full w now).1 ≡ leb w.max (count now)
unfolding Window.is_full
is_full-eq w count t now h c =
    ap (leb w.max) (length-prune w.horizon now 0 t w.hits h c.ordered ∙ sym (c.agrees now h))
