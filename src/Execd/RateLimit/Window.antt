-- ===== src/Execd/RateLimit/Window.antt =====
-- crates/archangel-execd/src/ratelimit.rs: one sliding window. An `Instant` and a `Duration` are
-- numbers of nanoseconds.
use archangel.Common.{ℕ, ◌-◌, Bool, List, [], ◌∷◌, ◌++◌, leb, if◌then◌else◌, length}

-- The oldest admission stands first.
pub record Window : Type 0 where
  pub horizon : ℕ
  pub max : ℕ
  pub hits : List ℕ

abbrev pub new : ℕ → ℕ → Window
new horizon max = record { horizon = horizon; max = max; hits = [] }

-- The loop of `prune`; `now - front` is `saturating_duration_since`.
unfoldable pub prune_hits : ℕ → ℕ → List ℕ → List ℕ
prune_hits horizon now [] = []
prune_hits horizon now (front ∷ hits) =
    let rest = prune_hits horizon now hits in
    if leb horizon (now - front) then rest else front ∷ hits

unfoldable pub prune : Window → ℕ → Window
unfolding prune_hits
prune w now = record w { hits = prune_hits w.horizon now w.hits }

unfoldable pub is_full : Window → ℕ → Window × Bool
unfolding prune
is_full w now = let w' = prune w now in (w', leb w'.max (length w'.hits))

unfoldable pub push : Window → ℕ → Window
push w now = record w { hits = w.hits ++ now ∷ [] }
