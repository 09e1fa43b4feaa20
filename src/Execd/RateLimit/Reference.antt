-- ===== src/Execd/RateLimit/Reference.antt =====
-- crates/archangel-execd/src/ratelimit.rs: the limiter against a reference that keeps the whole log
-- of admissions and counts in it.
use archangel.Common.{
  ℕ, ◌+◌, ◌≤◌, ◌≡◌, refl, sym, ◌∙◌, Bool, true, false, ◌&&◌, List, [], ◌∷◌, ◌++◌, leb, ltb,
  if◌then◌else◌, arith, Result, ok, err,
}
use archangel.Execd.RateLimit.Window
use archangel.Execd.RateLimit.Windows.{
  Counts, Counts-prune, Counts-push, Counts-raise, is_full-eq, recent,
}
use archangel.Execd.RateLimit.{
  minute, hour, RateLimits, ActionClass, RateRejection, total_per_minute, mutating_per_minute,
  critical_per_hour, full_if, push_if,
}

-- A request to run an action, at a time.
pub record Attempt : Type 0 where
  pub time : ℕ
  pub class : ActionClass

-- The admissions of the log that a window speaks about and that are younger than its horizon.
unfoldable pub tally : (ActionClass → Bool) → ℕ → ℕ → List Attempt → ℕ
tally applies horizon now [] = 0
tally applies horizon now (a ∷ log) =
    (if applies a.class && ltb now (a.time + horizon) then 1 else 0) + tally applies horizon now log

abbrev pub every : ActionClass → Bool
every c = true

abbrev pub is_mutating : ActionClass → Bool
is_mutating c = c.mutating

abbrev pub is_critical : ActionClass → Bool
is_critical c = c.critical

-- The reference: an action is shed by the first ceiling that the recent admissions have reached.
unfoldable pub reference : RateLimits → List Attempt → Attempt → Result (Unit {0}) RateRejection
reference limits log a =
    if leb limits.actions_per_minute (tally every minute a.time log)
    then err total_per_minute
    else if a.class.mutating
        && leb limits.mutating_actions_per_minute (tally is_mutating minute a.time log)
    then err mutating_per_minute
    else if a.class.critical
        && leb limits.critical_actions_per_hour (tally is_critical hour a.time log)
    then err critical_per_hour
    else ok tt

-- An admitted action enters the log.
abbrev pub extend : Result (Unit {0}) RateRejection → List Attempt → Attempt → List Attempt
extend (ok _) log a = log ++ a ∷ []
extend (err _) log a = log

pub tally-concat :
    (applies : ActionClass → Bool) (horizon now : ℕ) (log : List Attempt) (a : Attempt)
    → tally applies horizon now (log ++ a ∷ [])
      ≡ tally applies horizon now log
        + (if applies a.class && ltb now (a.time + horizon) then 1 else 0)
unfolding tally
tally-concat applies horizon now [] a = omega arith
tally-concat applies horizon now (b ∷ log) a = omega (arith, tally-concat applies horizon now log a)

-- The window stands for the admissions of the log that it speaks about.
pub record Stands (w : Window.Window) (applies : ActionClass → Bool) (horizon max : ℕ)
    (log : List Attempt) (t : ℕ) : Type 0 where
  pub counts : Counts w (λ now. tally applies horizon now log) t
  pub horizon_lem : w.horizon ≡ horizon
  pub max_lem : w.max ≡ max

Counts-eq :
    (w : Window.Window) {f g : ℕ → ℕ} (t : ℕ) → ((n : ℕ) → f n ≡ g n) → Counts w f t → Counts w g t
Counts-eq w t same c = record {
  ordered = c.ordered;
  agrees = λ now h. sym (same now) ∙ c.agrees now h;
}

module _ {applies : ActionClass → Bool} {horizon max : ℕ} {log : List Attempt} {t : ℕ} (now : ℕ)
    (le : t ≤ now) where
  pub Stands-raise :
      {w : Window.Window}
      → Stands w applies horizon max log t
      → Stands w applies horizon max log now
  Stands-raise {w} s = record {
    counts = Counts-raise w _ t now le s.counts;
    horizon_lem = s.horizon_lem;
    max_lem = s.max_lem;
  }

  pub Stands-full :
      {w : Window.Window}
      → Stands w applies horizon max log t
      → Stands (Window.is_full w now).0 applies horizon max log now
  unfolding Window.is_full
  Stands-full {w} s = record {
    counts = Counts-prune w _ t now le s.counts;
    horizon_lem = s.horizon_lem;
    max_lem = s.max_lem;
  }

  pub full-eq :
      {w : Window.Window}
      → Stands w applies horizon max log t
      → (Window.is_full w now).1 ≡ leb max (tally applies horizon now log)
  full-eq {w} s = rw (← s.max_lem) (is_full-eq w _ t now le s.counts)

  pub Stands-full_if :
      (b : Bool) {w : Window.Window}
      → Stands w applies horizon max log t
      → Stands (full_if b w now).0 applies horizon max log now
  unfolding full_if
  Stands-full_if true s = Stands-full s
  Stands-full_if false s = Stands-raise s

  pub full_if-eq :
      (b : Bool) {w : Window.Window}
      → Stands w applies horizon max log t
      → (full_if b w now).1 ≡ (b && leb max (tally applies horizon now log))
  unfolding full_if
  full_if-eq true s = full-eq s
  full_if-eq false s = refl

Stands-push :
    {applies : ActionClass → Bool} {horizon max : ℕ} {log : List Attempt} (a : Attempt)
    {w : Window.Window}
    → applies a.class ≡ true
    → Stands w applies horizon max log a.time
    → Stands (Window.push w a.time) applies horizon max (log ++ a ∷ []) a.time
unfolding Window.push
Stands-push {applies} {horizon} {log = log} a {w} yes_applies s = record {
  counts =
      Counts-eq (Window.push w a.time) a.time
        (λ n. ground (arith, tally-concat applies horizon n log a, s.horizon_lem, yes_applies))
        (Counts-push w _ a.time s.counts);
  horizon_lem = s.horizon_lem;
  max_lem = s.max_lem;
}

Stands-skip :
    {applies : ActionClass → Bool} {horizon max : ℕ} {log : List Attempt} (a : Attempt)
    {w : Window.Window}
    → applies a.class ≡ false
    → Stands w applies horizon max log a.time
    → Stands w applies horizon max (log ++ a ∷ []) a.time
Stands-skip {applies} {horizon} {log = log} a {w} skipped s = record {
  counts =
      Counts-eq w a.time (λ n. ground (arith, tally-concat applies horizon n log a, skipped))
        s.counts;
  horizon_lem = s.horizon_lem;
  max_lem = s.max_lem;
}

pub Stands-push_if :
    {applies : ActionClass → Bool} {horizon max : ℕ} {log : List Attempt} (a : Attempt)
    {w : Window.Window} (b : Bool)
    → applies a.class ≡ b
    → Stands w applies horizon max log a.time
    → Stands (push_if b w a.time) applies horizon max (log ++ a ∷ []) a.time
unfolding push_if
Stands-push_if a true e s = Stands-push a e s
Stands-push_if a false e s = Stands-skip a e s

pub Stands-new :
    (applies : ActionClass → Bool) (horizon max : ℕ)
    → Stands (Window.new horizon max) applies horizon max [] 0
unfolding tally recent
Stands-new applies horizon max = record {
  counts = record { ordered = omega arith; agrees = λ now h. refl };
  horizon_lem = refl;
  max_lem = refl;
}
