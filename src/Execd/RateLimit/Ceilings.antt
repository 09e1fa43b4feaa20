-- ===== src/Execd/RateLimit/Ceilings.antt =====
-- crates/archangel-execd/src/ratelimit.rs: what the ceilings bound.
use archangel.Common.{
  ℕ, ◌+◌, ◌≤◌, ◌≡◌, Bool, false, ◌&&◌, List, [], ◌∷◌, ◌++◌, leb, ltb, if◌then◌else◌, arith, Result,
  ok, err, inl, inr, Result-cases, append_assoc, append-nil,
}
use archangel.Execd.RateLimit.{minute, hour, RateLimits, ActionClass, RateRejection, new}
use archangel.Execd.RateLimit.Reference.{Attempt, tally, every, is_mutating, is_critical, reference}
use archangel.Execd.RateLimit.Refinement.{
  IsTimely, decisions, reference_decisions, decisions-eq-reference,
}

-- The attempts of a run that were admitted.
unfoldable pub admitted : List (Result (Unit {0}) RateRejection) → List Attempt → List Attempt
admitted [] run = []
admitted (d ∷ ds) [] = []
admitted (ok _ ∷ ds) (a ∷ run) = a ∷ admitted ds run
admitted (err _ ∷ ds) (a ∷ run) = admitted ds run

-- How many attempts of a kind stand in a stretch of time, its first instant counted and its end not.
unfoldable pub between : (ActionClass → Bool) → ℕ → ℕ → List Attempt → ℕ
between applies from span [] = 0
between applies from span (a ∷ log) =
    (if applies a.class && leb from a.time && ltb a.time (from + span) then 1 else 0)
    + between applies from span log

between-concat :
    (applies : ActionClass → Bool) (from span : ℕ) (log : List Attempt) (a : Attempt)
    → between applies from span (log ++ a ∷ [])
      ≡ between applies from span log
        + (if applies a.class && leb from a.time && ltb a.time (from + span) then 1 else 0)
unfolding between
between-concat applies from span [] a = omega arith
between-concat applies from span (b ∷ log) a = omega (arith, between-concat applies from span log a)

-- What stands in a stretch that holds the present is recent.
between-le-tally :
    (applies : ActionClass → Bool) (from span now : ℕ) (log : List Attempt)
    → now + 1 ≤ from + span
    → between applies from span log ≤ tally applies span now log
unfolding between tally
between-le-tally applies from span now [] h = omega arith
between-le-tally applies from span now (a ∷ log) h =
    ground (arith, between-le-tally applies from span now log h)

-- No stretch holds more than the ceiling.
abbrev Bounded : (ActionClass → Bool) → ℕ → ℕ → List Attempt → Type 0
Bounded applies span max log = (from : ℕ) → between applies from span log ≤ max

Bounded-concat :
    (applies : ActionClass → Bool) (span max : ℕ) (log : List Attempt) (a : Attempt)
    → Bounded applies span max log
    → (applies a.class && leb max (tally applies span a.time log)) ≡ false
    → Bounded applies span max (log ++ a ∷ [])
Bounded-concat applies span max log a b free from = ground (
  arith,
  between-concat applies from span log a,
  b from,
  between-le-tally applies from span a.time log,
)

record Within (limits : RateLimits) (log : List Attempt) : Type 0 where
  total : Bounded every minute limits.actions_per_minute log
  mutating : Bounded is_mutating minute limits.mutating_actions_per_minute log
  critical : Bounded is_critical hour limits.critical_actions_per_hour log

-- Each ceiling has room for an attempt that the reference admits.
reference_room :
    (limits : RateLimits) (log : List Attempt) (a : Attempt) (u : Unit {0})
    → reference limits log a ≡ ok u
    → (leb limits.actions_per_minute (tally every minute a.time log) ≡ false)
      × ((a.class.mutating
            && leb limits.mutating_actions_per_minute (tally is_mutating minute a.time log))
          ≡ false)
      × ((a.class.critical
            && leb limits.critical_actions_per_hour (tally is_critical hour a.time log))
          ≡ false)
unfolding reference
reference_room limits log a u h = ground arith

Within-concat :
    (limits : RateLimits) (log : List Attempt) (a : Attempt) (u : Unit {0})
    → reference limits log a ≡ ok u
    → Within limits log
    → Within limits (log ++ a ∷ [])
Within-concat limits log a u h w =
    let (t, m, c) = reference_room limits log a u h in
    record {
      total = Bounded-concat every minute limits.actions_per_minute log a w.total t;
      mutating =
          Bounded-concat is_mutating minute limits.mutating_actions_per_minute log a w.mutating m;
      critical =
          Bounded-concat is_critical hour limits.critical_actions_per_hour log a w.critical c;
    }

Within-run :
    (limits : RateLimits) (log run : List Attempt)
    → Within limits log
    → Within limits (log ++ admitted (reference_decisions limits log run) run)
unfolding reference_decisions admitted
Within-run limits log [] w = rw append-nil w
Within-run limits log (a ∷ run) w = elim (Result-cases (reference limits log a)) [
  | inl (u, e) ↦
      rw (e, ← append_assoc log (a ∷ []))
        (Within-run limits (log ++ a ∷ []) run (Within-concat limits log a u e w))
  | inr (why, e) ↦ rw e (Within-run limits log run w)
]

-- Whatever is attempted, at times that do not fall: no minute sees more admissions than the ceiling
-- on actions, nor more mutating ones than theirs, and no hour more critical ones than theirs.
pub decisions_bounded :
    (limits : RateLimits) (run : List Attempt)
    → IsTimely 0 run
    → (from : ℕ)
    → let log = admitted (decisions (new limits) run) run in
      (between every from minute log ≤ limits.actions_per_minute)
      × (between is_mutating from minute log ≤ limits.mutating_actions_per_minute)
      × (between is_critical from hour log ≤ limits.critical_actions_per_hour)
decisions_bounded limits run h from =
    let w = Within-run limits [] run (
      unfold between in
      record {
        total = λ f. omega arith;
        mutating = λ f. omega arith;
        critical = λ f. omega arith;
      }) in
    rw (decisions-eq-reference limits run h) (w.total from, w.mutating from, w.critical from)
