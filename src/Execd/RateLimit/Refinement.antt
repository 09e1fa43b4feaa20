-- ===== src/Execd/RateLimit/Refinement.antt =====
-- crates/archangel-execd/src/ratelimit.rs: on every run the limiter decides as the reference does.
use mathlib.Core.Path.{ap₂}
use archangel.Common.{ℕ, ◌≤◌, ◌≡◌, refl, true, List, [], ◌∷◌, inl, inr, arith, Bool-cases, Result}
use archangel.Execd.RateLimit.Window
use archangel.Execd.RateLimit.{
  minute, hour, RateLimits, RateRejection, RateLimiter, new, full_if, try_admit,
}
use archangel.Execd.RateLimit.Reference.{
  Attempt, every, is_mutating, is_critical, reference, extend, Stands, Stands-raise, Stands-full,
  full-eq, Stands-full_if, full_if-eq, Stands-push_if, Stands-new,
}

-- The times of a run do not fall, from the given one on.
abbrev pub IsTimely : ℕ → List Attempt → Type 0
IsTimely t [] = Unit
IsTimely t (a ∷ rest) = (t ≤ a.time) × IsTimely a.time rest

-- What a run of attempts is answered, one by one.
unfoldable pub decisions : RateLimiter → List Attempt → List (Result (Unit {0}) RateRejection)
decisions l [] = []
decisions l (a ∷ rest) = let (l', d) = try_admit l a.time a.class in d ∷ decisions l' rest

unfoldable pub reference_decisions :
    RateLimits → List Attempt → List Attempt → List (Result (Unit {0}) RateRejection)
reference_decisions limits log [] = []
reference_decisions limits log (a ∷ rest) =
    let d = reference limits log a in d ∷ reference_decisions limits (extend d log a) rest

record Refines (l : RateLimiter) (limits : RateLimits) (log : List Attempt) (t : ℕ) : Type 0 where
  total : Stands l.total every minute limits.actions_per_minute log t
  mutating : Stands l.mutating is_mutating minute limits.mutating_actions_per_minute log t
  critical : Stands l.critical is_critical hour limits.critical_actions_per_hour log t

module _ (l : RateLimiter) (limits : RateLimits) (log : List Attempt) (t : ℕ) (a : Attempt)
    (le : t ≤ a.time) (r : Refines l limits log t) where
  try_admit-eq : (try_admit l a.time a.class).1 ≡ reference limits log a
  unfolding try_admit reference
  try_admit-eq = ground (
    arith,
    full-eq a.time le r.total,
    full_if-eq a.time le a.class.mutating r.mutating,
    full_if-eq a.time le a.class.critical r.critical,
  )

  try_admit-Refines :
      Refines
        (try_admit l a.time a.class).0
        limits
        (extend (try_admit l a.time a.class).1 log a)
        a.time
  unfolding try_admit
  try_admit-Refines = elim (Bool-cases (Window.is_full l.total a.time).1) [
    | inl e ↦ rw e (record {
      total = Stands-full a.time le r.total;
      mutating = Stands-raise a.time le r.mutating;
      critical = Stands-raise a.time le r.critical;
    })
    | inr e ↦ elim (Bool-cases (full_if a.class.mutating l.mutating a.time).1) [
      | inl f ↦
          rw (e, f)
            (record {
              total = Stands-full a.time le r.total;
              mutating = Stands-full_if a.time le a.class.mutating r.mutating;
              critical = Stands-raise a.time le r.critical;
            })
      | inr f ↦ elim (Bool-cases (full_if a.class.critical l.critical a.time).1) [
        | inl g ↦
            rw (e, f, g)
              (record {
                total = Stands-full a.time le r.total;
                mutating = Stands-full_if a.time le a.class.mutating r.mutating;
                critical = Stands-full_if a.time le a.class.critical r.critical;
              })
        | inr g ↦
            rw (e, f, g)
              (record {
                total = Stands-push_if a true refl (Stands-full a.time le r.total);
                mutating =
                    Stands-push_if a a.class.mutating refl
                      (Stands-full_if a.time le a.class.mutating r.mutating);
                critical =
                    Stands-push_if a a.class.critical refl
                      (Stands-full_if a.time le a.class.critical r.critical);
              })
      ]
    ]
  ]

decisions-eq :
    (l : RateLimiter) (limits : RateLimits) (log : List Attempt) (t : ℕ) (rest : List Attempt)
    → IsTimely t rest
    → Refines l limits log t
    → decisions l rest ≡ reference_decisions limits log rest
unfolding decisions reference_decisions
decisions-eq l limits log t [] h r = refl
decisions-eq l limits log t (a ∷ rest) h r =
    let same = try_admit-eq l limits log t a h.0 r in
    let l' = (try_admit l a.time a.class).0 in
    let next : Refines l' limits (extend (reference limits log a) log a) a.time =
      rw (← same) (try_admit-Refines l limits log t a h.0 r) in
    ap₂ (λ d ds. d ∷ ds) same
      (decisions-eq l' limits (extend (reference limits log a) log a) a.time rest h.1 next)

-- On every run of attempts whose times do not fall, a new limiter decides each attempt as the
-- reference does, which keeps every admission ever made and counts the recent ones: the reports of
-- the ceilings are the same too.
pub decisions-eq-reference :
    (limits : RateLimits) (run : List Attempt)
    → IsTimely 0 run
    → decisions (new limits) run ≡ reference_decisions limits [] run
decisions-eq-reference limits run h = decisions-eq (new limits) limits [] 0 run h (record {
  total = Stands-new every minute limits.actions_per_minute;
  mutating = Stands-new is_mutating minute limits.mutating_actions_per_minute;
  critical = Stands-new is_critical hour limits.critical_actions_per_hour;
})
