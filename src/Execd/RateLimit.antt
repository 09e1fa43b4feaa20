-- ===== src/Execd/RateLimit.antt =====
-- crates/archangel-execd/src/ratelimit.rs: three sliding windows over admissions. An `Instant` and a
-- `Duration` are numbers of nanoseconds.
pub mod Window
pub mod Windows
pub mod Reference
pub mod Refinement
pub mod Ceilings
use Window
use archangel.Common.{
  ℕ, ◌+◌, ◌-◌, ◌*◌, Bool, true, false, ◌&&◌, List, [], ◌∷◌, ◌++◌, leb, if◌then◌else◌, length,
  Result, ok, err,
}

abbrev pub second : ℕ
second = 1_000_000_000

abbrev pub minute : ℕ
minute = 60 * second

abbrev pub hour : ℕ
hour = 60 * 60 * second

pub record RateLimits : Type 0 where
  pub actions_per_minute : ℕ
  pub mutating_actions_per_minute : ℕ
  pub critical_actions_per_hour : ℕ

abbrev pub default_limits : RateLimits
default_limits = record {
  actions_per_minute = 20;
  mutating_actions_per_minute = 5;
  critical_actions_per_hour = 2;
}

pub record ActionClass : Type 0 where
  pub mutating : Bool
  pub critical : Bool

pub data RateRejection : Type 0 where
  total_per_minute mutating_per_minute critical_per_hour : RateRejection

pub record RateLimiter : Type 0 where
  pub total : Window.Window
  pub mutating : Window.Window
  pub critical : Window.Window

abbrev pub new : RateLimits → RateLimiter
new limits = record {
  total = Window.new minute limits.actions_per_minute;
  mutating = Window.new minute limits.mutating_actions_per_minute;
  critical = Window.new hour limits.critical_actions_per_hour;
}

-- `applies && window.is_full(now)`: a window that does not apply is not pruned either.
unfoldable pub full_if : Bool → Window.Window → ℕ → Window.Window × Bool
unfolding Window.is_full
full_if true w now = Window.is_full w now
full_if false w now = (w, false)

unfoldable pub push_if : Bool → Window.Window → ℕ → Window.Window
unfolding Window.push
push_if true w now = Window.push w now
push_if false w now = w

unfoldable pub try_admit :
    RateLimiter → ℕ → ActionClass → RateLimiter × Result (Unit {0}) RateRejection
unfolding full_if push_if
try_admit l now class =
    let (total, total_full) = Window.is_full l.total now in
    let (mutating, mutating_full) = full_if class.mutating l.mutating now in
    let (critical, critical_full) = full_if class.critical l.critical now in
    if total_full
    then (record l { total = total }, err total_per_minute)
    else if mutating_full
    then (record l { total = total; mutating = mutating }, err mutating_per_minute)
    else if critical_full
    then (record { total = total; mutating = mutating; critical = critical }, err critical_per_hour)
    else (
      record {
        total = Window.push total now;
        mutating = push_if class.mutating mutating now;
        critical = push_if class.critical critical now;
      },
      ok tt,
    )
