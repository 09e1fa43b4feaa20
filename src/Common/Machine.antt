-- ===== src/Common/Machine.antt =====
-- Unsigned machine integers of 64 bits, and the operations of theirs that do not wrap around.
use Prim.Native.Nat.{ℕ, ◌+◌, ◌≤◌, ◌<◌}
use mathlib.Core.Path.{◌≡◌, refl}
use native.Mathlib.Omega.{arith}
use mathlib.Core.Logic.{◌⊎◌, inl, inr}
use archangel.Common.Tests.{leb, if◌then◌else◌, Bool-cases}

abbrev pub u64_max : ℕ
u64_max = 0xffff_ffff_ffff_ffff

-- `u64::saturating_add`
unfoldable pub saturating_add : ℕ → ℕ → ℕ
saturating_add a b = if leb (a + b) u64_max then a + b else u64_max

pub saturating_add-small : (a b : ℕ) → a + b ≤ u64_max → saturating_add a b ≡ a + b
unfolding saturating_add
saturating_add-small a b h = ground arith

pub saturating_add-pos : (a : ℕ) → 0 < saturating_add a 1
unfolding saturating_add
saturating_add-pos a = ground arith

pub saturating_add-cases : (a b : ℕ) → (saturating_add a b ≡ a + b) ⊎ (saturating_add a b ≡ u64_max)
unfolding saturating_add
saturating_add-cases a b = elim (Bool-cases (leb (a + b) u64_max)) [
  | inl e ↦ inl (rw e refl)
  | inr e ↦ inr (rw e refl)
]
