-- ===== src/Base/Int.antt =====
-- Differences that may be negative, over the native numbers.
use Prim.Native.Nat.{ℕ, ◌-◌}
use pfe.Base.Tests.{ltb, if◌then◌else◌}

-- `negsuc n` is -(n + 1).
pub data ℤ : Type 0 where
  pos negsuc : ℕ → ℤ

-- `a - b`
abbrev pub sub_ℕ : ℕ → ℕ → ℤ
sub_ℕ a b = if ltb a b then negsuc (b - a - 1) else pos (a - b)
