-- ===== src/Common/Int.antt =====
-- Signed numbers, for durations and counts that a caller may give as negative.
use Prim.Native.Nat.{ℕ, zero, suc}
use mathlib.Core.Bool.{Bool, false, ◌&&◌}
use go_cli_messenger.Common.Tests.{leb, ◌==◌}

-- `negsuc n` is -(n + 1).
pub data ℤ : Type 0 where
  pos : ℕ → ℤ
  negsuc : ℕ → ℤ

-- `if value <= 0 { value = fallback }`
abbrev pub positive_or : ℤ → ℕ → ℕ
positive_or (pos zero) d = d
positive_or (pos (suc n)) d = suc n
positive_or (negsuc n) d = d

-- `value == n`
abbrev pub is_int : ℕ → ℤ → Bool
is_int n (pos k) = k == n
is_int n (negsuc k) = false

-- `!(value < lo || value > hi)`, for a bound above 0
abbrev pub in_range : ℕ → ℕ → ℤ → Bool
in_range lo hi (pos k) = leb lo k && leb k hi
in_range lo hi (negsuc k) = false
