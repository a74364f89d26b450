-- ===== src/Prelude/Int.antt =====
-- Python's integers, where a value may be negative.
use Prim.Native.Nat.{ℕ, zero, suc}
use mathlib.Core.Bool.{Bool, true, false}
use webintel.Prelude.Tests.{leb}

-- `negsuc n` is -(n + 1).
pub data ℤ : Type 0 where
  pos : ℕ → ℤ
  negsuc : ℕ → ℤ

-- n < 0, n <= 0, n < k
abbrev pub is_negative : ℤ → Bool
is_negative (pos n) = false
is_negative (negsuc n) = true

abbrev pub is_below : ℤ → ℕ → Bool
is_below (pos n) zero = false
is_below (pos n) (suc k) = leb n k
is_below (negsuc n) k = true

-- max(0, n)
abbrev pub pos_part : ℤ → ℕ
pos_part (pos n) = n
pos_part (negsuc n) = 0
