-- ===== src/Base/Int.antt =====
-- Signed integers over the native numbers: `negsuc n` is -(n + 1).
use Prim.Native.Nat.{ℕ, ◌+◌, ◌-◌}
use mathlib.Core.Bool.{Bool, false}
use cwnet.Base.Tests.{ltb, leb, if◌then◌else◌}

pub data ℤ : Type 0 where
  pos : ℕ → ℤ
  negsuc : ℕ → ℤ

-- a - n
abbrev pub sub_nat : ℤ → ℕ → ℤ
sub_nat (pos a) n = if leb n a then pos (a - n) else negsuc (n - a - 1)
sub_nat (negsuc a) n = negsuc (a + n)

-- n < a
abbrev pub exceeds : ℤ → ℕ → Bool
exceeds (pos a) n = ltb n a
exceeds (negsuc a) n = false
