-- ===== src/Common/Int.antt =====
-- The C `int` results that may be negative: socket descriptors and error codes.
use Prim.Native.Nat.{ℕ, ◌%◌, ◌-◌}
use mathlib.Core.Bool.{Bool, true, false}

-- `negsuc n` is -(n + 1).
pub data ℤ : Type 0 where
  pos : ℕ → ℤ
  negsuc : ℕ → ℤ

abbrev pub is_negative : ℤ → Bool
is_negative (pos _) = false
is_negative (negsuc _) = true

-- The conversion of an int to uint8_t.
unfoldable pub uint8 : ℤ → ℕ
uint8 (pos n) = n % 256
uint8 (negsuc n) = 255 - n % 256
