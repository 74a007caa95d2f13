-- ===== src/Base/Int.antt =====
-- Signed results (`int`), over the native numbers.
use Prim.Native.Nat.{ℕ, ◌-◌, ◌%◌}
use mathlib.Core.Bool.{Bool, true, false}
use microbridge.Base.Tests.{ltb, if◌then◌else◌, ◌==◌}

-- `negsuc n` is -(n + 1).
pub data ℤ : Type 0 where
  pos : ℕ → ℤ
  negsuc : ℕ → ℤ

-- x < 0
abbrev pub is_neg : ℤ → Bool
is_neg (pos n) = false
is_neg (negsuc n) = true

-- x == 0
abbrev pub is_zero : ℤ → Bool
is_zero (pos n) = n == 0
is_zero (negsuc n) = false

-- x == n
abbrev pub equals : ℤ → ℕ → Bool
equals (pos m) n = m == n
equals (negsuc m) n = false

-- The conversion of a 16-bit unsigned value to the 16-bit `int` of the AVR.
abbrev pub int16 : ℕ → ℤ
int16 w = if ltb w 0x8000 then pos w else negsuc (0x1_0000 - w - 1)

-- The conversion of an `int` to an unsigned word of the given modulus.
abbrev pub to_word : ℕ → ℤ → ℕ
to_word m (pos n) = n % m
to_word m (negsuc n) = m - 1 - n % m
