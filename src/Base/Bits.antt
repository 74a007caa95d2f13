-- ===== src/Base/Bits.antt =====
-- Facts about bytes, checked at every value.
use Prim.Native.Nat.{ℕ, zero, suc, ◌<◌}
use mathlib.Core.Path.{◌≡◌}
use mathlib.Core.Bool.{Bool, true, false}
use native.Mathlib.Omega.{arith}
use microbridge.Base.Tests.{if◌then◌else◌}

-- The test holds for each number up to `top`, that one left out.
unfoldable pub holds_to : (test : ℕ → Bool) → (top : ℕ) → Bool
holds_to test zero = true
holds_to test (suc top) = if test top then holds_to test top else false

pub at-holds_to : (test : ℕ → Bool) (top k : ℕ) → k < top → holds_to test top ≡ true → test k ≡ true
unfolding holds_to
at-holds_to test zero k lt every = absurd (omega arith)
at-holds_to test (suc top) k lt every = ground (arith, at-holds_to test top k)

-- The test holds for every byte.
abbrev pub every_byte : (ℕ → Bool) → Bool
every_byte test = holds_to test 256

pub byte : (test : ℕ → Bool) (k : ℕ) → every_byte test ≡ true → k < 256 → test k ≡ true
byte test k every lt = at-holds_to test 256 k lt every
