-- ===== src/Common/Int.antt =====
-- Signed integers, and the conversions between Go's `int16`, `int32` and the unsigned types.
use Prim.Native.Nat.{ℕ, ◌+◌, ◌-◌, ◌^◌, ◌<◌}
use mathlib.Core.Path.{◌≡◌}
use native.Mathlib.Omega.{arith}
use omron_hostlink_fins.Common.Tests.{ltb, if◌then◌else◌}

-- `negsuc n` is -(n + 1).
pub data ℤ : Type 0 where
  pos : ℕ → ℤ
  negsuc : ℕ → ℤ

-- The value of a two's complement pattern of `suc w` bits, and the pattern of a value.
unfoldable pub signed : ℕ → ℕ → ℤ
signed w v = if ltb v (2 ^ w) then pos v else negsuc (2 ^ w + 2 ^ w - v - 1)

unfoldable pub unsigned : ℕ → ℤ → ℕ
unsigned w (pos n) = n
unsigned w (negsuc n) = 2 ^ w + 2 ^ w - n - 1

-- The values of a signed integer of `suc w` bits.
abbrev pub IsSigned : ℕ → ℤ → Type 0
IsSigned w (pos n) = n < 2 ^ w
IsSigned w (negsuc n) = n < 2 ^ w

pub signed-unsigned : (w : ℕ) (x : ℤ) → IsSigned w x → signed w (unsigned w x) ≡ x
unfolding signed unsigned
signed-unsigned w (pos n) h = ground arith
signed-unsigned w (negsuc n) h = ground arith

pub unsigned-lt : (w : ℕ) (x : ℤ) → IsSigned w x → unsigned w x < 2 ^ w + 2 ^ w
unfolding unsigned
unsigned-lt w (pos n) h = omega arith
unsigned-lt w (negsuc n) h = omega arith
