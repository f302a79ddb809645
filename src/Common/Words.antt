-- ===== src/Common/Words.antt =====
-- Unsigned machine words as numbers, and the bit operations of the source as arithmetic.
mod Digits
use Digits.{bit_or_step, bit_and_step}
use Prim.Native.Nat.{ℕ, zero, suc, ◌+◌, ◌-◌, ◌*◌, ◌/◌, ◌%◌, ◌^◌, ◌<◌, ◌≤◌, bit_and, bit_or, max}
use mathlib.Core.Path.{◌≡◌, refl, ap}
use native.Mathlib.Nat.{pow-suc}
use native.Mathlib.Omega.{arith}

-- `x << k` in an unsigned integer of `w` bits, and `x >> k`.
abbrev pub shl : ℕ → ℕ → ℕ → ℕ
shl w x k = x * 2 ^ k % 2 ^ w

abbrev pub shr : ℕ → ℕ → ℕ
shr x k = x / 2 ^ k

-- The conversions `byte(x)`, `uint16(x)`, `uint32(x)` and `uint64(x)`.
abbrev pub to_byte : ℕ → ℕ
to_byte x = x % 2 ^ 8

abbrev pub to_uint16 : ℕ → ℕ
to_uint16 x = x % 2 ^ 16

abbrev pub to_uint32 : ℕ → ℕ
to_uint32 x = x % 2 ^ 32

abbrev pub to_uint64 : ℕ → ℕ
to_uint64 x = x % 2 ^ 64

abbrev pub IsByte : ℕ → Type 0
IsByte b = b < 2 ^ 8

abbrev pub IsUint16 : ℕ → Type 0
IsUint16 v = v < 2 ^ 16

abbrev pub IsUint32 : ℕ → Type 0
IsUint32 v = v < 2 ^ 32

abbrev pub IsUint64 : ℕ → Type 0
IsUint64 v = v < 2 ^ 64

-- The zero law of an operation that goes by its lowest digits, by strong induction.
or_nothing : (limit x : ℕ) → x ≤ limit → bit_or x 0 ≡ x
or_nothing limit zero small = refl
or_nothing zero (suc x) small = absurd (omega arith)
or_nothing (suc limit) (suc x) small =
    let above = or_nothing limit (suc x / 2) (omega arith) in
    omega (arith, bit_or_step (suc x) 0, above)

and_nothing : (limit x : ℕ) → x ≤ limit → bit_and x 0 ≡ 0
and_nothing limit zero small = refl
and_nothing zero (suc x) small = absurd (omega arith)
and_nothing (suc limit) (suc x) small =
    let above = and_nothing limit (suc x / 2) (omega arith) in
    omega (arith, bit_and_step (suc x) 0, above)

double_field : (q k : ℕ) → q * 2 ^ suc k ≡ 2 * (q * 2 ^ k)
double_field q k = omega (arith, ap (λ (t : ℕ). q * t) (pow-suc 2 k))

-- The bits of `q` above position `k` and those of `r` below it do not meet.
pub bit_or_disjoint : (k q r : ℕ) → r < 2 ^ k → bit_or (q * 2 ^ k) r ≡ q * 2 ^ k + r
bit_or_disjoint zero q r h = ground (arith, or_nothing q q)
bit_or_disjoint (suc k) q r h = ground (
  arith,
  pow-suc 2 k,
  double_field q k,
  bit_or_step (q * 2 ^ suc k) r,
  bit_or_disjoint k q (r / 2) (omega (arith, pow-suc 2 k)),
)

-- The masks of one, three and four ones.
pub bit_and-one : (x : ℕ) → bit_and x 1 ≡ x % 2
bit_and-one x =
    let above = and_nothing (x / 2) (x / 2) (omega arith) in omega (arith, bit_and_step x 1, above)

pub bit_and-seven : (x : ℕ) → bit_and x 0x07 ≡ x % 8
bit_and-seven x =
    let low = bit_and_step x 7 in
    let middle = bit_and_step (x / 2) 3 in
    let high = bit_and-one (x / 2 / 2) in omega (arith, low, middle, high)

pub bit_and-fifteen : (x : ℕ) → bit_and x 0x0f ≡ x % 16
bit_and-fifteen x =
    let low = bit_and_step x 15 in let above = bit_and-seven (x / 2) in omega (arith, low, above)
