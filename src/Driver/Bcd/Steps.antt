-- ===== src/Driver/Bcd/Steps.antt =====
-- fins/driver.go: one byte of a binary coded decimal, packed and read back.
use omron_hostlink_fins.Common.{List, arith, bit_and, err, if◌then◌else◌, ltb, lt→ltb, ok, ℕ}
use omron_hostlink_fins.Common.{◌%◌, ◌*◌, ◌+◌, ◌-◌, ◌/◌, ◌<◌, ◌^◌, ◌∙◌, ◌∷◌, ◌≡◌, ◌≤◌}
use omron_hostlink_fins.Common.Words.{bit_and-fifteen, bit_or_disjoint, shl, shr}
use omron_hostlink_fins.Driver.Bcd.{decode_loop, pack_nibbles}
use omron_hostlink_fins.Driver.Bcd.{times_ten_plus_catching_overflow}
use omron_hostlink_fins.Errors.{bcd_overflow}

pub pack_nibbles_lem : (hi lo : ℕ) → hi < 16 → lo < 16 → pack_nibbles hi lo ≡ hi * 16 + lo
pack_nibbles_lem hi lo hh hl =
    let e : shl 8 hi 4 ≡ hi * 2 ^ 4 = omega arith in rw (e, bit_or_disjoint 4 hi lo hl)

-- For a digit of at most 9, `timesTenPlusCatchingOverflow` gives 10 * x + digit when that fits 64
-- bits and the overflow error when not, as long as 5 * x fits 64 bits.
pub times_ten_plus_catching_overflow_lem :
    (x digit : ℕ)
    → 5 * x < 2 ^ 64
    → digit ≤ 9
    → times_ten_plus_catching_overflow x digit
      ≡ (if ltb (10 * x + digit) (2 ^ 64) then ok (10 * x + digit) else err bcd_overflow)
unfolding times_ten_plus_catching_overflow
times_ten_plus_catching_overflow_lem x digit hx hd = ground arith

-- Where 5 * x leaves 64 bits and its low bits look small, the overflow is missed.
pub times_ten_wraps :
    (x digit : ℕ)
    → 2 ^ 64 ≤ 5 * x
    → 5 * x + 5 ≤ 2 ^ 64 + 2 ^ 63
    → digit ≤ 9
    → times_ten_plus_catching_overflow x digit ≡ ok (10 * x + digit - 2 ^ 65)
unfolding times_ten_plus_catching_overflow
times_ten_wraps x digit lo hi hd = ground arith

pub times_ten_ok :
    (x digit : ℕ)
    → 10 * x + digit < 2 ^ 64
    → digit ≤ 9
    → times_ten_plus_catching_overflow x digit ≡ ok (10 * x + digit)
times_ten_ok x digit h hd =
    times_ten_plus_catching_overflow_lem x digit (omega arith) hd ∙ rw (lt→ltb _ _ h)

-- The byte of two decimal digits.
abbrev pub digit_pair : ℕ → ℕ
digit_pair x = x / 10 % 10 * 16 + x % 10

pub nibbles :
    (hi lo : ℕ) → lo < 16 → (shr (hi * 16 + lo) 4 ≡ hi) × (bit_and (hi * 16 + lo) 0x0f ≡ lo)
nibbles hi lo h = let mask = bit_and-fifteen (hi * 16 + lo) in (omega arith, mask ∙ omega arith)

-- A byte of two digits takes two steps.
pub decode_loop_digits :
    (hi lo x : ℕ) (rest : List ℕ)
    → hi ≤ 9
    → lo ≤ 9
    → 100 * x + hi * 10 + lo < 2 ^ 64
    → decode_loop ((hi * 16 + lo) ∷ rest) x ≡ decode_loop rest (100 * x + hi * 10 + lo)
unfolding decode_loop
decode_loop_digits hi lo x rest hh hl h =
    ground (arith, nibbles hi lo, times_ten_ok x hi, times_ten_ok (10 * x + hi) lo)
