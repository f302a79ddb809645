-- ===== src/Driver/Bcd.antt =====
-- fins/driver.go: binary coded decimals, two digits to a byte. A number with an odd count of digits
-- ends in a nibble 0x0f.
pub mod Steps
pub mod Pairs
pub mod RoundTrip
pub mod BadDigits
use mathlib.Core.Logic.{dite}
use mathlib.Core.WellFounded.{Acc}
use native.Mathlib.Decide.{dec_lt}
use omron_hostlink_fins.Common.{Bool, List, Result, [], arith, bit_and, bit_or, err, false}
use omron_hostlink_fins.Common.{if◌then◌else◌, leb, ltb, ok, put, replicate, suc, true, zero}
use omron_hostlink_fins.Common.{ℕ, ◌%◌, ◌&&◌, ◌+◌, ◌-◌, ◌/◌, ◌<◌, ◌==◌, ◌>>=◌, ◌^◌, ◌||◌, ◌∷◌}
use omron_hostlink_fins.Common.Order.{lt_wf}
use omron_hostlink_fins.Common.Words.{shl, shr, to_byte, to_uint64}
use omron_hostlink_fins.Errors.{bcd_bad_digit, bcd_overflow}

-- The loop that counts the digits of `xx`, `n` of them counted so far.
unfoldable pub count_digits : (xx : ℕ) → Acc ◌<◌ xx → ℕ → ℕ
count_digits xx (Acc.intro _ smaller) n =
    dite (dec_lt 0 xx) (λ h. count_digits (xx / 10) (smaller (xx / 10) (omega arith)) (n + 1))
      (λ _. n)

-- `hi<<4 | lo` on bytes
abbrev pub pack_nibbles : ℕ → ℕ → ℕ
pack_nibbles hi lo = bit_or (shl 8 hi 4) lo

-- The loop over `i`, with `i + 1` indices left, from the highest down.
unfoldable pub fill_pairs : ℕ → ℕ → List ℕ → Result (List ℕ)
fill_pairs zero x bcd = ok bcd
fill_pairs (suc i) x bcd = do
  bcd' ← put bcd i (pack_nibbles (to_byte (x / 10 % 10)) (to_byte (x % 10)))
  fill_pairs i (x / 100) bcd'

unfoldable pub encode_digits : ℕ → ℕ → Result (List ℕ)
encode_digits x n =
    let bcd = replicate ((n + 1) / 2) 0 in
    if n % 2 == 1
    then (do
      bcd' ← put bcd ((n - 1) / 2) (pack_nibbles (to_byte (x % 10)) 0x0f)
      fill_pairs ((n - 1) / 2) (x / 10) bcd')
    else fill_pairs (n / 2) x bcd

unfoldable pub encode_bcd : ℕ → Result (List ℕ)
encode_bcd x = if x == 0 then ok (0x0f ∷ []) else encode_digits x (count_digits x (lt_wf.apply x) 0)

-- `^digit` is 2 ^ 64 - 1 - digit, and `int64(x5) < 0` says that the top bit of `x5` is set.
unfoldable pub times_ten_plus_catching_overflow : ℕ → ℕ → Result ℕ
times_ten_plus_catching_overflow x digit =
    let x5 = to_uint64 (shl 64 x 2 + x) in
    if leb (2 ^ 63) x5 || ltb (2 ^ 64 - 1 - digit) (shl 64 x5 1)
    then err bcd_overflow
    else ok (to_uint64 (shl 64 x5 1 + digit))

abbrev pub is_empty : List ℕ → Bool
is_empty [] = true
is_empty (_ ∷ _) = false

-- The loop over the bytes that are left; the last byte is the one with none behind it.
unfoldable pub decode_loop : List ℕ → ℕ → Result ℕ
decode_loop [] x = ok x
decode_loop (b ∷ rest) x =
    let hi = shr b 4 in
    let lo = bit_and b 0x0f in
    if ltb 9 hi then err (bcd_bad_digit "hi" hi) else (do
      x1 ← times_ten_plus_catching_overflow x hi
      let last = lo == 0x0f && is_empty rest
      if last
          then ok x1
          else (if ltb 9 lo
              then err (bcd_bad_digit "lo" lo)
              else times_ten_plus_catching_overflow x1 lo >>= decode_loop rest))

unfoldable pub decode_bcd : List ℕ → Result ℕ
decode_bcd bcd = decode_loop bcd 0
